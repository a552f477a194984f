-- ===== src/Metadata/Schema.antt =====
-- `MetadataStore.initialize` and the migrations of the schema. A migration is one transaction: it
-- takes effect whole, or raises and leaves the schema as it was.
use stardustfs.Prelude.{
  ℕ, Bool, true, false, Option, none, some, not, ◌&&◌, leb, if◌then◌else◌, Result, ok, err, ◌>>=◌,
  operational_error, ◌≡◌, refl,
}

-- The columns that `files` has beyond those of version 1, and the table `schema_version` with the
-- version in its one row.
pub record Schema : Type 0 where
  pub has_version : Bool
  pub has_deleted : Bool
  pub has_replication_status : Bool
  pub has_version_table : Bool
  pub schema_version : Option ℕ

abbrev is_migrated : Schema → Bool
is_migrated s = s.has_version_table && (elim s.schema_version [ none ↦ false | some v ↦ leb 2 v ])

pub needs_migration : Schema → Bool
needs_migration s = if is_migrated s then false else not s.has_version

-- `backup` says whether the copy of the database file succeeded.
pub migrate_to_v2 : Bool → Schema → Result Schema
unfolding needs_migration
migrate_to_v2 backup s =
    if not (needs_migration s)
    then ok s
    else if not backup
    then ok s
    else ok (record s { has_version = true; has_version_table = true; schema_version = some 2 })

-- INSERT INTO schema_version, which raises where there is no such table.
abbrev record_version : ℕ → Schema → Result Schema
record_version v s =
    if s.has_version_table then ok (record s { schema_version = some v }) else err operational_error

pub migrate_to_v3 : Schema → Result Schema
migrate_to_v3 s = if s.has_deleted then ok s else record_version 3 (record s { has_deleted = true })

pub migrate_to_v4 : Schema → Result Schema
migrate_to_v4 s =
    if s.has_replication_status
    then ok s
    else record_version 4 (record s { has_replication_status = true })

pub initialize : Bool → Schema → Result Schema
unfolding migrate_to_v2 migrate_to_v3 migrate_to_v4
initialize backup s = do s2 ← migrate_to_v2 backup s; s3 ← migrate_to_v3 s2; migrate_to_v4 s3

-- The schemas that the releases of the program leave behind.
pub data Release : Type 0 where
  v1 v2 v3 v4 : Release

pub schema_of : Release → Schema
schema_of v1 = record {
  has_version = false;
  has_deleted = false;
  has_replication_status = false;
  has_version_table = false;
  schema_version = none;
}
schema_of v2 = record {
  has_version = true;
  has_deleted = false;
  has_replication_status = false;
  has_version_table = true;
  schema_version = some 2;
}
schema_of v3 = record {
  has_version = true;
  has_deleted = true;
  has_replication_status = false;
  has_version_table = true;
  schema_version = some 3;
}
schema_of v4 = record {
  has_version = true;
  has_deleted = true;
  has_replication_status = true;
  has_version_table = true;
  schema_version = some 4;
}

abbrev is_v1 : Release → Bool
is_v1 v1 = true
is_v1 _ = false

-- From the schema of every release `initialize` reaches that of version 4, and leaves that one
-- alone; but where a database of version 1 could not be copied, the migration to version 2 is
-- skipped without an error and the one to version 3 raises.
pub initialize_lem :
    (release : Release) (backup : Bool)
    → initialize backup (schema_of release)
      ≡ (if is_v1 release && not backup then err operational_error else ok (schema_of v4))
unfolding initialize schema_of
initialize_lem v1 true = refl
initialize_lem v1 false = refl
initialize_lem v2 backup = refl
initialize_lem v3 backup = refl
initialize_lem v4 backup = refl
