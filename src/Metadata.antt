-- ===== src/Metadata.antt =====
-- stardustlib/metadata_store.py: the class MetadataStore. The database is the list of the rows of
-- its two tables; a method that changes it returns the new database.
pub mod Status
pub mod Map
pub mod Directories
pub mod Schema
pub mod Lifecycle
pub mod Invariant
use stardustfs.Prelude.{
  ℕ, Text, Bool, true, false, Option, none, some, List, [], ◌∷◌, ◌++◌, map, ◌+◌, ◌&&◌, ◌||◌, not,
  ◌==◌, text_eq, option_text_eq, is_some, if◌then◌else◌, Result, ok, err, ◌>>=◌, value_error, codes,
  filter, any, ltb_ℤ, pos, sub_ℕ, length, ◌-◌,
}
use stardustfs.Models.{
  FileMetadata, SyncStatus, synced, pending, conflict, ReplicationStatus, unreplicated, waiting,
  replicated, sync_status_beq,
}
use stardustfs.Table.{find_row, update_rows, insert_row, rekey_row}

-- The table `files`: the columns of `FileMetadata`, and `replication_status`.
pub record Row : Type 0 where
  pub file : FileMetadata
  pub open file use *
  pub replication_status : ReplicationStatus

pub record DirectoryRow : Type 0 where
  pub virtual_path : Text
  pub created_at : ℕ

pub record Db : Type 0 where
  pub files : List Row
  pub directories : List DirectoryRow

-- The keys of the two tables.
abbrev pub path_of : Row → Text
path_of r = r.virtual_path

abbrev pub directory_of : DirectoryRow → Text
directory_of d = d.virtual_path

-- SELECT * FROM files WHERE virtual_path = ?
abbrev pub row_at : Text → Db → Option Row
row_at p db = find_row path_of p db.files

-- UPDATE files SET ... WHERE virtual_path = ?
abbrev pub update_at : Text → (Row → Row) → Db → Db
update_at p f db = record db { files = update_rows path_of p f db.files }

abbrev pub with_file : (FileMetadata → FileMetadata) → Row → Row
with_file f r = record r { file = f r.file }

-- The statement UPDATE of `insert`, on a row that is there already.
abbrev pub reactivated : Text → Text → ℕ → ℕ → ℕ → Option Text → FileMetadata → FileMetadata
reactivated source physical size created modified device m = record m {
  source_id = source;
  physical_path = physical;
  file_size = size;
  created_at = created;
  modified_at = modified;
  version = m.version + 1;
  sync_status = pending;
  deleted = false;
  device_id = device;
}

abbrev pub new_row : Text → Text → Text → ℕ → ℕ → ℕ → Option Text → Row
new_row path source physical size created modified device = record {
  file = record {
    virtual_path = path;
    source_id = source;
    physical_path = physical;
    file_size = size;
    created_at = created;
    modified_at = modified;
    version = 1;
    device_id = device;
    sync_status = pending;
    deleted = false;
  };
  replication_status = unreplicated;
}

unfoldable pub insert : Text → Text → Text → ℕ → ℕ → ℕ → Option Text → Db → Result Db
insert path source physical size created modified device db =
    if is_some (row_at path db)
    then ok
        (update_at path (with_file (reactivated source physical size created modified device)) db)
    else do
      rows ← insert_row path_of (new_row path source physical size created modified device) db.files
      ok (record db { files = rows })

-- A column that is set only if the argument is not None.
abbrev pub set_if {ℓ} : {A : Type ℓ} → Option A → A → A
set_if none old = old
set_if (some new) old = new

abbrev pub set_device : Option Text → Option Text → Option Text
set_device none old = old
set_device (some d) old = some d

abbrev pub updated : ℕ → ℕ → Option Text → Option Text → Option Text → FileMetadata → FileMetadata
updated size modified device source physical m = record m {
  file_size = size;
  modified_at = modified;
  version = m.version + 1;
  sync_status = pending;
  device_id = set_device device m.device_id;
  source_id = set_if source m.source_id;
  physical_path = set_if physical m.physical_path;
}

unfoldable pub update : Text → ℕ → ℕ → Option Text → Option Text → Option Text → Db → Db
update path size modified device source physical =
    update_at path (with_file (updated size modified device source physical))

unfoldable pub increment_version : Text → Text → Db → Db
increment_version path device =
    update_at path (with_file (λ m. record m { version = m.version + 1; device_id = some device }))

abbrev pub with_status : SyncStatus → Row → Row
with_status s = with_file (λ m. record m { sync_status = s })

-- `set_sync_status` once the value has been found valid.
unfoldable pub mark : Text → SyncStatus → Db → Db
mark path s = update_at path (with_status s)

abbrev pub tombstone : ℕ → FileMetadata → FileMetadata
tombstone now m = record m {
  deleted = true;
  version = m.version + 1;
  sync_status = pending;
  modified_at = now;
}

unfoldable pub delete : Text → ℕ → Db → Db
delete path now = update_at path (with_file (tombstone now))

-- modified_at < now - retention_seconds, whose right side may be negative.
abbrev pub is_expired : ℕ → ℕ → Row → Bool
is_expired retention now r = r.deleted && ltb_ℤ (pos r.modified_at) (sub_ℕ now retention)

unfoldable pub purge_expired_tombstones : ℕ → ℕ → Db → ℕ × Db
purge_expired_tombstones retention now db =
    let kept = filter (λ r. not (is_expired retention now r)) db.files in
    (length db.files - length kept, record db { files = kept })

unfoldable pub lookup : Text → Db → Option FileMetadata
lookup path db = elim (row_at path db) [
  | none ↦ none
  | some r ↦ if r.deleted then none else some r.file
]

unfoldable pub lookup_any : Text → Db → Option FileMetadata
lookup_any path db = elim (row_at path db) [ none ↦ none | some r ↦ some r.file ]

abbrev pub with_path : Text → Row → Row
with_path path = with_file (λ m. record m { virtual_path = path })

unfoldable pub rename_path : Text → Text → Db → Result Db
rename_path old new db = do
  rows ← rekey_row path_of (with_path new) old new db.files
  ok (record db { files = rows })
