-- ===== src/Metadata/Lifecycle.antt =====
-- The life of a file in MetadataStore: insertion, deletion as a tombstone, reactivation, purging.
use stardustfs.Prelude.{
  ℕ, Text, Bool, true, Option, none, some, ◌+◌, ◌≡◌, refl, arith, ok, ◌==◌, text_eq, not,
  if◌then◌else◌, eq_refl, Option-cases, inl, inr, ◌&&◌, ltb, filter, ap, ◌∙◌,
}
use stardustfs.Models.{FileMetadata, pending, sync_status_beq}
use stardustfs.Table.{find_row}
use stardustfs.Table.Laws.{keep_if, find_row-filter, find_row-map}
use stardustfs.Metadata.{
  Row, Db, path_of, row_at, insert, delete, lookup, lookup_any, purge_expired_tombstones,
}
use stardustfs.Metadata.Status.{get_pending_files}
use stardustfs.Metadata.Map.{inserted_row, insert-Becomes, delete-Becomes, row_at-purge}
use stardustfs.Metadata.Invariant.{IsValid, Step-IsValid, deleting}

-- What `lookup` shows of a row.
abbrev pub shown : Option Row → Option FileMetadata
shown none = none
shown (some r) = if r.deleted then none else some r.file

pub lookup-eq-shown : (p : Text) (db : Db) → lookup p db ≡ shown (row_at p db)
unfolding lookup
lookup-eq-shown p db = elim (Option-cases (row_at p db)) [
  | inl e ↦ ground arith
  | inr (r, e) ↦ ground arith
]

abbrev pub metadata_of : Option Row → Option FileMetadata
metadata_of none = none
metadata_of (some r) = some r.file

pub lookup_any-eq-metadata_of : (p : Text) (db : Db) → lookup_any p db ≡ metadata_of (row_at p db)
unfolding lookup_any
lookup_any-eq-metadata_of p db = ground arith

-- The version of the row that an insertion meets, 0 where there is none.
abbrev pub version_at : Text → Db → ℕ
version_at p db = elim (row_at p db) [ none ↦ 0 | some r ↦ r.version ]

-- An insertion never raises. Afterwards its path shows a pending file with the given source,
-- physical path and device, whose version is one above that of the row that was there, be it live
-- or a tombstone, and 1 where there was none; every other path shows what it showed.
pub lookup-insert :
    (p source physical : Text) (size created modified : ℕ) (device : Option Text) (db : Db)
    → (db' : Db) × (m : FileMetadata) × (insert p source physical size created modified device db
        ≡ ok db')
      × ((q : Text) → lookup q db' ≡ (if p == q then some m else lookup q db))
      × (m.version ≡ version_at p db + 1)
      × (m.sync_status ≡ pending)
      × (m.source_id ≡ source)
      × (m.physical_path ≡ physical)
      × (m.device_id ≡ device)
lookup-insert p source physical size created modified device db =
    let (db', e, b) = insert-Becomes p source physical size created modified device db in
    elim (Option-cases (row_at p db)) [
      | inl free ↦ (
        db',
        (inserted_row p source physical size created modified device db).file,
        e,
        λ q. ground (arith, lookup-eq-shown q db', lookup-eq-shown q db, b q),
        ground arith,
        ground arith,
        ground arith,
        ground arith,
        ground arith,
      )
      | inr (r, found) ↦ (
        db',
        (inserted_row p source physical size created modified device db).file,
        e,
        λ q. ground (arith, lookup-eq-shown q db', lookup-eq-shown q db, b q),
        ground arith,
        ground arith,
        ground arith,
        ground arith,
        ground arith,
      )
    ]

abbrev pub is_pending : Row → Bool
is_pending r = sync_status_beq r.sync_status pending

abbrev pub path_of_file : FileMetadata → Text
path_of_file m = m.virtual_path

pub pending_at :
    (p : Text) (db : Db)
    → IsValid db
    → find_row path_of_file p (get_pending_files db)
      ≡ metadata_of (keep_if is_pending (row_at p db))
unfolding get_pending_files
pending_at p db v =
    find_row-map path_of path_of_file (λ r. r.file) p (filter is_pending db.files) (λ r. refl)
    ∙ ap metadata_of (find_row-filter path_of p is_pending db.files v.unique)

-- The record of a file that was deleted at the time `now`: one version later, and to be uploaded.
abbrev pub buried : ℕ → FileMetadata → FileMetadata
buried now m = record {
  virtual_path = m.virtual_path;
  source_id = m.source_id;
  physical_path = m.physical_path;
  file_size = m.file_size;
  created_at = m.created_at;
  modified_at = now;
  version = m.version + 1;
  device_id = m.device_id;
  sync_status = pending;
  deleted = true;
}

-- In a well-formed database, deleting a file that has a row hides its path and no other, keeps the row
-- as a tombstone of the next version, and puts that tombstone among the files of the next upload.
pub lookup-delete :
    (p : Text) (now : ℕ) (db : Db) (r : Row)
    → IsValid db
    → row_at p db ≡ some r
    → ((q : Text) → lookup q (delete p now db) ≡ (if p == q then none else lookup q db))
      × (lookup_any p (delete p now db) ≡ some (buried now r.file))
      × (find_row path_of_file p (get_pending_files (delete p now db)) ≡ some (buried now r.file))
unfolding sync_status_beq
lookup-delete p now db r v found =
    let b = delete-Becomes p db now in
    (
      λ q. ground (arith, lookup-eq-shown q (delete p now db), lookup-eq-shown q db, b q),
      ground (arith, lookup_any-eq-metadata_of p (delete p now db), b p, eq_refl p),
      ground (
        arith,
        pending_at p (delete p now db) (Step-IsValid v (deleting p now refl)),
        b p,
        eq_refl p,
      ),
    )

-- In a well-formed database, purging hides and shows no file, and of the rows it removes exactly the tombstones whose
-- modification lies further back than the retention time.
pub lookup-purge :
    (q : Text) (retention now : ℕ) (db : Db)
    → IsValid db
    → let db' = (purge_expired_tombstones retention now db).1 in
      (lookup q db' ≡ lookup q db)
      × (lookup_any q db'
          ≡ metadata_of
              (keep_if (λ r. not (r.deleted && ltb (r.modified_at + retention) now)) (row_at q db)))
lookup-purge q retention now db v = elim (Option-cases (row_at q db)) [
  | inl free ↦ (
    ground (
      arith,
      lookup-eq-shown q (purge_expired_tombstones retention now db).1,
      lookup-eq-shown q db,
      row_at-purge q db retention now v.unique,
    ),
    ground (
      arith,
      lookup_any-eq-metadata_of q (purge_expired_tombstones retention now db).1,
      row_at-purge q db retention now v.unique,
    ),
  )
  | inr (r, found) ↦ (
    ground (
      arith,
      lookup-eq-shown q (purge_expired_tombstones retention now db).1,
      lookup-eq-shown q db,
      row_at-purge q db retention now v.unique,
    ),
    ground (
      arith,
      lookup_any-eq-metadata_of q (purge_expired_tombstones retention now db).1,
      row_at-purge q db retention now v.unique,
    ),
  )
]
