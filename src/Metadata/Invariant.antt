-- ===== src/Metadata/Invariant.antt =====
-- The well-formedness of the metadata database, kept by every method of MetadataStore.
use stardustfs.Prelude.{
  ℕ, Text, List, [], ◌∷◌, map, All, sym, ◌==◌, eq_iff, eq_refl, Bool-cases, Result-cases, Option,
  none, some, ◌≤◌, ◌≡◌, refl, arith, subst, not, ok, text_eq, Option-cases, inl, inr,
}
use stardustfs.Models.{SyncStatus, ReplicationStatus}
use stardustfs.Table.{find_row, IsUnique, insert_row, rekey_row}
use stardustfs.Table.Laws.{
  find_row-update_rows, update_rows_absent, IsUnique-update_rows, IsUnique-append_new,
  IsUnique-filter,
}
use stardustfs.Metadata.{
  Row, DirectoryRow, Db, path_of, directory_of, row_at, update_at, with_file, new_row, reactivated,
  is_expired, insert, updated, update, increment_version, mark, tombstone, with_path, with_status,
  delete, purge_expired_tombstones, rename_path,
}
use stardustfs.Metadata.Status.{
  sync_status_of, set_sync_status, replication_status_of, set_replication_status, with_replication,
}
use stardustfs.Metadata.Directories.{move_prefix, rename_directory, with_directory_path}
use stardustfs.Metadata.Directories.Moving.{moved, move_prefix-eq-map, move_prefix-IsUnique}
use stardustfs.Metadata.Map.{Becomes, inserted_row, insert-Becomes, row_at-purge, rename_path_lem}

-- One row to a path, and versions that start at 1.
pub record IsValid (db : Db) : Type 0 where
  pub unique : IsUnique path_of db.files
  pub versions : (q : Text) (r : Row) → row_at q db ≡ some r → 1 ≤ r.version

-- A method that sets the row at one path to a row of version 1 or more keeps the versions.
versions-Becomes :
    (p : Text) (o : Option Row) (db db' : Db)
    → ((q : Text) (r : Row) → row_at q db ≡ some r → 1 ≤ r.version)
    → ((r : Row) → o ≡ some r → 1 ≤ r.version)
    → Becomes p o db db'
    → (q : Text) (r : Row) → row_at q db' ≡ some r
    → 1 ≤ r.version
versions-Becomes p o db db' old new b q r e = ground (arith, old q r, new r, b q)

-- A statement UPDATE that keeps the path and never lowers the version keeps the invariant.
pub update_at-IsValid :
    (p : Text) (f : Row → Row) (db : Db)
    → ((r : Row) → path_of (f r) ≡ path_of r)
    → ((r : Row) → r.version ≤ (f r).version)
    → IsValid db
    → IsValid (update_at p f db)
update_at-IsValid p f db keeps grows v = record {
  unique = IsUnique-update_rows path_of p f db.files keeps v.unique;
  versions = λ q r e. elim (Option-cases (row_at q db)) [
    | inl free ↦ ground (arith, find_row-update_rows path_of p q f db.files keeps)
    | inr (r', e') ↦
        ground
          (arith, find_row-update_rows path_of p q f db.files keeps, v.versions q r' e', grows r')
  ];
}

module _ (p source physical : Text) (size created modified : ℕ) (device : Option Text) (db db' : Db)
    (v : IsValid db) (h : insert p source physical size created modified device db ≡ ok db') where
  insert-IsUnique : IsUnique path_of db'.files
  unfolding insert insert_row
  insert-IsUnique = elim (Option-cases (row_at p db)) [
    | inl free ↦ ground (
      arith,
      IsUnique-append_new path_of (new_row p source physical size created modified device) db.files
          free v.unique,
    )
    | inr (r, e) ↦ ground (
      arith,
      IsUnique-update_rows path_of p
          (with_file (reactivated source physical size created modified device)) db.files
          (λ r. refl) v.unique,
    )
  ]

  insert_version :
      (r : Row)
      → some (inserted_row p source physical size created modified device db) ≡ some r
      → 1 ≤ r.version
  insert_version r e = elim (Option-cases (row_at p db)) [
    | inl free ↦ ground arith
    | inr (r', e') ↦ ground (arith, v.versions p r' e')
  ]

  insert-IsValid : IsValid db'
  insert-IsValid =
      let (d, e, b) = insert-Becomes p source physical size created modified device db in
      let same : d ≡ db' = cc (e, h) in
      record {
        unique = insert-IsUnique;
        versions =
            versions-Becomes p
              (some (inserted_row p source physical size created modified device db)) db db'
              v.versions insert_version
              (subst
                (λ x.
                  Becomes p (some (inserted_row p source physical size created modified device db))
                    db x)
                same b);
      }

module _ (retention now : ℕ) (db : Db) (v : IsValid db) where
  purge-IsValid : IsValid (purge_expired_tombstones retention now db).1
  unfolding purge_expired_tombstones
  purge-IsValid = record {
    unique = IsUnique-filter path_of (λ r. not (is_expired retention now r)) db.files v.unique;
    versions = λ q r e. elim (Option-cases (row_at q db)) [
      | inl free ↦ ground (arith, row_at-purge q db retention now v.unique)
      | inr (r', e') ↦ ground (arith, row_at-purge q db retention now v.unique, v.versions q r' e')
    ];
  }

-- A rename whose path has no row changes nothing.
rename_path_absent :
    (old new : Text) (db : Db) → row_at old db ≡ none → rename_path old new db ≡ ok db
unfolding rename_path rekey_row
rename_path_absent old new db free =
    ground (arith, update_rows_absent path_of old (with_path new) db.files free)

rename_path-IsValid :
    (old new : Text) (db db' : Db) → IsValid db → rename_path old new db ≡ ok db' → IsValid db'
rename_path-IsValid old new db db' v h = elim (Option-cases (row_at old db)) [
  | inl free ↦
      let same : db ≡ db' = cc (rename_path_absent old new db free, h) in subst IsValid same v
  | inr (r, e) ↦
      let (u, same, at) = rename_path_lem old new db v.unique db' h (ground arith) in
      record {
        unique = u;
        versions = λ q r' e'. ground (arith, at q, v.versions old r e, v.versions q r');
      }
]

kept_versions :
    (rows : List Row)
    → IsUnique path_of rows
    → ((q : Text) (r : Row) → find_row path_of q rows ≡ some r → 1 ≤ r.version)
    → All (λ r. 1 ≤ r.version) rows
unfolding find_row
kept_versions [] unique old = tt
kept_versions (r ∷ rows) (free, unique) old = (
  old (path_of r) r (ground (arith, eq_refl (path_of r))),
  kept_versions rows unique (λ q r' e. old q r' (ground (arith, e, free, eq_iff (path_of r) q))),
)

find_row-All :
    (P : Row → Type 0) (q : Text) (r : Row) (rows : List Row)
    → All P rows
    → find_row path_of q rows ≡ some r
    → P r
unfolding find_row
find_row-All P q r [] all e = ground arith
find_row-All P q r (x ∷ rows) (here, there) e = elim (Bool-cases (path_of x == q)) [
  | inl same ↦ let first : x ≡ r = ground arith in subst P first here
  | inr other ↦ find_row-All P q r rows there (ground arith)
]

moved_versions :
    (old new : Text) (rows : List Row)
    → All (λ r. 1 ≤ r.version) rows
    → All (λ r. 1 ≤ r.version) (map (moved path_of with_path old new) rows)
moved_versions old new [] all = tt
moved_versions old new (r ∷ rows) (here, there) =
    (ground (arith, here), moved_versions old new rows there)

moved_files-IsValid :
    (old new : Text) (db : Db) (files : List Row) (directories : List DirectoryRow)
    → IsValid db
    → move_prefix path_of with_path old new [] db.files ≡ ok files
    → IsValid (record { files = files; directories = directories })
moved_files-IsValid old new db files directories v e = record {
  unique =
      move_prefix-IsUnique path_of with_path old new (λ p r. refl) [] db.files files v.unique e;
  versions = λ q r at.
      find_row-All (λ r. 1 ≤ r.version) q r files
        (subst (All (λ r. 1 ≤ r.version))
          (sym (move_prefix-eq-map path_of with_path old new [] db.files files e))
          (moved_versions old new db.files (kept_versions db.files v.unique v.versions)))
        at;
}

rename_directory-IsValid :
    (old new : Text) (db : Db) → IsValid db → IsValid (rename_directory old new db).1
unfolding rename_directory
rename_directory-IsValid old new db v =
    elim (Result-cases (move_prefix path_of with_path old new [] db.files)) [
      | inr (e, refused) ↦ rw (rename_directory, refused) v
      | inl (files, e) ↦
          elim (Result-cases
            (move_prefix directory_of with_directory_path old new [] db.directories)) [
              | inr (e', refused) ↦
                  rw (rename_directory, e, refused)
                    (moved_files-IsValid old new db files db.directories v e)
              | inl (directories, e') ↦
                  rw (rename_directory, e, e')
                    (moved_files-IsValid old new db files directories v e)
            ]
    ]

-- One call of a method of MetadataStore that changes the table `files`.
pub data Step (db db' : Db) : Type 0 where
  inserting :
      (path source physical : Text) (size created modified : ℕ) (device : Option Text)
      → insert path source physical size created modified device db ≡ ok db'
      → Step db db'
  updating :
      (path : Text) (size modified : ℕ) (device source physical : Option Text)
      → update path size modified device source physical db ≡ db'
      → Step db db'
  incrementing : (path device : Text) → increment_version path device db ≡ db' → Step db db'
  marking : (path status : Text) → set_sync_status path status db ≡ ok db' → Step db db'
  replicating : (path status : Text) → set_replication_status path status db ≡ ok db' → Step db db'
  deleting : (path : Text) (now : ℕ) → delete path now db ≡ db' → Step db db'
  purging : (retention now : ℕ) → (purge_expired_tombstones retention now db).1 ≡ db' → Step db db'
  renaming : (old new : Text) → rename_path old new db ≡ ok db' → Step db db'
  moving : (old new : Text) → (rename_directory old new db).1 ≡ db' → Step db db'

set_sync_status-eq-ok :
    (p t : Text) (db db' : Db)
    → set_sync_status p t db ≡ ok db'
    → (s : SyncStatus) × (mark p s db ≡ db')
unfolding set_sync_status
set_sync_status-eq-ok p t db db' h = elim (Option-cases (sync_status_of t)) [
  | inl bad ↦ ground arith
  | inr (s, e) ↦ (s, ground arith)
]

set_replication_status-eq-ok :
    (p t : Text) (db db' : Db)
    → set_replication_status p t db ≡ ok db'
    → (s : ReplicationStatus) × (update_at p (with_replication s) db ≡ db')
unfolding set_replication_status
set_replication_status-eq-ok p t db db' h = elim (Option-cases (replication_status_of t)) [
  | inl bad ↦ ground arith
  | inr (s, e) ↦ (s, ground arith)
]

-- Every method of MetadataStore that changes the table `files` keeps the keys unique and the versions at
-- 1 or more; the move of a directory does so also where it raises.
pub Step-IsValid : {db db' : Db} → IsValid db → Step db db' → IsValid db'
Step-IsValid {db} {db'} v (inserting p source physical size created modified device h) =
    insert-IsValid p source physical size created modified device db db' v h
Step-IsValid {db} {db'} v (updating p size modified device source physical h) = subst IsValid h (
    unfold update in
    update_at-IsValid p (with_file (updated size modified device source physical)) db (λ r. refl)
      (λ r. omega arith) v)
Step-IsValid {db} {db'} v (incrementing p device h) =
    subst IsValid h
      (unfold increment_version in update_at-IsValid p _ db (λ r. refl) (λ r. omega arith) v)
Step-IsValid {db} {db'} v (marking p t h) =
    let (s, e) = set_sync_status-eq-ok p t db db' h in
    subst IsValid e
      (unfold mark in update_at-IsValid p (with_status s) db (λ r. refl) (λ r. omega arith) v)
Step-IsValid {db} {db'} v (replicating p t h) =
    let (s, e) = set_replication_status-eq-ok p t db db' h in
    subst IsValid e (update_at-IsValid p (with_replication s) db (λ r. refl) (λ r. omega arith) v)
Step-IsValid {db} {db'} v (deleting p now h) = subst IsValid h (
    unfold delete in
    update_at-IsValid p (with_file (tombstone now)) db (λ r. refl) (λ r. omega arith) v)
Step-IsValid {db} {db'} v (purging retention now h) =
    subst IsValid h (purge-IsValid retention now db v)
Step-IsValid {db} {db'} v (renaming old new h) = rename_path-IsValid old new db db' v h
Step-IsValid {db} {db'} v (moving old new h) =
    subst IsValid h (rename_directory-IsValid old new db v)
