-- ===== src/Metadata/Map.antt =====
-- MetadataStore as a map: what each method does to the row at every path.
use stardustfs.Prelude.{
  ℕ, Text, Option, none, some, [], ◌∷◌, ◌++◌, ◌≡◌, inl, inr, ◌≢◌, refl, ◌+◌, not, ◌==◌, text_eq,
  eq_iff, if◌then◌else◌, ok, err, unique_violation, arith, Option-cases,
}
use stardustfs.Models.{FileMetadata, SyncStatus}
use stardustfs.Table.{find_row, insert_row, rekey_row, IsUnique}
use stardustfs.Table.Laws.{
  keep_if, map_option, find_row-update_rows, find_row-append_new, find_row-filter, rekey_row_lem,
  rekey_row_refused, rekey_row_accepted,
}
use stardustfs.Metadata.{
  Row, Db, path_of, row_at, update_at, with_file, reactivated, new_row, insert, updated, update,
  increment_version, mark, with_status, tombstone, delete, is_expired, purge_expired_tombstones,
  with_path, rename_path,
}

-- The row that `insert` leaves at its path.
abbrev pub inserted : Text → Text → Text → ℕ → ℕ → ℕ → Option Text → Option Row → Row
inserted path source physical size created modified device none =
    new_row path source physical size created modified device
inserted path source physical size created modified device (some r) =
    with_file (reactivated source physical size created modified device) r

module _ (p q : Text) (db : Db) where
  pub row_at-update_at :
      (f : FileMetadata → FileMetadata)
      → ((m : FileMetadata) → (f m).virtual_path ≡ m.virtual_path)
      → row_at q (update_at p (with_file f) db)
        ≡ (if p == q then map_option (with_file f) (row_at q db) else row_at q db)
  row_at-update_at f keeps =
      find_row-update_rows path_of p q (with_file f) db.files (λ r. keeps r.file)

  row_at-append_new :
      (r : Row)
      → r.virtual_path ≡ p
      → row_at p db ≡ none
      → find_row path_of q (db.files ++ r ∷ []) ≡ (if p == q then some r else row_at q db)
  row_at-append_new r at free = rw (find_row-append_new path_of q r db.files (rw at free)) (rw at)

-- The row that a method leaves at a path, and the rows of the other paths.
abbrev pub Becomes : Text → Option Row → Db → Db → Type 0
Becomes p o db db' = (q : Text) → row_at q db' ≡ (if p == q then o else row_at q db)

module _ (p source physical : Text) (size created modified : ℕ) (device : Option Text)
    (db : Db) where
  abbrev pub inserted_row : Row
  inserted_row = inserted p source physical size created modified device (row_at p db)

  -- `insert` never raises: it reactivates the row at its path, or adds a row of version 1.
  pub insert-Becomes :
      (db' : Db) × (insert p source physical size created modified device db ≡ ok db')
      × Becomes p (some inserted_row) db db'
  unfolding insert insert_row
  insert-Becomes = elim (Option-cases (row_at p db)) [
    | inl free ↦ (
      record db { files = db.files ++ new_row p source physical size created modified device ∷ [] },
      ground arith,
      λ q. ground (
        arith,
        row_at-append_new p q db (new_row p source physical size created modified device) refl free,
      ),
    )
    | inr (r, e) ↦ (
      update_at p (with_file (reactivated source physical size created modified device)) db,
      ground arith,
      λ q. ground (
        arith,
        eq_iff p q,
        row_at-update_at p q db (reactivated source physical size created modified device)
            (λ m. refl),
      ),
    )
  ]

module _ (p : Text) (db : Db) where
  pub update-Becomes :
      (size modified : ℕ) (device source physical : Option Text)
      → Becomes p
          (map_option (with_file (updated size modified device source physical)) (row_at p db))
          db
          (update p size modified device source physical db)
  unfolding update
  update-Becomes size modified device source physical q = ground (
    arith,
    eq_iff p q,
    row_at-update_at p q db (updated size modified device source physical) (λ m. refl),
  )

  pub increment_version-Becomes :
      (device : Text)
      → Becomes p
          (map_option
            (with_file (λ m. record m { version = m.version + 1; device_id = some device }))
            (row_at p db))
          db
          (increment_version p device db)
  unfolding increment_version
  increment_version-Becomes device q = ground (
    arith,
    eq_iff p q,
    row_at-update_at p q db (λ m. record m { version = m.version + 1; device_id = some device })
        (λ m. refl),
  )

  pub mark-Becomes :
      (s : SyncStatus) → Becomes p (map_option (with_status s) (row_at p db)) db (mark p s db)
  unfolding mark
  mark-Becomes s q =
      ground
        (arith, eq_iff p q, row_at-update_at p q db (λ m. record m { sync_status = s }) (λ m. refl))

  pub delete-Becomes :
      (now : ℕ)
      → Becomes p (map_option (with_file (tombstone now)) (row_at p db)) db (delete p now db)
  unfolding delete
  delete-Becomes now q =
      ground (arith, eq_iff p q, row_at-update_at p q db (tombstone now) (λ m. refl))

  -- A row is purged exactly if it is a tombstone past its retention time.
  pub row_at-purge :
      (retention now : ℕ)
      → IsUnique path_of db.files
      → row_at p (purge_expired_tombstones retention now db).1
        ≡ keep_if (λ r. not (is_expired retention now r)) (row_at p db)
  unfolding purge_expired_tombstones
  row_at-purge retention now u =
      find_row-filter path_of p (λ r. not (is_expired retention now r)) db.files u

module _ (old new : Text) (db : Db) (unique : IsUnique path_of db.files) where
  rename_path-eq-ok :
      (db' : Db)
      → rename_path old new db ≡ ok db'
      → (rekey_row path_of (with_path new) old new db.files ≡ ok db'.files)
        × (db'.directories ≡ db.directories)
  unfolding rename_path
  rename_path-eq-ok db' h = ground arith

  pub rename_path_lem :
      (db' : Db)
      → rename_path old new db ≡ ok db'
      → row_at old db ≢ none
      → IsUnique path_of db'.files
        × (db'.directories ≡ db.directories)
        × ((q : Text)
            → row_at q db' ≡ (
                if new == q
                then map_option (with_path new) (row_at old db)
                else if old == q
                then none
                else row_at q db))
  rename_path_lem db' h found =
      let (moved, same) = rename_path-eq-ok db' h in
      let (u, at) =
        rekey_row_lem path_of (with_path new) old new (λ r. refl) db.files db'.files unique moved
          found in
      (u, same, at)

  -- A rename onto a path that has a row, be it a tombstone, raises.
  pub rename_path_refused :
      row_at old db ≢ none
      → old ≢ new
      → row_at new db ≢ none
      → rename_path old new db ≡ err unique_violation
  unfolding rename_path
  rename_path_refused found ne taken =
      rw (rekey_row_refused path_of (with_path new) old new (λ r. refl) db.files found ne taken)

  pub rename_path_accepted : row_at new db ≡ none → (db' : Db) × (rename_path old new db ≡ ok db')
  unfolding rename_path
  rename_path_accepted free = (
    update_at old (with_path new) db,
    rw (rekey_row_accepted path_of (with_path new) old new (λ r. refl) db.files free),
  )
