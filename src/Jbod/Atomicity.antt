-- ===== src/Jbod/Atomicity.antt =====
-- A write or a deletion that raises leaves the metadata as they were.
use stardustfs.Prelude.{
  ℕ, Text, Bytes, none, ◌≡◌, arith, if◌then◌else◌, Result, ok, err, Error, ◌==◌, text_eq, eq_iff,
  Option-cases, inl, inr, length,
}
use stardustfs.Models.{FileMetadata}
use stardustfs.Metadata.{Db, row_at, lookup, delete}
use stardustfs.Metadata.Lifecycle.{lookup-eq-shown}
use stardustfs.Metadata.Map.{delete-Becomes}
use stardustfs.Jbod.{Jbod, Env}
use stardustfs.Jbod.Files.{
  Outcome, overwrite, place, create, takeover_write, write_file, delete_physical, delete_file,
  record_new, record_taken, as_storage_error,
}

-- Either the call returned, or the database is the one before it.
abbrev pub IsAtomic : Jbod → Outcome (Unit {0}) → Type 0
IsAtomic j o = (e : Error) → o.0 ≡ err e → o.1.metadata_store ≡ j.metadata_store

module _ (encrypt : Bytes → Bytes) (decrypt : Bytes → Result Bytes) (env : Env) (path : Text)
    (j : Jbod) where
  overwrite-IsAtomic :
      (size : ℕ) (content : Bytes) (m : FileMetadata)
      → IsAtomic j (overwrite encrypt decrypt env path size content m j)
  unfolding overwrite
  overwrite-IsAtomic size content m e h = ground arith

  place-IsAtomic :
      (content : Bytes) (raised : Error → Error) (record_in : Text → Text → Db → Result Db)
      → IsAtomic j (place encrypt decrypt env path content raised record_in j)
  unfolding place
  place-IsAtomic content raised record_in e h = ground arith

  create-IsAtomic :
      (size : ℕ) (content : Bytes) → IsAtomic j (create encrypt decrypt env path size content j)
  unfolding create
  create-IsAtomic size content =
      place-IsAtomic content (λ e. e) (record_new env path size j.device_id)

  takeover_write-IsAtomic :
      (size : ℕ) (content : Bytes)
      → IsAtomic j (takeover_write encrypt decrypt env path size content j)
  unfolding takeover_write
  takeover_write-IsAtomic size content e h =
      ground
        (arith, place-IsAtomic content as_storage_error (record_taken env path size j.device_id) e)

  write_file-IsAtomic :
      (content : Bytes) → IsAtomic j (write_file encrypt decrypt env path content j)
  unfolding write_file
  write_file-IsAtomic content e h = elim (Option-cases (lookup path j.metadata_store)) [
    | inl absent ↦ ground (arith, create-IsAtomic (length content) (encrypt content) e)
    | inr (m, found) ↦ ground (
      arith,
      overwrite-IsAtomic (length content) (encrypt content) m e,
      takeover_write-IsAtomic (length content) (encrypt content) e,
    )
  ]

  delete_physical_db :
      (source physical : Text)
      → (delete_physical encrypt decrypt env source physical j).1.metadata_store ≡ j.metadata_store
  unfolding delete_physical
  delete_physical_db source physical = ground arith

  delete_file-IsAtomic : IsAtomic j (delete_file encrypt decrypt env path j)
  unfolding delete_file
  delete_file-IsAtomic e h = elim (Option-cases (lookup path j.metadata_store)) [
    | inl absent ↦ ground arith
    | inr (m, found) ↦ ground (arith, delete_physical_db m.source_id m.physical_path)
  ]

-- A write that raises changes no metadata, on every branch: a new file, an overwritten file, a file
-- taken over, a source that is missing or inactive, too little space, a fault of the system.
pub write_file_atomic :
    (encrypt : Bytes → Bytes) (decrypt : Bytes → Result Bytes) (env : Env) (path : Text)
    (content : Bytes) (j : Jbod) (e : Error)
    → (write_file encrypt decrypt env path content j).0 ≡ err e
    → (write_file encrypt decrypt env path content j).1.metadata_store ≡ j.metadata_store
write_file_atomic encrypt decrypt env path content j =
    write_file-IsAtomic encrypt decrypt env path j content

lookup-deleted :
    (p q : Text) (now : ℕ) (db : Db)
    → lookup q (delete p now db) ≡ (if p == q then none else lookup q db)
lookup-deleted p q now db = elim (Option-cases (row_at p db)) [
  | inl absent ↦ ground (
    arith,
    eq_iff p q,
    lookup-eq-shown q (delete p now db),
    lookup-eq-shown q db,
    delete-Becomes p db now q,
  )
  | inr (r, found) ↦ ground (
    arith,
    eq_iff p q,
    lookup-eq-shown q (delete p now db),
    lookup-eq-shown q db,
    delete-Becomes p db now q,
  )
]

-- A deletion of a file that returns hides its path and no other. One that raises leaves what every
-- path shows.
pub delete_file_hides :
    (encrypt : Bytes → Bytes) (decrypt : Bytes → Result Bytes) (env : Env) (path q : Text)
    (j : Jbod)
    → let o = delete_file encrypt decrypt env path j in
      lookup q o.1.metadata_store ≡ (
        if path == q
        then (elim o.0 [ err e ↦ lookup q j.metadata_store | ok u ↦ none ])
        else lookup q j.metadata_store)
unfolding delete_file
delete_file_hides encrypt decrypt env path q j =
    elim (Option-cases (lookup path j.metadata_store)) [
      | inl absent ↦ rw (absent, delete_file) (ground arith)
      | inr (m, found) ↦ ground (
        arith,
        lookup-deleted path q env.now
            (delete_physical encrypt decrypt env m.source_id m.physical_path j).1.metadata_store,
        lookup-deleted path q env.now j.metadata_store,
        delete_physical_db encrypt decrypt env path j m.source_id m.physical_path,
      )
    ]
