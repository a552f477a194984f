-- ===== src/Jbod/Renames.antt =====
-- The move of a file, which only renames its row.
use stardustfs.Prelude.{
  Text, Bytes, false, none, some, ◌≡◌, ◌≢◌, ◌⊎◌, refl, arith, ◌==◌, text_eq, if◌then◌else◌, Result,
  ok, err, unique_violation, Option-cases, inl, inr,
}
use stardustfs.Metadata.{Db, Row, row_at, lookup, with_path}
use stardustfs.Metadata.Invariant.{IsValid}
use stardustfs.Metadata.Map.{rename_path_lem, rename_path_refused, rename_path_accepted}
use stardustfs.Metadata.Lifecycle.{lookup-eq-shown}
use stardustfs.Jbod.{Jbod, Env}
use stardustfs.Jbod.Files.{move_file, with_db}

-- The row `r` of `src` has its new path `dst`, and is otherwise as it was.
abbrev pub Moved : Text → Text → Row → Db → Db → Type 0
Moved src dst r db db' =
    (q : Text)
    → row_at q db'
      ≡ (if dst == q then some (with_path dst r) else if src == q then none else row_at q db)

-- In a well-formed database, a move of a live file to another path succeeds if no row has that path,
-- and then changes nothing of the file's row but the path, so neither its version nor its status,
-- nor any other row. If a row has the path, be it a tombstone, it raises and changes nothing.
pub move_file_lem :
    (encrypt : Bytes → Bytes) (decrypt : Bytes → Result Bytes) (env : Env) (src dst : Text)
    (j : Jbod) (r : Row)
    → IsValid j.metadata_store
    → row_at src j.metadata_store ≡ some r
    → r.deleted ≡ false
    → src ≢ dst
    → ((db' : Db) × (move_file encrypt decrypt env src dst j ≡ (ok tt, with_db db' j))
        × Moved src dst r j.metadata_store db')
      ⊎ ((row_at dst j.metadata_store ≢ none)
          × (move_file encrypt decrypt env src dst j ≡ (err unique_violation, j)))
unfolding move_file
move_file_lem encrypt decrypt env src dst j r v found live ne =
    let known : lookup src j.metadata_store ≡ some r.file =
      ground (arith, lookup-eq-shown src j.metadata_store) in
    elim (Option-cases (row_at dst j.metadata_store)) [
      | inl free ↦
          let (db', e) = rename_path_accepted src dst j.metadata_store v.unique free in
          let (u, directories, at) =
            rename_path_lem src dst j.metadata_store v.unique db' e (ground arith) in
          inl
            (db', rw (known, move_file) (rw (e, move_file) refl), λ q. ground (arith, found, at q))
      | inr (t, taken) ↦ inr (
        ground arith,
        rw (known, move_file)
            (rw
              (
                rename_path_refused src dst j.metadata_store v.unique (ground arith) ne
                    (ground arith),
                move_file,
              )
              refl),
      )
    ]
