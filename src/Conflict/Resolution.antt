-- ===== src/Conflict/Resolution.antt =====
-- What the resolution of a conflict does to the metadata.
use stardustfs.Prelude.{
  Text, none, some, ◌≡◌, ◌≢◌, arith, ◌==◌, text_eq, eq_refl, if◌then◌else◌, ok, err,
  unique_violation, Option-cases, ◌⊎◌, false, inl, inr,
}
use stardustfs.Models.{pending, conflict}
use stardustfs.Metadata.{Row, Db, row_at, lookup, mark, with_status, with_path}
use stardustfs.Metadata.Map.{
  mark-Becomes, rename_path_lem, rename_path_refused, rename_path_accepted,
}
use stardustfs.Metadata.Lifecycle.{lookup-eq-shown}
use stardustfs.Metadata.Invariant.{IsValid}
use stardustfs.Conflict.{resolve_to, resolve_conflict}
use stardustfs.Conflict.Naming.{generate_conflict_name_total}

-- The local row of `path` has become the conflict copy at `copy`, and `path` has no row.
abbrev pub Copied : Text → Text → Row → Db → Db → Type 0
Copied path copy r db db' =
    (q : Text)
    → row_at q db' ≡ (
        if copy == q
        then some (with_status conflict (with_path copy r))
        else if path == q
        then none
        else row_at q db)

module _ (path copy : Text) (db : Db) (v : IsValid db) (r : Row)
    (found : row_at path db ≡ some r) where
  resolve_to_free :
      row_at copy db ≡ none
      → (db' : Db) × (resolve_to path (some copy) db ≡ (ok copy, db')) × Copied path copy r db db'
  unfolding resolve_to
  resolve_to_free free =
      let (d, e) = rename_path_accepted path copy db v.unique free in
      let (u, same, at) = rename_path_lem path copy db v.unique d e (ground arith) in
      (
        mark copy conflict d,
        rw (e, resolve_to),
        λ q. ground (arith, found, mark-Becomes copy d conflict q, at q, at copy, eq_refl copy),
      )

  resolve_to_taken :
      path ≢ copy
      → row_at copy db ≢ none
      → resolve_to path (some copy) db ≡ (err unique_violation, mark path pending db)
  unfolding resolve_to
  resolve_to_taken ne taken =
      rw (rename_path_refused path copy db v.unique (ground arith) ne taken, resolve_to)

-- In a well-formed database, resolving the conflict at a live file picks a name `copy` that no live file has. If no row has
-- that name, it succeeds: the local row becomes the copy, with the status conflict, the path is
-- free for the server's row, and no other row changes. If a tombstone has that name, it raises, and
-- the local row stays at its path, marked pending.
pub resolve_conflict_lem :
    (device timestamp path : Text) (db : Db) (r : Row)
    → IsValid db
    → row_at path db ≡ some r
    → r.deleted ≡ false
    → (copy : Text) × (lookup copy db ≡ none)
      × (((db' : Db) × (resolve_conflict device timestamp path db ≡ (ok copy, db'))
            × Copied path copy r db db')
          ⊎ ((row_at copy db ≢ none)
              × (resolve_conflict device timestamp path db
                  ≡ (err unique_violation, mark path pending db))))
unfolding resolve_conflict
resolve_conflict_lem device timestamp path db r v found live =
    let (copy, name, hidden) = generate_conflict_name_total device timestamp path db in
    (
      copy,
      hidden,
      elim (Option-cases (row_at copy db)) [
        | inl free ↦
            let (d, e, c) = resolve_to_free path copy db v r found free in inl (d, rw name e, c)
        | inr (t, taken) ↦ inr (
          ground arith,
          rw name (
              resolve_to_taken path copy db v r found
                (λ same. ground (arith, lookup-eq-shown path db, lookup-eq-shown copy db))
                (ground arith)),
        )
      ],
    )
