-- ===== src/Sync/Client/Isolation.antt =====
-- The isolation of the changes that a device was not able to upload before it was long offline.
use stardustfs.Prelude.{
  ℕ, Text, false, none, some, ◌≡◌, ◌≢◌, ◌⊎◌, ◌+◌, refl, arith, ◌==◌, text_eq, eq_refl,
  if◌then◌else◌, Option-cases, inl, inr,
}
use stardustfs.Models.{pending}
use stardustfs.Metadata.{Db, Row, row_at, lookup, with_path, with_status, mark}
use stardustfs.Metadata.Invariant.{IsValid}
use stardustfs.Metadata.Map.{
  mark-Becomes, rename_path_lem, rename_path_refused, rename_path_accepted,
}
use stardustfs.Metadata.Lifecycle.{lookup-eq-shown}
use stardustfs.Conflict.Naming.{generate_conflict_name_total}
use stardustfs.Sync.Client.{Setup, isolate}

-- The row `r` of `path` waits for its upload at `copy`.
abbrev pub Isolated : Text → Text → Row → Db → Db → Type 0
Isolated path copy r db db' =
    (q : Text)
    → row_at q db' ≡ (
        if copy == q
        then some (with_status pending (with_path copy r))
        else if path == q
        then none
        else row_at q db)

-- In a well-formed database the isolation of a live file loses nothing: its row waits for its upload
-- under a name that no live file has, no other row changes, and the count grows by one; or a
-- tombstone has that name, and neither the database nor the count changes.
pub isolate_lem :
    (setup : Setup) (n : ℕ) (db : Db) (r : Row)
    → IsValid db
    → row_at r.virtual_path db ≡ some r
    → r.deleted ≡ false
    → (copy : Text) × (lookup copy db ≡ none)
      × (((db' : Db) × (isolate setup r.file (n, db) ≡ (n + 1, db'))
            × Isolated r.virtual_path copy r db db')
          ⊎ ((row_at copy db ≢ none) × (isolate setup r.file (n, db) ≡ (n, db))))
unfolding isolate
isolate_lem setup n db r v found live =
    let path = r.virtual_path in
    let (copy, name, hidden) =
      generate_conflict_name_total setup.device_name setup.timestamp path db in
    (
      copy,
      hidden,
      elim (Option-cases (row_at copy db)) [
        | inl free ↦
            let (d, e) = rename_path_accepted path copy db v.unique free in
            let (u, directories, at) = rename_path_lem path copy db v.unique d e (ground arith) in
            inl (
              mark copy pending d,
              rw (live, isolate) (rw (name, isolate) (rw (e, isolate) refl)),
              λ q.
                  ground (arith, found, mark-Becomes copy d pending q, at q, at copy, eq_refl copy),
            )
        | inr (t, taken) ↦
            let differs : path ≢ copy =
              λ same. ground (arith, lookup-eq-shown path db, lookup-eq-shown copy db) in
            inr (
              ground arith,
              rw (live, isolate)
                  (rw (name, isolate)
                    (rw
                      (
                        rename_path_refused path copy db v.unique (ground arith) differs
                            (ground arith),
                        isolate,
                      )
                      refl)),
            )
      ],
    )
