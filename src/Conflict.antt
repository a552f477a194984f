-- ===== src/Conflict.antt =====
-- stardustlib/conflict_resolver.py: the class ConflictResolver. The device's name and the printed
-- time of the conflict are texts that the environment gives.
pub mod Naming
pub mod Resolution
use stardustfs.Prelude.{
  ℕ, zero, suc, Text, Bool, true, false, Option, none, some, List, [], ◌∷◌, ◌++◌, ◌+◌, ◌&&◌, ◌==◌,
  text_eq, is_some, if◌then◌else◌, Result, ok, err, codes, take, drop, length, ltb_ℤ, ltb, ℤ, Error,
  sync_error,
}
use stardustfs.Models.{pending, conflict}
use stardustfs.Paths.{last_index, dirname, basename, join}
use stardustfs.Decimal.{decimal}
use stardustfs.Metadata.{Db, lookup, rename_path, mark}

-- Both sides have moved on from the version of the last synchronisation.
unfoldable pub detect_conflict : ℤ → ℤ → ℤ → Bool
detect_conflict server_version local_version local_base_version =
    ltb_ℤ local_base_version server_version && ltb_ℤ local_base_version local_version

-- The file's name and its extension with the dot; a dot in front begins no extension.
unfoldable pub split_extension : Text → Text × Text
unfolding last_index
split_extension base = elim (last_index 46 base) [
  | none ↦ (base, [])
  | some i ↦ if ltb 0 i then (take i base, drop i base) else (base, [])
]

-- `posixpath.join(dir_part, name) if dir_part else name`
unfoldable pub join_if : Text → Text → Text
unfolding join
join_if [] name = name
join_if (c ∷ dir) name = join (c ∷ dir) name

-- The stem, `(seq)` behind a blank, and the extension.
unfoldable pub numbered : Text → Text → ℕ → Text
unfolding decimal
numbered stem extension seq = stem ++ (codes " (" ++ (decimal seq ++ (codes ")" ++ extension)))

-- The rename and the mark; where the rename raises, the path is marked pending and the exception
-- goes on. The fuel of the name's search never runs out.
unfoldable pub resolve_to : Text → Option Text → Db → Result Text × Db
resolve_to path none db = (err sync_error, mark path pending db)
resolve_to path (some copy) db = elim (rename_path path copy db) [
  | err e ↦ (err e, mark path pending db)
  | ok db' ↦ (ok copy, mark copy conflict db')
]

module _ (device_name timestamp virtual_path : Text) where
  unfoldable pub conflict_stem : Text
  unfolding split_extension basename
  conflict_stem =
      (split_extension (basename virtual_path)).0
      ++ (codes " (conflict - " ++ (device_name ++ (codes " - " ++ (timestamp ++ codes ")"))))

  unfoldable pub extension : Text
  unfolding split_extension basename
  extension = (split_extension (basename virtual_path)).1

  unfoldable pub conflict_path : Text
  unfolding join_if dirname conflict_stem extension
  conflict_path = join_if (dirname virtual_path) (conflict_stem ++ extension)

  unfoldable pub conflict_path_seq : ℕ → Text
  unfolding join_if dirname conflict_stem extension numbered
  conflict_path_seq seq = join_if (dirname virtual_path) (numbered conflict_stem extension seq)

  -- The loop over `seq`, on fuel.
  unfoldable pub next_free : ℕ → ℕ → Db → Option Text
  unfolding conflict_path_seq
  next_free zero seq db = none
  next_free (suc fuel) seq db =
      let later = next_free fuel (seq + 1) db in
      if is_some (lookup (conflict_path_seq seq) db) then later else some (conflict_path_seq seq)

  unfoldable pub generate_conflict_name : Db → Option Text
  unfolding conflict_path next_free
  generate_conflict_name db =
      if is_some (lookup conflict_path db)
      then next_free (suc (length db.files)) 2 db
      else some conflict_path

  unfoldable pub resolve_conflict : Db → Result Text × Db
  unfolding resolve_to
  resolve_conflict db = resolve_to virtual_path (generate_conflict_name db) db
