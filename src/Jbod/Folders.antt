-- ===== src/Jbod/Folders.antt =====
-- The operations on directories of JBODManager. `faults` gives what the system does to the `mkdir` of a
-- source, and `removals` what it does to the `rmdir`; a directory is there for a source if a file lies below it.
pub mod Loss
use stardustfs.Prelude.{
  ℕ, zero, suc, Text, Bytes, Bool, true, false, Option, none, some, List, [], ◌∷◌, ◌++◌, map, ◌||◌,
  not, ◌==◌, text_eq, if◌then◌else◌, Result, ok, err, Error, file_not_found, recursion_error, any,
}
use stardustfs.Models.{EntryInfo}
use stardustfs.Paths.{slash, lstrip_slash, rstrip_slash}
use stardustfs.Like.Laws.{starts_with}
use stardustfs.Table.{rekey_row}
use stardustfs.Metadata.{Db, DirectoryRow, directory_of}
use stardustfs.Metadata.Directories.{
  insert_directory, delete_directory_entry, rename_directory, with_directory_path, with_slash,
  list_entries,
}
use stardustfs.Source.{Source, Fault, Removal, PhysicalFile, file_name, rmdir}
use stardustfs.Source.Folders.{mkdir}
use stardustfs.Jbod.{Jbod, Env, is_usable, id_of}
use stardustfs.Jbod.Files.{Outcome, with_db, delete_file}

abbrev pub with_sources : (Source → Source) → Jbod → Jbod
with_sources f j = record j { sources = map f j.sources }

abbrev pub make_in_source : (Text → Fault) → Source → Source
make_in_source faults s = if is_usable s then (mkdir (faults (id_of s)) s).1 else s

unfoldable pub create_directory : (Text → Fault) → ℕ → Text → Jbod → Jbod
create_directory faults now path j =
    let j' = with_sources (make_in_source faults) j in
    with_db (insert_directory (rstrip_slash path) now j'.metadata_store) j'

-- `source.exists(path)`, for a file or a directory.
unfoldable pub has_path : Text → List PhysicalFile → Bool
has_path path files =
    any (λ f. file_name f == path || starts_with (path ++ slash ∷ []) (file_name f)) files

abbrev pub remove_if_there : Removal → Text → Result (Unit {0}) × Source → Source
remove_if_there removal path (err e, s) = s
remove_if_there removal path (ok u, s) =
    if has_path path s.files then (rmdir removal path s).1 else s

-- The new directory is made and the old one removed, in one source.
unfoldable pub move_in_source : (Text → Fault) → (Text → Removal) → Text → Source → Source
move_in_source faults removals src s =
    if is_usable s then remove_if_there (removals (id_of s)) src (mkdir (faults (id_of s)) s) else s

abbrev pub move_sources :
    (Text → Fault) → (Text → Removal) → Text → Db → Result (Unit {0}) → Jbod → Outcome (Unit {0})
move_sources faults removals src db (err e) j = (err e, with_db db j)
move_sources faults removals src db (ok u) j =
    (ok tt, with_sources (move_in_source faults removals (lstrip_slash src)) (with_db db j))

abbrev pub with_directories : Db → Result (List DirectoryRow) → Result (Unit {0}) × Db
with_directories db (err e) = (err e, db)
with_directories db (ok directories) = (ok tt, record db { directories = directories })

abbrev pub rename_entry : Text → Text → Db → Result (Unit {0}) × Db
rename_entry old new db =
    with_directories db (rekey_row directory_of (with_directory_path new) old new db.directories)

abbrev pub rename_both : Text → Text → Result (Unit {0}) × Db → Result (Unit {0}) × Db
rename_both src dst (err e, db) = (err e, db)
rename_both src dst (ok u, db) = rename_entry (rstrip_slash src) (rstrip_slash dst) db

unfoldable pub move_directory :
    (Text → Fault) → (Text → Removal) → Text → Text → Jbod → Outcome (Unit {0})
move_directory faults removals src dst j =
    let (r, db) =
      rename_both src dst (rename_directory (with_slash src) (with_slash dst) j.metadata_store) in
    move_sources faults removals src db r j

-- A file that is gone already is no error.
abbrev pub unless_missing : Outcome (Unit {0}) → Outcome (Unit {0})
unless_missing (ok u, j) = (ok tt, j)
unless_missing (err file_not_found, j) = (ok tt, j)
unless_missing (err e, j) = (err e, j)

abbrev pub remove_in_source : (Text → Removal) → Text → Source → Source
remove_in_source removals path s = if is_usable s then (rmdir (removals (id_of s)) path s).1 else s

module _ (encrypt : Bytes → Bytes) (decrypt : Bytes → Result Bytes) (env : Env)
    (removals : Text → Text → Removal) where
  -- The loop over the entries, with `again` for the recursive call.
  unfoldable pub delete_entries :
      (Text → Jbod → Outcome (Unit {0})) → Text → List EntryInfo → Jbod → Outcome (Unit {0})
  delete_entries again path [] j = (ok tt, j)
  delete_entries again path (e ∷ entries) j =
      let child = rstrip_slash path ++ slash ∷ e.name in
      let (r, j') =
        if e.is_directory
        then again child j
        else unless_missing (delete_file encrypt decrypt env child j) in
      elim r [ err raised ↦ (err raised, j') | ok u ↦ delete_entries again path entries j' ]

  -- `removals` is given with the directory; `limit` is how deep Python lets the recursion go.
  unfoldable pub delete_directory : ℕ → Text → Jbod → Outcome (Unit {0})
  unfolding delete_entries
  delete_directory zero path j = (err recursion_error, j)
  delete_directory (suc limit) path j =
      let (r, j') =
        delete_entries (delete_directory limit) path (list_entries path j.metadata_store) j in
      elim r [
        | err raised ↦ (err raised, j')
        | ok u ↦
            let j'' = with_sources (remove_in_source (removals path) (lstrip_slash path)) j' in
            (ok tt, with_db (delete_directory_entry (rstrip_slash path) j''.metadata_store) j'')
      ]
