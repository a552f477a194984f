-- ===== src/Metadata/Directories.antt =====
-- The directories of stardustlib/metadata_store.py: the table `directories`, the listing of a
-- directory and the move of a whole subtree.

pub mod Listing
pub mod Moving
use stardustfs.Prelude.{
  ℕ, Text, Bool, true, false, Option, none, some, List, [], ◌∷◌, ◌++◌, map, ◌+◌, ◌&&◌, ◌||◌, not,
  ◌==◌, nat_eq, text_eq, is_some, if◌then◌else◌, Result, ok, err, unique_violation, filter, any,
  length, drop,
}
use stardustfs.Models.{EntryInfo}
use stardustfs.Table.{find_row, insert_row}
use stardustfs.Paths.{slash, has_slash, first_part, rstrip_slash, ends_with_slash}
use stardustfs.Like.{like_prefix}
use stardustfs.Metadata.{Row, DirectoryRow, Db, path_of, directory_of, with_path}

-- INSERT OR IGNORE
unfoldable pub insert_directory : Text → ℕ → Db → Db
insert_directory path created db =
    if is_some (find_row directory_of path db.directories) then db else record db {
      directories = db.directories ++ record { virtual_path = path; created_at = created } ∷ [];
    }

unfoldable pub lookup_directory : Text → Db → Bool
lookup_directory path db = is_some (find_row directory_of path db.directories)

unfoldable pub delete_directory_entry : Text → Db → Db
delete_directory_entry path db = record db {
  directories = filter (λ d. not (directory_of d == path)) db.directories;
}

-- `if not p.endswith("/"): p += "/"`
unfoldable pub with_slash : Text → Text
unfolding ends_with_slash
with_slash p = if ends_with_slash p then p else p ++ slash ∷ []

-- The dict `results`, by name, in the order of insertion.
abbrev pub Entries : Type 0
Entries = List EntryInfo

abbrev pub name_of : EntryInfo → Text
name_of e = e.name

-- `results[e.name] = e`
unfoldable pub put_entry : EntryInfo → Entries → Entries
put_entry e [] = e ∷ []
put_entry e (x ∷ entries) = if x.name == e.name then e ∷ entries else x ∷ put_entry e entries

-- `if e.name not in results: results[e.name] = e`
unfoldable pub put_new_entry : EntryInfo → Entries → Entries
unfolding put_entry
put_new_entry e entries =
    if is_some (find_row name_of e.name entries) then entries else put_entry e entries

abbrev pub file_entry : Text → Row → EntryInfo
file_entry name r = record {
  name = name;
  is_directory = false;
  file_size = r.file_size;
  created_at = r.created_at;
  modified_at = r.modified_at;
}

abbrev pub directory_entry : Text → ℕ → ℕ → EntryInfo
directory_entry name created modified = record {
  name = name;
  is_directory = true;
  file_size = 0;
  created_at = created;
  modified_at = modified;
}

-- One round of the loop over the files under `dir`, whose rest of the path is `relative`.
unfoldable pub list_file : Text → Row → Entries → Entries
list_file [] r results = results
list_file (c ∷ t) r results =
    let relative : Text = c ∷ t in
    if has_slash relative
    then put_new_entry (directory_entry (first_part relative) r.created_at r.modified_at) results
    else put_entry (file_entry relative r) results

unfoldable pub list_files : Text → List Row → Entries → Entries
unfolding list_file
list_files dir [] results = results
list_files dir (r ∷ rows) results =
    list_files dir rows (list_file (drop (length dir) (path_of r)) r results)

unfoldable pub list_subdirectory : Text → DirectoryRow → Entries → Entries
list_subdirectory [] d results = results
list_subdirectory (c ∷ t) d results =
    let relative : Text = rstrip_slash (c ∷ t) in
    if has_slash relative
    then results
    else put_new_entry (directory_entry relative d.created_at d.created_at) results

unfoldable pub list_subdirectories : Text → List DirectoryRow → Entries → Entries
unfolding list_subdirectory
list_subdirectories dir [] results = results
list_subdirectories dir (d ∷ rows) results =
    list_subdirectories dir rows (list_subdirectory (drop (length dir) (directory_of d)) d results)

abbrev pub listed : Text → Row → Bool
listed dir r = like_prefix dir (path_of r) && not r.deleted

unfoldable pub list_entries : Text → Db → Entries
list_entries path db =
    let dir = with_slash path in
    let from_files = list_files dir (filter (listed dir) db.files) [] in
    list_subdirectories dir (filter (λ d. like_prefix dir (directory_of d)) db.directories)
      from_files

-- UPDATE ... SET key = new || SUBSTR(key, length(old) + 1) WHERE key LIKE old || '%'. The rows are
-- changed one after the other; a new key that another row has by then stops the statement.
module _ {R : Type 0} (key : R → Text) (set_key : Text → R → R) (old new : Text) where
  abbrev pub moved_key : R → Text
  moved_key r = new ++ drop (length old) (key r)

  unfoldable pub move_prefix : List R → List R → Result (List R)
  move_prefix before [] = ok before
  move_prefix before (r ∷ rows) =
      let moved = move_prefix (before ++ set_key (moved_key r) r ∷ []) rows in
      let kept = move_prefix (before ++ r ∷ []) rows in
      if like_prefix old (key r)
      then if is_some (find_row key (moved_key r) (before ++ rows))
        then err unique_violation
        else moved
      else kept

abbrev pub with_directory_path : Text → DirectoryRow → DirectoryRow
with_directory_path path d = record d { virtual_path = path }

-- The first statement stays in force where the second raises.
unfoldable pub rename_directory : Text → Text → Db → Result (Unit {0}) × Db
rename_directory old new db = elim (move_prefix path_of with_path old new [] db.files) [
  | err e ↦ (err e, db)
  | ok files ↦ elim (move_prefix directory_of with_directory_path old new [] db.directories) [
    | err e ↦ (err e, record db { files = files })
    | ok directories ↦ (ok tt, record { files = files; directories = directories })
  ]
]
