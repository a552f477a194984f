-- ===== src/Metadata/Directories/Listing.antt =====
-- The listing of a directory against a direct description of the files in it.
use stardustfs.Prelude.{
  ℕ, Text, Bool, false, none, some, List, [], ◌∷◌, ◌++◌, ◌≡◌, ◌≢◌, refl, arith, ◌&&◌, ◌||◌, not,
  ◌==◌, nat_eq, text_eq, eq_iff, if◌then◌else◌, filter, any, length, drop, Bool-cases, inl, inr,
  ◌∙◌,
}
use stardustfs.Models.{EntryInfo}
use stardustfs.Table.{find_row}
use stardustfs.Paths.{ends_with_slash, slash, has_slash, first_part, rstrip_slash}
use stardustfs.Like.{like_prefix}
use stardustfs.Metadata.{Row, DirectoryRow, Db, path_of, directory_of}
use stardustfs.Metadata.Directories.{
  with_slash, Entries, name_of, put_entry, put_new_entry, file_entry, directory_entry, list_file,
  list_files, list_subdirectory, list_subdirectories, listed, list_entries,
}

-- The listing shows a file under the name.
unfoldable pub shows_file : Text → Entries → Bool
shows_file n entries = elim (find_row name_of n entries) [
  | none ↦ false
  | some e ↦ not e.is_directory
]

find_row-put_entry :
    (n : Text) (e : EntryInfo) (entries : Entries)
    → find_row name_of n (put_entry e entries)
      ≡ (if e.name == n then some e else find_row name_of n entries)
unfolding find_row put_entry
find_row-put_entry n e [] = refl
find_row-put_entry n e (x ∷ entries) =
    ground (
      arith,
      eq_iff x.name e.name,
      eq_iff x.name n,
      eq_iff e.name n,
      find_row-put_entry n e entries,
    )

shows_file-put_file :
    (n t : Text) (r : Row) (entries : Entries)
    → shows_file n (put_entry (file_entry t r) entries) ≡ (shows_file n entries || t == n)
unfolding shows_file
shows_file-put_file n t r entries = ground (arith, find_row-put_entry n (file_entry t r) entries)

shows_file-put_directory :
    (n t : Text) (c m : ℕ) (entries : Entries)
    → shows_file n (put_new_entry (directory_entry t c m) entries) ≡ shows_file n entries
unfolding shows_file put_new_entry
shows_file-put_directory n t c m entries =
    ground (arith, find_row-put_entry n (directory_entry t c m) entries, eq_iff t n)

-- The row's path is the directory's followed by the name.
abbrev pub is_child_of : Text → Text → Row → Bool
is_child_of dir n r = drop (length dir) (path_of r) == n

module _ (n : Text) (named : n ≢ []) (flat : has_slash n ≡ false) (dir : Text) where
  shows_file-list_file :
      (t : Text) (r : Row) (entries : Entries)
      → shows_file n (list_file t r entries) ≡ (shows_file n entries || t == n)
  unfolding list_file
  shows_file-list_file [] r entries = ground (arith, eq_iff {A = Text} [] n)
  shows_file-list_file (c ∷ t) r entries = ground (
    arith,
    eq_iff (c ∷ t) n,
    shows_file-put_file n (c ∷ t) r entries,
    shows_file-put_directory n (first_part (c ∷ t)) r.created_at r.modified_at entries,
  )

  shows_file-list_files :
      (rows : List Row) (entries : Entries)
      → shows_file n (list_files dir (filter (listed dir) rows) entries)
        ≡ (shows_file n entries || any (λ r. listed dir r && is_child_of dir n r) rows)
  unfolding list_files
  shows_file-list_files [] entries = ground arith
  shows_file-list_files (r ∷ rows) entries = elim (Bool-cases (listed dir r)) [
    | inl here ↦ rw here (
        ground (
          arith,
          shows_file-list_file (drop (length dir) (path_of r)) r entries,
          shows_file-list_files rows (list_file (drop (length dir) (path_of r)) r entries),
        ))
    | inr elsewhere ↦ rw elsewhere (shows_file-list_files rows entries)
  ]

shows_file-list_subdirectory :
    (n t : Text) (d : DirectoryRow) (entries : Entries)
    → shows_file n (list_subdirectory t d entries) ≡ shows_file n entries
unfolding list_subdirectory
shows_file-list_subdirectory n [] d entries = refl
shows_file-list_subdirectory n (c ∷ t) d entries =
    ground
      (arith, shows_file-put_directory n (rstrip_slash (c ∷ t)) d.created_at d.created_at entries)

shows_file-list_subdirectories :
    (n dir : Text) (rows : List DirectoryRow) (entries : Entries)
    → shows_file n (list_subdirectories dir rows entries) ≡ shows_file n entries
unfolding list_subdirectories
shows_file-list_subdirectories n dir [] entries = refl
shows_file-list_subdirectories n dir (d ∷ rows) entries =
    shows_file-list_subdirectories n dir rows
      (list_subdirectory (drop (length dir) (directory_of d)) d entries)
    ∙ shows_file-list_subdirectory n (drop (length dir) (directory_of d)) d entries

-- A live row whose path begins with the directory and a slash, as LIKE compares them, and goes on with
-- the name.
abbrev pub is_live_child : Text → Text → Row → Bool
is_live_child path n r =
    let dir = if ends_with_slash path then path else path ++ slash ∷ [] in
    (like_prefix dir (path_of r) && not r.deleted) && drop (length dir) (path_of r) == n

-- For a name that is not empty and holds no slash, the listing of a directory shows a file of that
-- name exactly if some live row's path begins with the directory and a slash, as LIKE compares
-- them, and goes on with the name; subdirectories never hide a file.
pub shows_file-list_entries :
    (path n : Text) (db : Db)
    → n ≢ []
    → has_slash n ≡ false
    → shows_file n (list_entries path db) ≡ any (is_live_child path n) db.files
unfolding list_entries shows_file find_row with_slash
shows_file-list_entries path n db named flat =
    shows_file-list_subdirectories n (with_slash path)
      (filter (λ d. like_prefix (with_slash path) (directory_of d)) db.directories)
      (list_files (with_slash path) (filter (listed (with_slash path)) db.files) [])
    ∙ shows_file-list_files n named flat (with_slash path) db.files []
