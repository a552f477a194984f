-- ===== src/Source.antt =====
-- stardustlib/storage_source.py: DirectorySource and LoopbackSource. A source is the list of the
-- files below its data root with their contents. The operating system enters as a `Fault`, chosen
-- anew for each call, as a `Removal`, and as the free and total space of a directory's disk, whose query
-- is taken to be answered.
pub mod Folders
pub mod Space
pub mod Content
use stardustfs.Prelude.{
  ℕ, Text, Bytes, Bool, true, false, Option, none, some, List, [], ◌∷◌, ◌++◌, map, ◌+◌, ◌-◌, ◌&&◌,
  not, ◌==◌, text_eq, is_some, if◌then◌else◌, Result, ok, err, Error, os_error, file_not_found,
  permission_error, insufficient_space, filter, length, ltb,
}
use stardustfs.Table.{find_row, update_rows}
use stardustfs.Paths.{has_slash, slash}
use stardustfs.Like.Laws.{starts_with}

pub record PhysicalFile : Type 0 where
  pub name : Text
  pub content : Bytes

abbrev pub file_name : PhysicalFile → Text
file_name f = f.name

-- A remote source is the proxy of another device, which no local method writes to.
pub data Kind : Type 0 where
  directory remote : Kind
  loopback : ℕ → Kind

pub record Source : Type 0 where
  pub source_id : Text
  pub kind : Kind
  pub is_active : Bool
  pub files : List PhysicalFile
  pub used_bytes : ℕ
  pub disk_free : ℕ
  pub disk_total : ℕ

-- What the operating system does to a call. A write that fails may leave a part of the data.
pub data Fault : Type 0 where
  fine denied : Fault
  failed : Option Bytes → Fault

abbrev pub is_remote_kind : Kind → Bool
is_remote_kind remote = true
is_remote_kind _ = false

abbrev pub is_remote : Source → Bool
is_remote s = is_remote_kind s.kind

unfoldable pub deactivate : Source → Source
deactivate s = record s { is_active = false }

abbrev pub content_at : Text → List PhysicalFile → Option Bytes
content_at path files = elim (find_row file_name path files) [
  | none ↦ none
  | some f ↦ some f.content
]

abbrev pub size_at : Text → List PhysicalFile → ℕ
size_at path files = elim (find_row file_name path files) [ none ↦ 0 | some f ↦ length f.content ]

unfoldable pub put_file : Text → Bytes → List PhysicalFile → List PhysicalFile
put_file path content files =
    if is_some (find_row file_name path files)
    then update_rows file_name path (λ f. record f { content = content }) files
    else files ++ record { name = path; content = content } ∷ []

unfoldable pub remove_file : Text → List PhysicalFile → List PhysicalFile
remove_file path files = filter (λ f. not (file_name f == path)) files

abbrev pub put_partial : Text → Option Bytes → List PhysicalFile → List PhysicalFile
put_partial path none files = files
put_partial path (some part) files = put_file path part files

-- Only a DirectorySource deactivates itself where the system refuses a call.
abbrev pub deactivated_by_fault : Source → Source
deactivated_by_fault s = elim s.kind [ directory ↦ deactivate s | remote ↦ s | loopback size ↦ s ]

unfoldable pub read : Fault → Text → Source → Result Bytes × Source
unfolding deactivate
read denied path s =
    if s.is_active then (err permission_error, deactivated_by_fault s) else (err os_error, s)
read (failed part) path s =
    if s.is_active then (err os_error, deactivated_by_fault s) else (err os_error, s)
read fine path s =
    if s.is_active
    then (elim (content_at path s.files) [ none ↦ err file_not_found | some b ↦ ok b ], s)
    else (err os_error, s)

-- What `write` does once the source is active and has the space.
unfoldable pub write_through : Fault → Text → Bytes → Source → Result (Unit {0}) × Source
unfolding deactivate put_file
write_through fine path content s = (
  ok tt,
  record s {
    files = put_file path content s.files;
    used_bytes = s.used_bytes + length content - size_at path s.files;
  },
)
write_through denied path content s = (err permission_error, deactivated_by_fault s)
write_through (failed part) path content s =
    (err os_error, deactivated_by_fault (record s { files = put_partial path part s.files }))

-- `needed > 0 and needed > size_bytes - used_bytes`, for the difference `needed` of the sizes.
abbrev pub lacks_space : ℕ → ℕ → ℕ → ℕ → Bool
lacks_space size used new old = ltb old new && ltb (size + old) (used + new)

unfoldable pub write : Fault → Text → Bytes → Source → Result (Unit {0}) × Source
unfolding write_through
write fault path content s = if not s.is_active then (err os_error, s) else elim s.kind [
  | directory ↦ write_through fault path content s
  | remote ↦ (err os_error, s)
  | loopback size ↦
      if lacks_space size s.used_bytes (length content) (size_at path s.files)
      then (err insufficient_space, s)
      else write_through fault path content s
]

unfoldable pub delete_through : Fault → Text → Source → Result (Unit {0}) × Source
unfolding deactivate remove_file
delete_through fine path s = (
  ok tt,
  record s { files = remove_file path s.files; used_bytes = s.used_bytes - size_at path s.files },
)
delete_through denied path s = (err permission_error, deactivated_by_fault s)
delete_through (failed part) path s = (err os_error, deactivated_by_fault s)

-- A missing file is an error for a directory, and nothing to do for a loopback source.
unfoldable pub delete : Fault → Text → Source → Result (Unit {0}) × Source
unfolding delete_through
delete fault path s =
    if not s.is_active
    then (err os_error, s)
    else if is_some (find_row file_name path s.files)
    then delete_through fault path s
    else elim s.kind [
      | directory ↦ (err file_not_found, s)
      | remote ↦ (err os_error, s)
      | loopback size ↦ (ok tt, s)
    ]

unfoldable pub exists : Text → Source → Result Bool
exists path s = if s.is_active then ok (is_some (find_row file_name path s.files)) else err os_error

-- What the system does to `shutil.rmtree`: all is removed, or it raises once the files that the test
-- selects are gone. A directory that is missing is such an exception for a DirectorySource.
pub data Removal : Type 0 where
  emptied : Removal
  stopped : Error → (Text → Bool) → Removal

abbrev pub without_below : Text → (Text → Bool) → Source → Source
without_below path gone s = record s {
  files =
      filter (λ f. not (starts_with (path ++ slash ∷ []) (file_name f) && gone (file_name f)))
        s.files;
}

-- The count of a loopback source does not follow it.
unfoldable pub rmdir : Removal → Text → Source → Result (Unit {0}) × Source
unfolding deactivate
rmdir removal path s = if not s.is_active then (err os_error, s) else elim removal [
  | emptied ↦ (ok tt, without_below path (λ n. true) s)
  | stopped e gone ↦ (err e, deactivated_by_fault (without_below path gone s))
]

-- The files that stand directly below the data root.
unfoldable pub list_physical_files : Source → Result (List Text)
list_physical_files s =
    if s.is_active
    then ok (map file_name (filter (λ f. not (has_slash (file_name f))) s.files))
    else err os_error

unfoldable pub get_available_space : Source → Result ℕ
get_available_space s = if not s.is_active then err os_error else elim s.kind [
  | directory ↦ ok s.disk_free
  | remote ↦ ok 0
  | loopback size ↦ ok (size - s.used_bytes)
]

unfoldable pub get_total_space : Source → Result ℕ
get_total_space s =
    if not s.is_active
    then err os_error
    else elim s.kind [ directory ↦ ok s.disk_total | remote ↦ ok 0 | loopback size ↦ ok size ]
