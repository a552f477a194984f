-- ===== src/Config.antt =====
-- stardustlib/config_loader.py: the validation of a configuration, its migration to version 2 and the
-- loading of the key. An error message is a `Complaint` with the place it names. The file system is
-- the argument `disk`; os.path.isabs is that of POSIX.
pub mod Backup
pub mod Bounds
pub mod Migration
use stardustfs.Prelude.{
  ℕ, zero, suc, Text, Bytes, Bool, true, false, Option, none, some, List, [], ◌∷◌, ◌++◌, ◌+◌, ◌&&◌,
  ◌||◌, not, ◌==◌, nat_eq, text_eq, if◌then◌else◌, Result, ok, err, ◌>>=◌, Error, type_error,
  attribute_error, key_not_found, invalid_key, migration_error, ltb, leb, length, codes, ℤ, pos,
  negsuc, drop, is_some, any,
}
use stardustfs.Paths.{slash}
use stardustfs.Like.Laws.{starts_with}
use stardustfs.Decimal.{decimal}
use stardustfs.Json.{
  Json, Items, Fields, null, real, array, integer, text, boolean, object, nil, cons, end, field,
  find_field, get_or, get, set_field, pop_field, as_int, as_text, as_object, as_items, is_boolean,
  is_null,
}

pub data Complaint : Type 0 where
  version_type version_unsupported no_sources key_file_missing : Complaint
  url_type url_scheme url_host device_name_type device_name_length : Complaint
  interval_type interval_range strategy_value port_type port_range enabled_type : Complaint
  section_missing : Text → Complaint
  source_type path_relative path_no_directory size_type size_range device_id_type device_id_format :
      ℕ → Complaint

-- What the validation asks the file system.
pub record Disk : Type 0 where
  pub exists : Text → Bool
  pub is_dir : Text → Bool

abbrev pub min_loopback_size : ℕ
min_loopback_size = 10485760

abbrev pub max_loopback_size : ℕ
max_loopback_size = 2199023255552

abbrev pub min_p2p_port : ℕ
min_p2p_port = 1024

abbrev pub max_p2p_port : ℕ
max_p2p_port = 65535

abbrev pub min_sync_interval : ℕ
min_sync_interval = 10

abbrev pub max_sync_interval : ℕ
max_sync_interval = 3600

abbrev pub min_device_name_len : ℕ
min_device_name_len = 1

abbrev pub max_device_name_len : ℕ
max_device_name_len = 64

abbrev pub required_key_length : ℕ
required_key_length = 32

-- `lo <= z <= hi`
abbrev pub in_range : ℕ → ℕ → ℤ → Bool
in_range lo hi (pos n) = leb lo n && leb n hi
in_range lo hi (negsuc n) = false

abbrev pub is_hex_any_case : ℕ → Bool
is_hex_any_case c = leb 48 c && leb c 57 || (leb 97 c && leb c 102 || leb 65 c && leb c 70)

-- `n` hexadecimal digits in front of what `rest` accepts.
unfoldable pub hex_run : ℕ → (Text → Bool) → Text → Bool
hex_run zero rest t = rest t
hex_run (suc n) rest [] = false
hex_run (suc n) rest (c ∷ t) = is_hex_any_case c && hex_run n rest t

abbrev pub hyphen : (Text → Bool) → Text → Bool
hyphen rest [] = false
hyphen rest (c ∷ t) = c == 45 && rest t

-- `$`, which also stands before a newline at the end.
abbrev pub at_end : Text → Bool
at_end [] = true
at_end (c ∷ []) = c == 10
at_end (c ∷ d ∷ t) = false

-- `_UUID_RE.match`
unfoldable pub is_uuid : Text → Bool
unfolding hex_run
is_uuid =
    hex_run 8
      (hyphen (hex_run 4 (hyphen (hex_run 4 (hyphen (hex_run 4 (hyphen (hex_run 12 at_end))))))))

abbrev pub is_absolute : Text → Bool
is_absolute [] = false
is_absolute (c ∷ t) = c == slash

abbrev pub https : Text
https = codes "https://"

abbrev pub complain : Bool → Complaint → List Complaint
complain true c = c ∷ []
complain false c = []

-- `os.path.isabs(path)` raises where the path is no text.
abbrev pub path_of_source : Fields → Result Text
path_of_source source = elim (as_text (get_or (text []) (find_field (codes "path") source))) [
  | none ↦ err type_error
  | some path ↦ ok path
]

abbrev pub check_directory : Disk → ℕ → Text → List Complaint
check_directory disk i path =
    if not (is_absolute path)
    then path_relative i ∷ []
    else complain (not (disk.is_dir path)) (path_no_directory i)

abbrev pub check_int : Complaint → Complaint → ℕ → ℕ → Json → List Complaint
check_int no_int out lo hi v = elim (as_int v) [
  | none ↦ no_int ∷ []
  | some z ↦ complain (not (in_range lo hi z)) out
]

unfoldable pub validate_source : Disk → ℕ → Fields → Result (List Complaint)
validate_source disk i source = elim (as_text (get (codes "type") source)) [
  | none ↦ ok (source_type i ∷ [])
  | some kind ↦
      if kind == codes "directory"
      then (path_of_source source >>= λ path. ok (check_directory disk i path))
      else if kind == codes "loopback"
      then (path_of_source source >>= λ path. ok (
          complain (not (is_absolute path)) (path_relative i)
          ++ check_int (size_type i) (size_range i) min_loopback_size max_loopback_size
              (get (codes "size") source)))
      else ok (source_type i ∷ [])
]

unfoldable pub validate_remote_source : ℕ → Fields → List Complaint
validate_remote_source i source = elim (as_text (get (codes "device_id") source)) [
  | none ↦ device_id_type i ∷ []
  | some t ↦ complain (not (is_uuid t)) (device_id_format i)
]

unfoldable pub validate_source_v2 : Disk → ℕ → Fields → Result (List Complaint)
validate_source_v2 disk i source = elim (as_text (get (codes "type") source)) [
  | none ↦ ok (source_type i ∷ [])
  | some kind ↦
      if kind == codes "remote"
      then ok (validate_remote_source i source)
      else if kind == codes "directory" || kind == codes "loopback"
      then validate_source disk i source
      else ok (source_type i ∷ [])
]

-- The loop over the sources; an item that is no object has no method `get`.
unfoldable pub validate_sources :
    (ℕ → Fields → Result (List Complaint)) → ℕ → Items → Result (List Complaint)
validate_sources check i nil = ok []
validate_sources check i (cons v vs) = elim (as_object v) [
  | none ↦ err attribute_error
  | some source ↦
      check i source >>= λ first. validate_sources check (suc i) vs >>= λ rest. ok (first ++ rest)
]

-- `not isinstance(sources, list) or len(sources) == 0`
unfoldable pub check_sources :
    (ℕ → Fields → Result (List Complaint)) → Json → Result (List Complaint)
check_sources check v = elim (as_items v) [
  | none ↦ ok (no_sources ∷ [])
  | some xs ↦ elim xs [
    | nil ↦ ok (no_sources ∷ [])
    | cons x rest ↦ validate_sources check 0 (cons x rest)
  ]
]

unfoldable pub check_key_file : Disk → Json → List Complaint
check_key_file disk v = elim (as_text v) [
  | none ↦ []
  | some path ↦ complain (not (disk.exists path)) key_file_missing
]

unfoldable pub validate_url : Json → List Complaint
validate_url v = if is_null v then [] else (elim (as_text v) [
  | none ↦ url_type ∷ []
  | some url ↦
      if not (starts_with https url)
      then url_scheme ∷ []
      else complain (leb (length url) (length https)) url_host
])

unfoldable pub validate_device_name : Json → List Complaint
validate_device_name v = elim (as_text v) [
  | none ↦ device_name_type ∷ []
  | some name ↦
      complain
        (not (leb min_device_name_len (length name) && leb (length name) max_device_name_len))
        device_name_length
]

unfoldable pub validate_server : Fields → List Complaint
unfolding validate_url validate_device_name
validate_server server =
    validate_url (get (codes "url") server)
    ++ validate_device_name (get (codes "device_name") server)

abbrev pub is_copy : Json → Bool
is_copy v = elim (as_text v) [ none ↦ false | some t ↦ t == codes "copy" ]

unfoldable pub validate_sync : Fields → List Complaint
validate_sync sync =
    check_int interval_type interval_range min_sync_interval max_sync_interval
      (get (codes "interval_seconds") sync)
    ++ complain (not (is_copy (get (codes "conflict_strategy") sync))) strategy_value

unfoldable pub validate_p2p : Fields → List Complaint
validate_p2p p2p =
    check_int port_type port_range min_p2p_port max_p2p_port (get (codes "port") p2p)
    ++ complain (not (is_boolean (get (codes "enabled") p2p))) enabled_type

-- The complaint of a section that is missing, or those of its content.
abbrev pub check_section : Text → (Fields → List Complaint) → Json → List Complaint × List Complaint
check_section name check v = elim (as_object v) [
  | none ↦ (section_missing name ∷ [], [])
  | some fs ↦ ([], check fs)
]

-- `not server_url`, where `real` is never the value 0.0.
abbrev pub is_falsy : Json → Bool
is_falsy null = true
is_falsy real = false
is_falsy (boolean b) = not b
is_falsy (integer (pos zero)) = true
is_falsy (integer (pos (suc n))) = false
is_falsy (integer (negsuc n)) = false
is_falsy (text []) = true
is_falsy (text (c ∷ t)) = false
is_falsy (array nil) = true
is_falsy (array (cons x xs)) = false
is_falsy (object end) = true
is_falsy (object (field k v fs)) = false

abbrev pub server_url : Json → Json
server_url v = elim (as_object v) [ none ↦ null | some fs ↦ get (codes "url") fs ]

unfoldable pub validate_v1 : Disk → Fields → Result (List Complaint)
validate_v1 disk config =
    check_sources (validate_source disk) (get (codes "sources") config) >>= λ sources.
    ok (sources ++ check_key_file disk (get (codes "key_file") config))

unfoldable pub validate_v2 : Disk → Fields → Result (List Complaint)
validate_v2 disk config =
    let server = get (codes "server") config in
    let (no_server, in_server) = check_section (codes "server") validate_server server in
    let (no_sync, in_sync) =
      check_section (codes "sync") validate_sync (get (codes "sync") config) in
    let (no_p2p, in_p2p) = check_section (codes "p2p") validate_p2p (get (codes "p2p") config) in
    let sections = no_server ++ (no_sync ++ (no_p2p ++ (in_server ++ (in_sync ++ in_p2p)))) in
    let key_file =
      if is_falsy (server_url server)
      then check_key_file disk (get (codes "key_file") config)
      else [] in
    check_sources (validate_source_v2 disk) (get (codes "sources") config) >>= λ sources.
    ok (sections ++ (sources ++ key_file))

unfoldable pub validate : Disk → Fields → Result (List Complaint)
validate disk config = elim (as_int (get (codes "version") config)) [
  | none ↦ ok (version_type ∷ [])
  | some z ↦ elim z [
    | negsuc n ↦ ok (version_unsupported ∷ [])
    | pos n ↦
        if n == 2
        then validate_v2 disk config
        else if n == 1
        then validate_v1 disk config
        else ok (version_unsupported ∷ [])
  ]
]
