-- ===== src/Jbod.antt =====
-- stardustlib/jbod_manager.py: the class JBODManager. The state holds the sources, the metadata
-- database, the proxies of the other devices and the flag for the orphan collection. The engine's
-- `encrypt` (at the initialisation vector of the call) and `decrypt` are arguments; the clock, the
-- hexadecimal UUID and the faults of the operating system are given with each call.
pub mod Selection
pub mod Files
pub mod Orphans
pub mod Atomicity
pub mod Readable
pub mod RoundTrip
pub mod Renames
pub mod Folders
use stardustfs.Prelude.{
  ℕ, zero, suc, Text, Bytes, Bool, true, false, Option, none, some, List, [], ◌∷◌, ◌++◌, map, ◌+◌,
  ◌&&◌, ◌||◌, not, ◌==◌, text_eq, option_text_eq, is_some, if◌then◌else◌, Result, ok, err, ◌>>=◌,
  Error, os_error, file_not_found, insufficient_storage, value_error, codes, take, filter, any,
  length, ltb, leb, ℤ, pos, negsuc, ltb_ℤ,
}
use stardustfs.Models.{FileMetadata, FileInfo}
use stardustfs.Paths.{slash, last_index, basename, lstrip_slash, rstrip_slash}
use stardustfs.Table.{find_row, update_rows}
use stardustfs.Metadata.{Db, lookup, insert, update, delete, rename_path}
use stardustfs.Metadata.Status.{live_physical_paths_for_device}
use stardustfs.Source
use stardustfs.Source.{
  Source, Fault, fine, is_remote, get_available_space, get_total_space, list_physical_files,
}

-- The proxy of another device: whether it is reachable, whether it would be after a renegotiation,
-- and what it serves for a physical path and a source.
pub record Remote : Type 0 where
  pub device_id : Text
  pub is_active : Bool
  pub active_after_refresh : Bool
  pub read_from_source : Text → Text → Result Bytes

pub record Jbod : Type 0 where
  pub sources : List Source
  pub metadata_store : Db
  pub device_id : Option Text
  pub remote_devices : List Remote
  pub gc_needed : Bool

abbrev pub id_of : Source → Text
id_of s = s.source_id

abbrev pub device_of : Remote → Text
device_of r = r.device_id

-- What the environment gives to one call.
pub record Env : Type 0 where
  pub now : ℕ
  pub uuid_hex : Text
  pub write_fault : Fault
  pub delete_fault : Fault
  pub read_fault : Fault

-- A local source that takes part in placement and capacity.
abbrev pub is_usable : Source → Bool
is_usable s = s.is_active && not (is_remote s)

abbrev pub space_of : Source → ℕ
space_of s = elim (get_available_space s) [ err e ↦ 0 | ok n ↦ n ]

-- The loop of `select_source`; `best_space` begins at -1.
unfoldable pub select_from : ℕ → Option Source → ℤ → List Source → Option Source
select_from file_size best best_space [] = best
select_from file_size best best_space (s ∷ sources) =
    let fits = is_usable s && leb file_size (space_of s) && ltb_ℤ best_space (pos (space_of s)) in
    select_from file_size (if fits then some s else best)
      (if fits then pos (space_of s) else best_space) sources

unfoldable pub select_source : ℕ → Jbod → Result Source
unfolding select_from
select_source file_size j = elim (select_from file_size none (negsuc 0) j.sources) [
  | none ↦ err insufficient_storage
  | some s ↦ ok s
]

-- Source ids are unique, as models.py says, so the dict finds what the list holds.
abbrev pub get_source_by_id : Text → Jbod → Option Source
get_source_by_id id j = find_row id_of id j.sources

-- A method of a source changes the object that the list and the dict share.
abbrev pub set_source : Source → Jbod → Jbod
set_source s j = record j { sources = update_rows id_of s.source_id (λ old. s) j.sources }

unfoldable pub add_source : Source → Jbod → Jbod
add_source s j = record j {
  sources = filter (λ t. not (id_of t == s.source_id)) j.sources ++ s ∷ [];
}

unfoldable pub register_remote_device : Text → Remote → Jbod → Jbod
register_remote_device device remote j = record j {
  remote_devices =
      record remote { device_id = device }
      ∷ filter (λ r. not (device_of r == device)) j.remote_devices;
}

unfoldable pub mark_gc_needed : Jbod → Jbod
mark_gc_needed j = record j { gc_needed = true }

-- `t.strip("/")`
abbrev pub strip_slash : Text → Text
strip_slash t = rstrip_slash (lstrip_slash t)

-- The directory of the stripped path is kept, and the UUID goes in front of the file's name.
unfoldable pub generate_physical_path : Text → Text → Text
unfolding lstrip_slash rstrip_slash basename
generate_physical_path uuid_hex virtual_path =
    let path = strip_slash virtual_path in
    let file_part = uuid_hex ++ (codes "_" ++ basename path) in
    elim (last_index slash path) [ none ↦ file_part | some i ↦ take i path ++ slash ∷ file_part ]

-- `owner is None or owner == self.device_id`
abbrev pub is_local_owner : Option Text → Option Text → Bool
is_local_owner none self = true
is_local_owner (some d) self = some d == self

unfoldable pub file_exists : Text → Jbod → Bool
file_exists path j = is_some (lookup path j.metadata_store)

unfoldable pub get_file_info : Text → Jbod → Option FileInfo
get_file_info path j = elim (lookup path j.metadata_store) [
  | none ↦ none
  | some m ↦ some (record {
    virtual_path = m.virtual_path;
    source_id = m.source_id;
    file_size = m.file_size;
    created_at = m.created_at;
    modified_at = m.modified_at;
    is_directory = false;
  })
]

abbrev pub total_of : Source → ℕ
total_of s = elim (get_total_space s) [ err e ↦ 0 | ok n ↦ n ]

-- The sums over the usable sources.
abbrev pub sum_usable : (Source → ℕ) → List Source → ℕ
sum_usable f [] = 0
sum_usable f (s ∷ sources) = (if is_usable s then f s else 0) + sum_usable f sources

unfoldable pub get_total_space_of : Jbod → ℕ
get_total_space_of j = sum_usable total_of j.sources

unfoldable pub get_available_space_of : Jbod → ℕ
get_available_space_of j = sum_usable space_of j.sources

unfoldable pub deactivate_source : Text → Jbod → Result Jbod
deactivate_source id j = elim (get_source_by_id id j) [
  | none ↦ err value_error
  | some s ↦ ok (set_source (Source.deactivate s) j)
]
