-- ===== src/Config/Migration.antt =====
-- stardustlib/config_loader.py: migrate_v1_to_v2, _resolve_backup_path and load_encryption_key. A
-- write that fails leaves some text in the file. `dumps` is json.dumps.
use stardustfs.Prelude.{
  ℕ, zero, suc, ◌+◌, Text, Bytes, Bool, false, Option, none, some, List, [], ◌∷◌, ◌++◌, ◌==◌,
  text_eq, nat_eq, if◌then◌else◌, Result, ok, err, invalid_key, key_not_found, migration_error,
  length, codes, is_some, pos,
}
use stardustfs.Decimal.{decimal}
use stardustfs.Table.{find_row}
use stardustfs.Json.{
  Json, Fields, null, integer, text, boolean, object, end, field, set_field, pop_field,
}
use stardustfs.Config.{required_key_length}

pub record File : Type 0 where
  pub path : Text
  pub content : Text

abbrev pub path_of : File → Text
path_of f = f.path

-- `write_text`
unfoldable pub write_file : Text → Text → List File → List File
write_file path content [] = record { path = path; content = content } ∷ []
write_file path content (f ∷ files) =
    if f.path == path
    then record { path = path; content = content } ∷ files
    else f ∷ write_file path content files

abbrev pub exists : Text → List File → Bool
exists path files = is_some (find_row path_of path files)

abbrev pub numbered_backup : Text → ℕ → Text
numbered_backup base n = base ++ (codes "." ++ decimal n)

-- The loop on `n`.
unfoldable pub next_backup : ℕ → ℕ → Text → List File → Option Text
next_backup zero n base files = none
next_backup (suc fuel) n base files =
    if exists (numbered_backup base n) files
    then next_backup fuel (n + 1) base files
    else some (numbered_backup base n)

unfoldable pub resolve_backup_path : Text → List File → Option Text
resolve_backup_path config_path files =
    let base = config_path ++ codes ".v1.bak" in
    if exists base files then next_backup (suc (length files)) 1 base files else some base

abbrev pub sync_defaults : Json
sync_defaults = object (
    field (codes "interval_seconds") (integer (pos 30))
      (field (codes "conflict_strategy") (text (codes "copy")) end))

abbrev pub p2p_defaults : Json
p2p_defaults =
    object (field (codes "port") (integer (pos 9090)) (field (codes "enabled") (boolean false) end))

-- The configuration that the migration builds.
unfoldable pub migrated : Fields → Fields
migrated config = set_field (codes "p2p") p2p_defaults (
    set_field (codes "sync") sync_defaults (
      set_field (codes "server") (object (field (codes "url") null end))
        (set_field (codes "version") (integer (pos 2)) (pop_field (codes "webdav") config))))

-- How a write ends: `some left` raises OSError with `left` in the file.
abbrev pub written : Text → Option Text → Text
written content none = content
written content (some left) = left

-- `shutil.copy2` and the write of the new text, each with its outcome; no file at all to copy
-- raises OSError.
unfoldable pub migrate_to :
    (Fields → Text)
    → Option Text
    → Option Text
    → Text
    → Text
    → Fields
    → List File
    → Result Fields × List File
unfolding migrated
migrate_to dumps copying writing backup_path config_path config files =
    elim (find_row path_of config_path files) [
      | none ↦ (err migration_error, files)
      | some original ↦
          let copied = write_file backup_path (written original.content copying) files in
          if is_some copying then (err migration_error, copied) else (
            if is_some writing then err migration_error else ok (migrated config),
            write_file config_path (written (dumps (migrated config)) writing) copied,
          )
    ]

unfoldable pub migrate_v1_to_v2 :
    (Fields → Text)
    → Option Text
    → Option Text
    → Text
    → Fields
    → List File
    → Option (Result Fields × List File)
migrate_v1_to_v2 dumps copying writing config_path config files =
    elim (resolve_backup_path config_path files) [
      | none ↦ none
      | some backup_path ↦
          some (migrate_to dumps copying writing backup_path config_path config files)
    ]

abbrev pub check_key : Bytes → Result Bytes
check_key key = if length key == required_key_length then ok key else err invalid_key

-- `read` gives the bytes of a file that is there, `environ` the bytes of the variable STARDUST_KEY.
unfoldable pub load_encryption_key :
    (Text → Option Bytes) → Option Bytes → Option Text → Result Bytes
load_encryption_key read environ none = elim environ [
  | none ↦ err key_not_found
  | some value ↦ check_key value
]
load_encryption_key read environ (some key_file) = elim (read key_file) [
  | none ↦ err key_not_found
  | some value ↦ check_key value
]
