-- ===== src/Tests/Settings.antt =====
-- Tests of the configuration.
use stardustfs.Prelude.{
  ℕ, Text, true, false, none, some, List, [], ◌∷◌, codes, ok, Result, length, pos, ◌≡◌, ◌≢◌, ◌≤◌,
  ◌⊎◌, refl, text_beq, List,
}
use stardustfs.Table.{find_row}
use stardustfs.Json.{
  Fields, null, integer, text, boolean, object, array, nil, cons, end, field, get, find_field,
}
use stardustfs.Config.{
  Disk, validate, validate_v2, validate_source_v2, validate_source, validate_sources, check_sources,
  check_key_file, validate_server, validate_url, validate_device_name, validate_sync, validate_p2p,
}
use stardustfs.Config.Bounds.{validate_bounds, migrated_refused}
use stardustfs.Config.Migration.{File, path_of, migrated, migrate_v1_to_v2}
use stardustfs.Config.Backup.{migrate_v1_to_v2_keeps}

abbrev every_directory : Disk
every_directory = record { exists = λ p. true; is_dir = λ p. true }

abbrev old_file : File
old_file = record { path = codes "/c"; content = codes "v1" }

-- The copy succeeds, and the write leaves an empty file.
migrate_v1_to_v2_keeps_example :
    (backup : Text) × (outcome : Result Fields) × (files' : List File) × (migrate_v1_to_v2
        (λ fs. codes "{}")
        none
        (some [])
        (codes "/c")
        end
        (old_file ∷ [])
      ≡ some (outcome, files'))
    × (find_row path_of backup (old_file ∷ []) ≡ none)
    × ((q : Text)
        → q ≢ backup
        → q ≢ codes "/c"
        → find_row path_of q files' ≡ find_row path_of q (old_file ∷ []))
    × ((f : File) × ((find_row path_of (codes "/c") files' ≡ some f)
          ⊎ (find_row path_of backup files' ≡ some f))
        × (f.content ≡ codes "v1"))
unfolding find_row text_beq
migrate_v1_to_v2_keeps_example =
    migrate_v1_to_v2_keeps (λ fs. codes "{}") none (some []) (codes "/c") end (old_file ∷ [])
      old_file refl

abbrev directory_source : Fields
directory_source =
    field (codes "type") (text (codes "directory"))
      (field (codes "path") (text (codes "/data")) end)

abbrev server_section : Fields
server_section = field (codes "url") null (field (codes "device_name") (text (codes "pc")) end)

abbrev sync_section : Fields
sync_section =
    field (codes "interval_seconds") (integer (pos 30))
      (field (codes "conflict_strategy") (text (codes "copy")) end)

abbrev p2p_section : Fields
p2p_section =
    field (codes "port") (integer (pos 9090)) (field (codes "enabled") (boolean false) end)

abbrev config : Fields
config = field (codes "version") (integer (pos 2)) (
    field (codes "sources") (array (cons (object directory_source) nil)) (
      field (codes "server") (object server_section) (
        field (codes "sync") (object sync_section) (field (codes "p2p") (object p2p_section) end))))

validate_bounds_example :
    ((server : Fields) × (name : Text) × (get (codes "server") config ≡ object server)
      × (get (codes "device_name") server ≡ text name)
      × (1 ≤ length name)
      × (length name ≤ 64))
    × ((sync : Fields) × (seconds : ℕ) × (get (codes "sync") config ≡ object sync)
        × (get (codes "interval_seconds") sync ≡ integer (pos seconds))
        × (10 ≤ seconds)
        × (seconds ≤ 3600))
    × ((p2p : Fields) × (port : ℕ) × (get (codes "p2p") config ≡ object p2p)
        × (get (codes "port") p2p ≡ integer (pos port))
        × (1024 ≤ port)
        × (port ≤ 65535))
unfolding validate validate_v2 check_sources validate_sources validate_source_v2 validate_source
    check_key_file validate_server validate_url validate_device_name validate_sync validate_p2p get
    find_field text_beq
validate_bounds_example = validate_bounds every_directory config refl refl

migrated_refused_example : validate every_directory (migrated end) ≢ ok []
migrated_refused_example = migrated_refused every_directory end
