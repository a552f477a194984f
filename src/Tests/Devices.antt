-- ===== src/Tests/Devices.antt =====
-- Tests of the moves of directories, of the heartbeats, of the daemon and of the online recovery.
use stardustfs.Prelude.{
  ℕ, Text, true, false, some, none, List, [], ◌∷◌, ◌+◌, ◌≡◌, refl, arith, codes, ok, err,
  network_error, map, leb, if◌then◌else◌, text_beq,
}
use stardustfs.Network.{lost, reply}
use stardustfs.Table.{find_row, update_rows, rekey_row}
use stardustfs.Paths.{ends_with_slash, rstrip_slash, lstrip_slash}
use stardustfs.Like.{like}
use stardustfs.Like.Laws.{starts_with}
use stardustfs.Metadata.Directories.{rename_directory, move_prefix, with_slash}
use stardustfs.Source.{Source, Fault, fine, file_name, Removal, emptied}
use stardustfs.Jbod.{Jbod, get_source_by_id}
use stardustfs.Jbod.Folders.{move_directory}
use stardustfs.Jbod.Folders.Loss.{move_directory_loses}
use stardustfs.Devices.Heartbeats.{Beat, after_beats, failed_in_a_row, heartbeat_interval_lem}
use stardustfs.Daemon.{Files, read_status, serve, signal_stop}
use stardustfs.Daemon.Liveness.{read_status-serve}
use stardustfs.Recovery.{Services, Manager, recovery_round, attempt_recovery, start_services}
use stardustfs.Recovery.Order.{recovery_round_lem}
use stardustfs.Tests.{jbod, disk}

abbrev nested : Source
nested = record disk { files = record { name = codes "d/p"; content = 1 ∷ 2 ∷ [] } ∷ [] }

abbrev nested_jbod : Jbod
nested_jbod = record jbod { sources = nested ∷ [] }

abbrev quiet : Text → Fault
quiet id = fine

abbrev all_removed : Text → Removal
all_removed id = emptied

abbrev moved_jbod : Jbod
moved_jbod = (move_directory quiet all_removed (codes "/d") (codes "/e") nested_jbod).1

move_directory_loses_example :
    ((s' : Source) × (get_source_by_id (codes "s") moved_jbod ≡ some s')
      × (find_row file_name (codes "d/p") s'.files ≡ none))
    × (map (λ r. r.physical_path) moved_jbod.metadata_store.files
        ≡ map (λ r. r.physical_path) nested_jbod.metadata_store.files)
unfolding move_directory rename_directory move_prefix with_slash rekey_row update_rows find_row
    text_beq ends_with_slash rstrip_slash lstrip_slash like starts_with
move_directory_loses_example =
    move_directory_loses quiet all_removed (codes "/d") (codes "/e") (codes "s") (codes "d/p")
      nested_jbod moved_jbod nested refl refl refl refl refl refl

-- Three failures after a success.
abbrev beats : List Beat
beats =
    (ok [], lost) ∷ (ok [], reply 500 tt) ∷ (err network_error, lost) ∷ (ok [], reply 200 tt) ∷ []

heartbeat_interval_lem_example :
    ((after_beats [] beats).consecutive_failures ≡ failed_in_a_row beats)
    × ((after_beats [] beats).heartbeat_interval
        ≡ (if leb 3 (failed_in_a_row beats) then 120 else 60))
heartbeat_interval_lem_example = heartbeat_interval_lem [] beats

abbrev no_files : Files
no_files = record { control = none; stop = true }

abbrev seconds : ℕ → ℕ
seconds k = k + 100

read_status-serve_example :
    (read_status (seconds 12) (serve seconds no_files 12)
      ≡ record { running = true; stale = false })
    × ((signal_stop (serve seconds no_files 12)).0 ≡ true)
read_status-serve_example = read_status-serve seconds no_files 12 (λ k. omega arith)

-- The world counts the calls.
abbrev services : Services ℕ
services = record {
  load_from_store = λ w. (true, w + 1);
  get_valid_token = λ w. (ok (codes "t"), w + 1);
  register = λ w. (ok (codes "d"), w + 1);
  upload_metadata = λ w. (ok tt, w + 1);
  initial_sync = λ w. (ok tt, w + 1);
  start_p2p = none;
  start_heartbeat = λ w. (err network_error, w);
  start_periodic_sync = λ w. (ok tt, w);
}

abbrev offline : Manager
offline = record { recovered = false; running = true }

recovery_round_lem_example :
    (w₁ w₂ w₃ w₄ w₅ : ℕ) × (token id : Text) × (services.load_from_store 0 ≡ (true, w₁))
    × (services.get_valid_token w₁ ≡ (ok token, w₂))
    × (services.register w₂ ≡ (ok id, w₃))
    × (services.upload_metadata w₃ ≡ (ok tt, w₄))
    × (services.initial_sync w₄ ≡ (ok tt, w₅))
unfolding recovery_round attempt_recovery start_services
recovery_round_lem_example = recovery_round_lem services offline 0 refl refl
