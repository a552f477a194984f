-- ===== src/Sync/Merge.antt =====
-- The merge of the server's records into the local metadata: `_merge_record` of
-- stardustlib/sync_client.py and what it calls. `attached` says whether the client was given a
-- JBODManager; the manager holds the metadata store that the client works on.
pub mod Decision
pub mod Outcomes
pub mod Idempotence
use stardustfs.Prelude.{
  ℕ, Text, Bool, true, false, Option, none, some, List, [], ◌∷◌, ◌++◌, ◌+◌, ◌&&◌, not, ◌==◌,
  option_text_eq, if◌then◌else◌, Result, ok, err, ltb, ltb_ℤ, sub_ℕ, pos, ℤ,
}
use stardustfs.Models.{FileMetadata, synced, pending, sync_status_beq, unreplicated}
use stardustfs.Metadata.{Row, Db, path_of, row_at, update_at, with_file, lookup, lookup_any}
use stardustfs.Conflict.{resolve_conflict}
use stardustfs.Source
use stardustfs.Source.{Fault}
use stardustfs.Jbod.{Jbod, get_source_by_id, set_source, mark_gc_needed}
use stardustfs.Jbod.Files.{with_db}

-- UPDATE of all columns of a record that is there.
abbrev pub replaced : FileMetadata → FileMetadata → FileMetadata
replaced rec m = record m {
  source_id = rec.source_id;
  physical_path = rec.physical_path;
  file_size = rec.file_size;
  created_at = rec.created_at;
  modified_at = rec.modified_at;
  version = rec.version;
  device_id = rec.device_id;
  sync_status = synced;
  deleted = rec.deleted;
}

abbrev pub server_row : FileMetadata → Row
server_row rec = record {
  file = record rec { sync_status = synced };
  replication_status = unreplicated;
}

unfoldable pub insert_from_server : FileMetadata → Db → Db
insert_from_server rec db = elim (lookup_any rec.virtual_path db) [
  | some m ↦ update_at rec.virtual_path (with_file (replaced rec)) db
  | none ↦ record db { files = db.files ++ server_row rec ∷ [] }
]

-- UPDATE, which leaves the time of creation.
abbrev pub refreshed : FileMetadata → FileMetadata → FileMetadata
refreshed rec m = record m {
  source_id = rec.source_id;
  physical_path = rec.physical_path;
  file_size = rec.file_size;
  modified_at = rec.modified_at;
  version = rec.version;
  device_id = rec.device_id;
  sync_status = synced;
  deleted = rec.deleted;
}

-- A tombstone takes the local physical file with it; what the deletion raises is only logged.
unfoldable pub drop_physical : Fault → FileMetadata → Jbod → Jbod
drop_physical fault m j = elim (get_source_by_id m.source_id j) [
  | none ↦ j
  | some s ↦ if s.is_active then set_source (Source.delete fault m.physical_path s).1 j else j
]

unfoldable pub propagate_tombstone : Bool → Fault → FileMetadata → Jbod → Jbod
propagate_tombstone attached fault rec j =
    if rec.deleted && attached
    then (elim (lookup rec.virtual_path j.metadata_store) [
      | none ↦ j
      | some m ↦ drop_physical fault m j
    ])
    else j

unfoldable pub update_from_server : Bool → Fault → FileMetadata → Jbod → Jbod
update_from_server attached fault rec j =
    let j' = propagate_tombstone attached fault rec j in
    with_db (update_at rec.virtual_path (with_file (refreshed rec)) j'.metadata_store) j'

-- A file of this device that the server gives to another one has left an orphan here.
unfoldable pub detect_ownership_loss : Bool → FileMetadata → FileMetadata → Jbod → Jbod
detect_ownership_loss attached local rec j = elim j.device_id [
  | none ↦ j
  | some me ↦
      if attached && not rec.deleted && local.device_id == some me && not (rec.device_id == some me)
      then mark_gc_needed j
      else j
]

-- The version that the local record had at the last synchronisation.
abbrev pub base_version : FileMetadata → ℤ
base_version local =
    if sync_status_beq local.sync_status pending then sub_ℕ local.version 1 else pos local.version

unfoldable pub is_conflict : FileMetadata → FileMetadata → Bool
is_conflict local rec =
    ltb_ℤ (base_version local) (pos rec.version) && ltb_ℤ (base_version local) (pos local.version)

module _ (device_name timestamp : Text) (attached : Bool) (fault : Fault) where
  -- The server's record goes to the path that the conflict copy has left; an error is logged.
  unfoldable pub handle_conflict : FileMetadata → Jbod → Jbod
  handle_conflict rec j =
      let (r, db) = resolve_conflict device_name timestamp rec.virtual_path j.metadata_store in
      elim r [ err e ↦ with_db db j | ok copy ↦ with_db (insert_from_server rec db) j ]

  unfoldable pub merge_known : FileMetadata → FileMetadata → Jbod → Jbod
  merge_known local rec j =
      if is_conflict local rec
      then handle_conflict rec j
      else if ltb local.version rec.version
      then update_from_server attached fault rec (detect_ownership_loss attached local rec j)
      else j

  unfoldable pub merge_record : FileMetadata → Jbod → Jbod
  merge_record rec j = elim (lookup_any rec.virtual_path j.metadata_store) [
    | some local ↦ merge_known local rec j
    | none ↦ if rec.deleted then j else with_db (insert_from_server rec j.metadata_store) j
  ]

  -- The loop of `_merge_server_metadata` over the records of the server's database.
  unfoldable pub merge_records : List FileMetadata → Jbod → Jbod
  merge_records [] j = j
  merge_records (rec ∷ recs) j = merge_records recs (merge_record rec j)
