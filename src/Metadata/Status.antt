-- ===== src/Metadata/Status.antt =====
-- The statuses of stardustlib/metadata_store.py: their checked setters, and the methods that select
-- rows by status or owner.
use stardustfs.Prelude.{
  Text, Bool, true, false, Option, none, some, List, map, ◌&&◌, not, ◌==◌, text_eq, if◌then◌else◌,
  Result, ok, err, value_error, codes, filter, any,
}
use stardustfs.Models.{
  FileMetadata, SyncStatus, synced, pending, conflict, ReplicationStatus, unreplicated, waiting,
  replicated, sync_status_beq,
}
use stardustfs.Metadata.{Row, Db, path_of, row_at, update_at, mark}

-- `status in self._VALID_SYNC_STATUSES`
unfoldable pub sync_status_of : Text → Option SyncStatus
sync_status_of t =
    if t == codes "synced"
    then some synced
    else if t == codes "pending"
    then some pending
    else if t == codes "conflict"
    then some conflict
    else none

unfoldable pub replication_status_of : Text → Option ReplicationStatus
replication_status_of t =
    if t == codes "none"
    then some unreplicated
    else if t == codes "pending"
    then some waiting
    else if t == codes "replicated"
    then some replicated
    else none

unfoldable pub set_sync_status : Text → Text → Db → Result Db
set_sync_status path status db = elim (sync_status_of status) [
  | none ↦ err value_error
  | some s ↦ ok (mark path s db)
]

abbrev pub with_replication : ReplicationStatus → Row → Row
with_replication s r = record r { replication_status = s }

unfoldable pub set_replication_status : Text → Text → Db → Result Db
set_replication_status path status db = elim (replication_status_of status) [
  | none ↦ err value_error
  | some s ↦ ok (update_at path (with_replication s) db)
]

unfoldable pub get_replication_status : Text → Db → Option ReplicationStatus
get_replication_status path db = elim (row_at path db) [
  | none ↦ none
  | some r ↦ some r.replication_status
]

-- (device_id = ? OR device_id IS NULL)
abbrev pub owned_by : Text → Row → Bool
owned_by device r = elim r.device_id [ none ↦ true | some d ↦ d == device ]

abbrev pub owned_if_given : Option Text → Row → Bool
owned_if_given none r = true
owned_if_given (some device) r = owned_by device r

unfoldable pub replication_status_beq : ReplicationStatus → ReplicationStatus → Bool
replication_status_beq unreplicated unreplicated = true
replication_status_beq waiting waiting = true
replication_status_beq replicated replicated = true
replication_status_beq _ _ = false

unfoldable pub list_virtual_paths_for_replication :
    List ReplicationStatus → Option Text → Db → List Text
unfolding replication_status_beq
list_virtual_paths_for_replication statuses owner db = map path_of (
    filter
      (λ r.
        not r.deleted
        && any (replication_status_beq r.replication_status) statuses
        && owned_if_given owner r)
      db.files)

-- Deletions that wait for the next upload are among the pending rows.
unfoldable pub get_pending_files : Db → List FileMetadata
unfolding sync_status_beq
get_pending_files db =
    map (λ r. r.file) (filter (λ (r : Row). sync_status_beq r.sync_status pending) db.files)

-- The set of pairs (source_id, physical_path) is the list of them.
unfoldable pub live_physical_paths_for_device : Text → Db → List (Text × Text)
live_physical_paths_for_device device db =
    map (λ (r : Row). (r.source_id, r.physical_path))
      (filter (λ r. not r.deleted && owned_by device r) db.files)
