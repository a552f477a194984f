-- ===== src/Sync/Client.antt =====
-- The synchronisation cycle of SyncClient. The server is the argument `server`, a function of what a
-- request carries; `read_records` opens the decrypted SQLite database and lists its files, `serialize`
-- is the local database file after the checkpoint. The local database file is there, and syncstate.json
-- holds the time of the last success. What raises for the token is `lost` too.
pub mod Marking
pub mod Upload
pub mod Isolation
use stardustfs.Prelude.{
  ℕ, zero, suc, Text, Bytes, Bool, true, false, Option, none, some, List, [], ◌∷◌, ◌+◌, ◌*◌, ◌==◌,
  nat_eq, if◌then◌else◌, Result, ok, err, ◌>>=◌, ltb, leb, ltb_ℤ, pos, sub_ℕ, not,
}
use stardustfs.Models.{FileMetadata, synced, pending}
use stardustfs.Metadata.{Db, mark, purge_expired_tombstones, rename_path}
use stardustfs.Metadata.Status.{get_pending_files}
use stardustfs.Conflict.{generate_conflict_name}
use stardustfs.Network.{Reply, lost, reply}
use stardustfs.Source.{Fault}
use stardustfs.Jbod.{Jbod}
use stardustfs.Jbod.Files.{with_db}
use stardustfs.Jbod.Orphans.{gc_orphan_files, gc_orphan_files_if_needed}
use stardustfs.Sync.Merge.{merge_records}
use stardustfs.Sync.Blob.{AesGcm, encrypt_blob, decrypt_blob}

-- The body of the status request.
pub record Status : Type 0 where
  pub version : Option ℕ
  pub tombstone_retention_days : Option ℕ

-- The requests: PUT of a blob with the base version, where it is sent, GET of the status and of the
-- blob. An answered PUT may name the new version.
pub record Server : Type 0 where
  pub put : Option ℕ → Bytes → Reply (Option ℕ)
  pub status : Reply Status
  pub get : Reply Bytes

pub record Client : Type 0 where
  pub jbod : Jbod
  pub last_synced_version : ℕ
  pub consecutive_failures : ℕ
  pub retention_seconds : ℕ
  pub last_sync_at : Option ℕ

-- What the client is made with, and the environment of a cycle.
pub record Setup : Type 0 where
  pub aes : AesGcm
  pub encryption_key : Option Bytes
  pub iv : Bytes
  pub serialize : Db → Bytes
  pub read_records : Bytes → Result (List FileMetadata)
  pub device_name : Text
  pub timestamp : Text
  pub attached : Bool
  pub fault : Fault
  pub now : ℕ

abbrev pub max_cas_retries : ℕ
max_cas_retries = 5

abbrev pub seconds_per_day : ℕ
seconds_per_day = 86400

abbrev pub db_of : Client → Db
db_of c = c.jbod.metadata_store

abbrev pub with_store : Db → Client → Client
with_store db c = record c { jbod = with_db db c.jbod }

abbrev pub upload_failed : Client → Client
upload_failed c = record c { consecutive_failures = c.consecutive_failures + 1 }

-- `for fm in pending_files: set_sync_status(fm.virtual_path, "synced")`
unfoldable pub mark_synced : List FileMetadata → Db → Db
mark_synced [] db = db
mark_synced (m ∷ files) db = mark_synced files (mark m.virtual_path synced db)

-- `if "version" in resp_data: self._last_synced_version = resp_data["version"]`
abbrev pub take_version : Option ℕ → Client → Client
take_version none c = c
take_version (some v) c = record c { last_synced_version = v }

unfoldable pub take_retention : Option ℕ → Client → Client
take_retention none c = c
take_retention (some days) c =
    if ltb 0 days then record c { retention_seconds = days * seconds_per_day } else c

module _ (setup : Setup) where
  unfoldable pub gc_tombstones : Client → Client
  gc_tombstones c =
      with_store (purge_expired_tombstones c.retention_seconds setup.now (db_of c)).1 c

  unfoldable pub record_sync_success : Client → Client
  record_sync_success c = record c { last_sync_at = some setup.now }

  unfoldable pub is_stale : Client → Bool
  is_stale c = elim c.last_sync_at [
    | none ↦ false
    | some t ↦ ltb_ℤ (pos c.retention_seconds) (sub_ℕ setup.now t)
  ]

  -- `_encrypt_blob` of the database file.
  unfoldable pub blob_of : Db → Bytes
  blob_of db = encrypt_blob setup.aes setup.encryption_key setup.iv (setup.serialize db)

  unfoldable pub merge_server_metadata : Bytes → Client → Result Client
  merge_server_metadata blob c =
      decrypt_blob setup.aes setup.encryption_key blob >>= setup.read_records >>= λ recs.
      ok (record c {
        jbod =
            merge_records setup.device_name setup.timestamp setup.attached setup.fault recs c.jbod;
      })

  -- The changes that were sent count as synchronised.
  unfoldable pub uploaded : Option ℕ → List FileMetadata → Client → Client
  uploaded version files c =
      record_sync_success (with_store (mark_synced files (db_of c)) (take_version version c))

  unfoldable pub force_upload : Server → Client → Client
  force_upload server c = elim (server.put none (blob_of (db_of c))) [
    | lost ↦ c
    | reply code version ↦
        if ltb code 400 then uploaded version (get_pending_files (db_of c)) c else c
  ]

  -- The merge of a server version that is ahead; what raises leaves the version where it was.
  unfoldable pub download_newer : Server → ℕ → Client → Client
  download_newer server version c = elim server.get [
    | lost ↦ c
    | reply code blob ↦ if not (code == 200) then c else (elim (merge_server_metadata blob c) [
      | err e ↦ c
      | ok c' ↦ record_sync_success (gc_tombstones (record c' { last_synced_version = version }))
    ])
  ]

  unfoldable pub download_and_merge : Server → Client → Client
  download_and_merge server c = elim server.status [
    | lost ↦ c
    | reply code status ↦
        if not (code == 200)
        then c
        else let c' = take_retention status.tombstone_retention_days c in
          elim status.version [
            | none ↦ force_upload server c'
            | some version ↦
                if leb version c'.last_synced_version then c' else download_newer server version c'
          ]
  ]

  -- An answer other than 409.
  unfoldable pub settle : ℕ → Option ℕ → List FileMetadata → Client → Client
  settle code version files c =
      if leb 400 code
      then upload_failed c
      else uploaded version files (record c { consecutive_failures = 0 })

  -- The attempts that are left; `servers` gives the server as each attempt meets it.
  unfoldable pub attempts : ℕ → (ℕ → Server) → Client → Client
  attempts zero servers c = c
  attempts (suc n) servers c = elim (get_pending_files (db_of c)) [
    | [] ↦ c
    | m ∷ files ↦ elim ((servers n).put (some c.last_synced_version) (blob_of (db_of c))) [
      | lost ↦ upload_failed c
      | reply code version ↦
          let again = attempts n servers (download_and_merge (servers n) c) in
          if code == 409 then again else settle code version (m ∷ files) c
    ]
  ]

  unfoldable pub upload_metadata : (ℕ → Server) → Client → Client
  upload_metadata servers c = elim (get_pending_files (db_of c)) [
    | [] ↦ c
    | m ∷ files ↦ attempts max_cas_retries servers (gc_tombstones c)
  ]

  -- The faults of the operating system that the deletions of a collection meet.
  unfoldable pub run_orphan_gc : (Text → Fault) → Bool → Client → Client
  run_orphan_gc faults startup c =
      if not setup.attached
      then c
      else if startup
      then record c { jbod = (gc_orphan_files faults c.jbod).1 }
      else record c { jbod = (gc_orphan_files_if_needed faults c.jbod).1 }

  -- What the merge raises, `initial_sync` raises.
  unfoldable pub initial_sync : (Text → Fault) → Server → Client → Result (Unit {0}) × Client
  initial_sync faults server c = elim server.get [
    | lost ↦ (ok tt, c)
    | reply code blob ↦
        if code == 404
        then (ok tt, force_upload server c)
        else if leb 400 code
        then (ok tt, c)
        else (elim (merge_server_metadata blob c) [
          | err e ↦ (err e, c)
          | ok c' ↦ (ok tt, run_orphan_gc faults true c')
        ])
  ]

  -- The change is kept under a conflict name; what raises is only logged.
  unfoldable pub isolate : FileMetadata → ℕ × Db → ℕ × Db
  isolate m (n, db) =
      if m.deleted
      then (n, db)
      else (elim (generate_conflict_name setup.device_name setup.timestamp m.virtual_path db) [
        | none ↦ (n, db)
        | some copy ↦ elim (rename_path m.virtual_path copy db) [
          | err e ↦ (n, db)
          | ok db' ↦ (n + 1, mark copy pending db')
        ]
      ])

  unfoldable pub isolate_all : List FileMetadata → ℕ × Db → ℕ × Db
  isolate_all [] s = s
  isolate_all (m ∷ files) s = isolate_all files (isolate m s)

  unfoldable pub fetch_retention_days : Server → Client → Client
  fetch_retention_days server c = elim server.status [
    | lost ↦ c
    | reply code status ↦
        if code == 200 then take_retention status.tombstone_retention_days c else c
  ]

  unfoldable pub reconcile_stale :
      (Text → Fault) → (ℕ → Server) → Server → Client → Result Bool × Client
  reconcile_stale faults servers server c =
      let (isolated, db) = isolate_all (get_pending_files (db_of c)) (0, db_of c) in
      let (r, c') =
        initial_sync faults server (record (with_store db c) { last_synced_version = 0 }) in
      elim r [
        | err e ↦ (err e, c')
        | ok u ↦ (ok true, if ltb 0 isolated then upload_metadata servers c' else c')
      ]

  unfoldable pub reconcile_if_stale :
      (Text → Fault) → (ℕ → Server) → Server → Client → Result Bool × Client
  reconcile_if_stale faults servers server c =
      let c' = fetch_retention_days server c in
      if is_stale c' then reconcile_stale faults servers server c' else (ok false, c')
