-- ===== src/Sync/Client/Upload.antt =====
-- The upload with its compare-and-swap retries.
use stardustfs.Prelude.{
  ℕ, suc, Bytes, Option, none, some, List, [], ◌∷◌, ◌≡◌, ◌≢◌, ◌≤◌, refl, arith, sym, subst, ◌==◌,
  nat_eq, text_eq, eq_iff, if◌then◌else◌, ok, ◌>>=◌, List-cases, Bool-cases, inl, inr, leb,
}
use stardustfs.Models.{FileMetadata}
use stardustfs.Metadata.Status.{get_pending_files}
use stardustfs.Sync.Blob.{decrypt_blob}
use stardustfs.Sync.Client.{
  Server, Client, Setup, reply, db_of, mark_synced, gc_tombstones, record_sync_success, blob_of,
  merge_server_metadata, uploaded, take_retention, download_newer, download_and_merge, settle,
  attempts, upload_metadata,
}
use stardustfs.Sync.Client.Marking.{mark_synced_all}

-- A server at version `v` with the given records that answers by compare-and-swap.
pub record IsCas (v : ℕ) (blob : Bytes) (server : Server) : Type 0 where
  pub days : Option ℕ
  pub accepts : (t : Bytes) → server.put (some v) t ≡ reply 200 (some (suc v))
  pub refuses : (base : ℕ) (t : Bytes) → base ≢ v → server.put (some base) t ≡ reply 409 none
  pub tells :
      server.status ≡ reply 200 (record { version = some v; tombstone_retention_days = days })
  pub serves : server.get ≡ reply 200 blob

take_retention_keeps :
    (d : Option ℕ) (c : Client) → (take_retention d c).last_synced_version ≡ c.last_synced_version
unfolding take_retention
take_retention_keeps none c = refl
take_retention_keeps (some days) c = ground arith

-- One attempt: nothing to send, an answer other than 409, and the conflict.
module _ (setup : Setup) (n : ℕ) (servers : ℕ → Server) (c : Client) where
  attempts_idle : get_pending_files (db_of c) ≡ [] → attempts setup (suc n) servers c ≡ c
  unfolding attempts
  attempts_idle idle = rw (idle, attempts) refl

  attempts_answered :
      (m : FileMetadata) (files : List FileMetadata) (code : ℕ) (version : Option ℕ)
      → get_pending_files (db_of c) ≡ m ∷ files
      → (servers n).put (some c.last_synced_version) (blob_of setup (db_of c)) ≡ reply code version
      → attempts setup (suc n) servers c ≡ (
          if code == 409
          then attempts setup n servers (download_and_merge setup (servers n) c)
          else settle setup code version (m ∷ files) c)
  unfolding attempts
  attempts_answered m files code version waiting answered =
      rw (waiting, attempts) (rw (answered, attempts) refl)

module _ (setup : Setup) (v : ℕ) (blob : Bytes) (recs : List FileMetadata) (server : Server)
    (cas : IsCas v blob server)
    (readable : decrypt_blob setup.aes setup.encryption_key blob >>= setup.read_records
      ≡ ok recs) where
  abbrev Done : Client → Type 0
  Done c = (get_pending_files (db_of c) ≡ []) × (c.last_synced_version ≤ suc v)

  newer_version : (c : Client) → (download_newer setup server v c).last_synced_version ≡ v
  unfolding download_newer merge_server_metadata gc_tombstones record_sync_success
  newer_version c = rw (cas.serves, download_newer) (rw (readable, merge_server_metadata) refl)

  download_version :
      (c : Client)
      → c.last_synced_version ≤ v
      → (download_and_merge setup server c).last_synced_version ≡ v
  unfolding download_and_merge
  download_version c h =
      rw (cas.tells, download_and_merge)
        (elim (Bool-cases (leb v (take_retention cas.days c).last_synced_version)) [
          | inl known ↦ rw known (ground (arith, take_retention_keeps cas.days c, known, h))
          | inr ahead ↦ rw ahead (newer_version (take_retention cas.days c))
        ])

  attempt_current :
      (n : ℕ) (c : Client)
      → c.last_synced_version ≡ v
      → Done (attempts setup (suc n) (λ _. server) c)
  unfolding settle uploaded record_sync_success
  attempt_current n c h = elim (List-cases (get_pending_files (db_of c))) [
    | inl idle ↦ subst Done (sym (attempts_idle setup n (λ _. server) c idle)) (idle, omega arith)
    | inr (m, files, waiting) ↦
        let accepted : server.put (some c.last_synced_version) (blob_of setup (db_of c))
            ≡ reply 200 (some (suc v)) =
          rw h (cas.accepts (blob_of setup (db_of c))) in
        subst Done
          (sym
            (attempts_answered setup n (λ _. server) c m files 200 (some (suc v)) waiting accepted))
          (
            subst (λ l. get_pending_files (mark_synced l (db_of c)) ≡ []) waiting
                (mark_synced_all (db_of c)),
            omega arith,
          )
  ]

  attempt_behind :
      (n : ℕ) (c : Client)
      → c.last_synced_version ≤ v
      → Done (attempts setup (suc (suc n)) (λ _. server) c)
  attempt_behind n c h = elim (Bool-cases (c.last_synced_version == v)) [
    | inl current ↦ attempt_current (suc n) c (ground (arith, eq_iff c.last_synced_version v))
    | inr behind ↦
        let differs : c.last_synced_version ≢ v = ground (arith, eq_iff c.last_synced_version v) in
        elim (List-cases (get_pending_files (db_of c))) [
          | inl idle ↦
              subst Done (sym (attempts_idle setup (suc n) (λ _. server) c idle))
                (idle, omega arith)
          | inr (m, files, waiting) ↦
              subst Done
                (sym (
                  attempts_answered setup (suc n) (λ _. server) c m files 409 none waiting
                    (cas.refuses c.last_synced_version (blob_of setup (db_of c)) differs)))
                (attempt_current n (download_and_merge setup server c) (download_version c h))
        ]
  ]

  -- Where the server stays at version `v`, answers by compare-and-swap and serves a readable blob, an
  -- upload of a client that has synchronised at most `v` ends with no pending change, at a version of
  -- at most `v` + 1, whatever the client's base version is and whatever the merge brings.
  pub upload_metadata_settles :
      (c : Client)
      → c.last_synced_version ≤ v
      → (get_pending_files (db_of (upload_metadata setup (λ _. server) c)) ≡ [])
        × ((upload_metadata setup (λ _. server) c).last_synced_version ≤ suc v)
  unfolding upload_metadata gc_tombstones
  upload_metadata_settles c h = elim (List-cases (get_pending_files (db_of c))) [
    | inl idle ↦ rw (idle, upload_metadata) (idle, omega arith)
    | inr (m, files, waiting) ↦
        rw (waiting, upload_metadata) (attempt_behind 3 (gc_tombstones setup c) h)
  ]
