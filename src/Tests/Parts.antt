-- ===== src/Tests/Parts.antt =====
-- Tests of the chunks, of the encrypted formats, of the parity store and of the upload.
use stardustfs.Prelude.{
  ◌⊎◌, ◌≢◌, Text, ℕ, zero, suc, Bytes, true, Option, none, some, [], ◌∷◌, ◌++◌, codes, ok, length,
  take, ◌≡◌, ◌≤◌, ◌-◌, refl, arith, ◌==◌, nat_eq, eq_iff, text_eq, if◌then◌else◌, text_beq,
  length-append, take-append, ap,
}
use stardustfs.Table.{find_row}
use stardustfs.Parity.{ParityStore}
use stardustfs.Sync.Blob.{AesGcm, IsAesGcm, decrypt_blob}
use stardustfs.KeyBackup.{encrypt_for_backup, decrypt_from_backup}
use stardustfs.Sync.Keys.{KeyServer, is_accepted, download_outcome, upload_key, download_key}
use stardustfs.Sync.Keys.Backup.{IsFlaky, download_key-upload_key}
use stardustfs.Metadata.Status.{get_pending_files}
use stardustfs.Network.{Reply, reply, lost}
use stardustfs.Sync.Client.{isolate, Server, Client, Setup, upload_metadata, db_of}
use stardustfs.Sync.Client.Isolation.{Isolated, isolate_lem}
use stardustfs.Metadata.{Db, row_at, lookup}
use stardustfs.Sync.Client.Upload.{IsCas, upload_metadata_settles}
use stardustfs.Source.{fine}
use stardustfs.Tests.{a_txt, local_file, local_row, local_db, local_db-IsValid, server_file, jbod}

zeros : Bytes
zeros = 0 ∷ 0 ∷ 0 ∷ 0 ∷ 0 ∷ 0 ∷ 0 ∷ 0 ∷ 0 ∷ 0 ∷ 0 ∷ 0 ∷ 0 ∷ 0 ∷ 0 ∷ 0 ∷ []

-- A cipher that leaves the data as they are, with a tag of zeros.
abbrev plain : AesGcm
plain = record {
  encrypt = λ key iv t. t ++ zeros;
  decrypt = λ key iv t. some (take (length t - 16) t);
}

plain-IsAesGcm : IsAesGcm plain
unfolding zeros
plain-IsAesGcm = record {
  grows = λ key iv t. length-append t zeros;
  opens = λ key iv t.
      let e : length (t ++ zeros) - 16 ≡ length t = omega (arith, length-append t zeros) in
      rw e (ap some (take-append t zeros));
}

-- What the server keeps, and how many of its next calls fail.
record Keeper : Type 0 where
  stored : Option Bytes
  failing : ℕ

abbrev stored_key : Keeper → Reply Bytes
stored_key k = elim k.stored [ none ↦ reply 404 [] | some blob ↦ reply 200 blob ]

abbrev keeper : KeyServer Keeper
keeper = record {
  get_valid_token = λ k. (ok (codes "t"), k);
  put_key = λ blob token k. elim k.failing [
    | zero ↦ (reply 200 tt, record { stored = some blob; failing = 0 })
    | suc n ↦ (lost, record k { failing = n })
  ];
  get_key = λ token k. elim k.failing [
    | zero ↦ (stored_key k, k)
    | suc n ↦ (reply 503 [], record k { failing = n })
  ];
}

keeper-IsFlaky : IsFlaky keeper (λ k. k.stored) (λ k. k.failing)
unfolding is_accepted download_outcome
keeper-IsFlaky = record {
  token = codes "t";
  authorises = λ k. refl;
  put_fails = λ blob n k fails. rw fails (refl, refl);
  put_keeps = λ blob k fine. rw fine (refl, refl);
  get_fails = λ n k fails. rw fails (refl, refl, refl);
  get_gives = λ blob k fine there. rw (fine, there) refl;
}

abbrev backup : Bytes
backup =
    encrypt_for_backup (λ password salt. salt) plain zeros (take 12 zeros) (1 ∷ 2 ∷ []) (codes "p")

download_key-upload_key_example :
    (blob : Bytes) × ((upload_key keeper backup (record { stored = none; failing = 2 })).0 ≡ ok tt)
    × ((download_key keeper (record { stored = some backup; failing = 1 })).0 ≡ ok blob)
    × (decrypt_from_backup (λ password salt. salt) plain blob (codes "p") ≡ ok (1 ∷ 2 ∷ []))
unfolding zeros upload_key
download_key-upload_key_example =
    download_key-upload_key keeper (λ k. k.stored) (λ k. k.failing) keeper-IsFlaky
      (λ password salt. salt) plain zeros (take 12 zeros) (1 ∷ 2 ∷ []) (codes "p")
      (record { stored = none; failing = 2 }) (record { stored = some backup; failing = 1 })
      plain-IsAesGcm refl refl (omega arith) refl (omega arith)

abbrev parity : ParityStore
parity = record {
  index = record { chunk_id = codes "c"; owner = codes "u"; size = 2 } ∷ [];
  files = record { name = codes "c"; content = 1 ∷ 2 ∷ [] } ∷ [];
  max_bytes = some 4;
}

-- A server at version 3 that holds one newer record.
abbrev setup : Setup
setup = record {
  aes = plain;
  encryption_key = none;
  iv = zeros;
  serialize = λ db. [];
  read_records = λ blob. ok (server_file ∷ []);
  device_name = codes "pc";
  timestamp = codes "now";
  attached = true;
  fault = fine;
  now = 9;
}

abbrev answer : Option ℕ → Reply (Option ℕ)
answer none = reply 200 (some 4)
answer (some base) = if base == 3 then reply 200 (some 4) else reply 409 none

abbrev server : Server
server = record {
  put = λ base blob. answer base;
  status = reply 200 (record { version = some 3; tombstone_retention_days = some 30 });
  get = reply 200 [];
}

server-IsCas : IsCas 3 [] server
server-IsCas = record {
  days = some 30;
  accepts = λ t. refl;
  refuses = λ base t ne. ground (arith, eq_iff base 3);
  tells = refl;
  serves = refl;
}

abbrev client : Client
client = record {
  jbod = jbod;
  last_synced_version = 1;
  consecutive_failures = 0;
  retention_seconds = 100;
  last_sync_at = none;
}

upload_metadata_settles_example :
    (get_pending_files (db_of (upload_metadata setup (λ _. server) client)) ≡ [])
    × ((upload_metadata setup (λ _. server) client).last_synced_version ≤ 4)
unfolding decrypt_blob
upload_metadata_settles_example =
    upload_metadata_settles setup 3 [] (server_file ∷ []) server server-IsCas refl client
      (omega arith)

isolate_lem_example :
    (copy : Text) × (lookup copy local_db ≡ none)
    × (((db' : Db) × (isolate setup local_file (0, local_db) ≡ (1, db'))
          × Isolated a_txt copy local_row local_db db')
        ⊎ ((row_at copy local_db ≢ none)
            × (isolate setup local_file (0, local_db) ≡ (0, local_db))))
unfolding find_row text_beq
isolate_lem_example = isolate_lem setup 0 local_db local_row local_db-IsValid refl refl

-- The password and the salt themselves, as the derived key.
abbrev joined : Text → Bytes → Bytes
joined password salt = password ++ salt
