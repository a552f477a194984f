-- ===== src/Sync/Keys/Backup.antt =====
-- The backup of the key by way of the server.
use stardustfs.Prelude.{
  ℕ, zero, suc, Text, Bytes, true, false, Option, none, some, ok, ◌≡◌, ◌≤◌, ◌<◌, refl, arith, ap,
  ◌∙◌, length,
}
use stardustfs.Network.{reply}
use stardustfs.Sync.Blob.{AesGcm, IsAesGcm}
use stardustfs.KeyBackup.{encrypt_for_backup, decrypt_from_backup}
use stardustfs.KeyBackup.Restoring.{decrypt_from_backup-encrypt_for_backup}
use stardustfs.Sync.Keys.{
  KeyServer, is_accepted, download_outcome, upload_attempts, put_once, get_once, after_put,
  after_get, upload_key, download_attempts, download_key,
}

-- A server that `failures` calls fail of, and that keeps the key it accepts.
pub record IsFlaky {W : Type 0} (server : KeyServer W) (kept : W → Option Bytes) (failures : W → ℕ)
    : Type 0 where
  pub token : Text
  pub authorises : (w : W) → server.get_valid_token w ≡ (ok token, w)
  pub put_fails :
      (blob : Bytes) (n : ℕ) (w : W)
      → failures w ≡ suc n
      → (is_accepted (server.put_key blob token w).0 ≡ false)
        × (failures (server.put_key blob token w).1 ≡ n)
  pub put_keeps :
      (blob : Bytes) (w : W)
      → failures w ≡ 0
      → (is_accepted (server.put_key blob token w).0 ≡ true)
        × (kept (server.put_key blob token w).1 ≡ some blob)
  pub get_fails :
      (n : ℕ) (w : W)
      → failures w ≡ suc n
      → (download_outcome (server.get_key token w).0 ≡ none)
        × (failures (server.get_key token w).1 ≡ n)
        × (kept (server.get_key token w).1 ≡ kept w)
  pub get_gives :
      (blob : Bytes) (w : W)
      → failures w ≡ 0
      → kept w ≡ some blob
      → (server.get_key token w).0 ≡ reply 200 blob

module _ {W : Type 0} (server : KeyServer W) (kept : W → Option Bytes) (failures : W → ℕ)
    (flaky : IsFlaky server kept failures) where
  own_put :
      (blob : Bytes) (w : W)
      → put_once server blob (server.get_valid_token w) ≡ server.put_key blob flaky.token w
  own_put blob w = ap (put_once server blob) (flaky.authorises w)

  own_get : (w : W) → get_once server (server.get_valid_token w) ≡ server.get_key flaky.token w
  own_get w = ap (get_once server) (flaky.authorises w)

  upload_attempts-suc :
      (left : ℕ) (blob : Bytes) (w : W)
      → upload_attempts server (suc left) blob w
        ≡ after_put server (upload_attempts server left blob) (server.put_key blob flaky.token w)
  unfolding upload_attempts
  upload_attempts-suc left blob w =
      ap (after_put server (upload_attempts server left blob)) (own_put blob w)

  download_attempts-suc :
      (left : ℕ) (w : W)
      → download_attempts server (suc left) w
        ≡ after_get server (download_attempts server left) (server.get_key flaky.token w)
  unfolding download_attempts
  download_attempts-suc left w = ap (after_get server (download_attempts server left)) (own_get w)

  upload_attempts_lem :
      (n left : ℕ) (blob : Bytes) (w : W)
      → failures w ≡ n
      → n < left
      → ((upload_attempts server left blob w).0 ≡ ok tt)
        × (kept (upload_attempts server left blob w).1 ≡ some blob)
  upload_attempts_lem n zero blob w count enough = absurd (omega (arith, enough))
  upload_attempts_lem zero (suc left) blob w count enough =
      let (accepted, keeps) = flaky.put_keeps blob w count in
      rw (upload_attempts-suc left blob w, after_put, accepted) (refl, keeps)
  upload_attempts_lem (suc n) (suc left) blob w count enough =
      let (refused, fewer) = flaky.put_fails blob n w count in
      rw (upload_attempts-suc left blob w, after_put, refused)
        (upload_attempts_lem n left blob (server.put_key blob flaky.token w).1 fewer
          (omega (arith, enough)))

  download_attempts_lem :
      (n left : ℕ) (blob : Bytes) (w : W)
      → failures w ≡ n
      → n < left
      → kept w ≡ some blob
      → (download_attempts server left w).0 ≡ ok blob
  unfolding download_outcome
  download_attempts_lem n zero blob w count enough there = absurd (omega (arith, enough))
  download_attempts_lem zero (suc left) blob w count enough there =
      rw (download_attempts-suc left w, after_get, flaky.get_gives blob w count there) refl
  download_attempts_lem (suc n) (suc left) blob w count enough there =
      let (unanswered, fewer, same) = flaky.get_fails n w count in
      rw (download_attempts-suc left w, after_get, unanswered)
        (download_attempts_lem n left blob (server.get_key flaky.token w).1 fewer
          (omega (arith, enough)) (same ∙ there))

  -- With a lawful cipher, if at most two calls to the server fail each time, a device's upload of its
  -- key's backup returns, another device's download gives the backup as long as the server keeps it,
  -- and the password restores the master key from it.
  pub download_key-upload_key :
      (derive_key : Text → Bytes → Bytes) (aes : AesGcm) (salt iv master_key : Bytes)
      (password : Text) (w v : W)
      → IsAesGcm aes
      → length salt ≡ 16
      → length iv ≡ 12
      → failures w ≤ 2
      → kept v
        ≡ kept
            (upload_key server (encrypt_for_backup derive_key aes salt iv master_key password) w).1
      → failures v ≤ 2
      → (blob : Bytes) × ((upload_key server
            (encrypt_for_backup derive_key aes salt iv master_key password)
            w).0
          ≡ ok tt)
        × ((download_key server v).0 ≡ ok blob)
        × (decrypt_from_backup derive_key aes blob password ≡ ok master_key)
  unfolding upload_key download_key
  download_key-upload_key derive_key aes salt iv master_key password w v lawful salted size few same
        few' =
      let blob = encrypt_for_backup derive_key aes salt iv master_key password in
      let (done, keeps) = upload_attempts_lem (failures w) 3 blob w refl (omega (arith, few)) in
      (
        blob,
        done,
        download_attempts_lem (failures v) 3 blob v refl (omega (arith, few')) (same ∙ keeps),
        decrypt_from_backup-encrypt_for_backup derive_key aes salt iv master_key password lawful
            salted size,
      )
