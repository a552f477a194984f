-- ===== src/KeyBackup/Restoring.antt =====
-- The master key can be restored from its backup.
use stardustfs.Prelude.{
  Text, Bytes, false, ◌++◌, ◌≡◌, ◌-◌, refl, arith, ap, ◌∙◌, ok, length, take, drop, drop-drop,
  take_exact, drop_exact, take-append-drop, length-append, length-drop, ltb,
}
use stardustfs.Sync.Blob.{AesGcm, IsAesGcm}
use stardustfs.KeyBackup.{encrypt_for_backup, decrypt_from_backup, restored}

module _ (derive_key : Text → Bytes → Bytes) (aes : AesGcm) where
  restore_parts :
      (salt iv tag body : Bytes) (password : Text)
      → length salt ≡ 16
      → length iv ≡ 12
      → length tag ≡ 16
      → decrypt_from_backup derive_key aes (salt ++ (iv ++ (tag ++ body))) password
        ≡ restored derive_key aes (aes.decrypt (derive_key password salt) iv (body ++ tag))
  unfolding decrypt_from_backup
  restore_parts salt iv tag body password salted size tagged =
      let blob = salt ++ (iv ++ (tag ++ body)) in
      let first : drop 16 blob ≡ iv ++ (tag ++ body) =
        drop_exact 16 salt (iv ++ (tag ++ body)) salted in
      let second : drop 28 blob ≡ tag ++ body =
        drop-drop 16 12 blob ∙ rw first (drop_exact 12 iv (tag ++ body) size) in
      let third : drop 44 blob ≡ body =
        drop-drop 28 16 blob ∙ rw second (drop_exact 16 tag body tagged) in
      let long : ltb (length blob) 44 ≡ false = ground (
        arith,
        salted,
        size,
        tagged,
        length-append salt (iv ++ (tag ++ body)),
        length-append iv (tag ++ body),
        length-append tag body,
      ) in
      rw
        (
          long,
          take_exact 16 salt (iv ++ (tag ++ body)) salted,
          first,
          take_exact 12 iv (tag ++ body) size,
          second,
          take_exact 16 tag body tagged,
          third,
        )
        refl

-- With a lawful cipher, a salt of 16 bytes and an initialisation vector of 12, the password that a
-- backup was made with restores the master key from it.
pub decrypt_from_backup-encrypt_for_backup :
    (derive_key : Text → Bytes → Bytes) (aes : AesGcm) (salt iv master_key : Bytes)
    (password : Text)
    → IsAesGcm aes
    → length salt ≡ 16
    → length iv ≡ 12
    → decrypt_from_backup derive_key aes
        (encrypt_for_backup derive_key aes salt iv master_key password)
        password
      ≡ ok master_key
unfolding encrypt_for_backup
decrypt_from_backup-encrypt_for_backup derive_key aes salt iv master_key password lawful salted
      size =
    let key = derive_key password salt in
    let sealed = aes.encrypt key iv master_key in
    let cut = length sealed - 16 in
    let tagged : length (drop cut sealed) ≡ 16 =
      omega (arith, lawful.grows key iv master_key, length-drop cut sealed) in
    restore_parts derive_key aes salt iv (drop cut sealed) (take cut sealed) password salted size
      tagged
    ∙ ap (λ c. restored derive_key aes (aes.decrypt key iv c)) (take-append-drop cut sealed)
    ∙ ap (restored derive_key aes) (lawful.opens key iv master_key)
