-- ===== src/Encryption/Format.antt =====
-- The encrypted file carries what its decryption needs.
use stardustfs.Prelude.{
  suc, Bytes, ◌∷◌, ◌++◌, ◌≡◌, refl, arith, ap, ◌∙◌, ok, length, drop, drop-drop, take_exact,
  drop_exact, append_assoc, text_beq, false, length-append, text_eq, ltb,
}
use stardustfs.Encryption.{
  Gcm, IsGcm, version_byte, mode_gcm, magic, header_size, encrypt, decrypt, opened,
}

-- The fields of a header with their sizes.
decrypt_parts :
    (gcm : Gcm) (key iv tag ciphertext : Bytes)
    → length iv ≡ 16
    → length tag ≡ 16
    → decrypt gcm key ((magic ++ version_byte ∷ mode_gcm ∷ (iv ++ tag)) ++ ciphertext)
      ≡ opened (gcm.decryptor key iv tag ciphertext)
unfolding decrypt text_beq
decrypt_parts gcm key iv tag ciphertext size tagged =
    let rest = iv ++ (tag ++ ciphertext) in
    let behind : drop 16 rest ≡ tag ++ ciphertext = drop_exact 16 iv (tag ++ ciphertext) size in
    let last : drop 32 rest ≡ ciphertext =
      drop-drop 16 16 rest ∙ rw behind (drop_exact 16 tag ciphertext tagged) in
    let long : ltb (suc (suc (suc (suc (suc (suc (length rest))))))) header_size ≡ false =
      ground
        (arith, size, tagged, length-append iv (tag ++ ciphertext), length-append tag ciphertext) in
    rw
      (
        append_assoc iv tag ciphertext,
        take_exact 16 iv (tag ++ ciphertext) size,
        behind,
        take_exact 16 tag ciphertext tagged,
        last,
        long,
      )
      refl

-- With a lawful cipher and an initialisation vector of 16 bytes, what `encrypt` writes, `decrypt`
-- with the same key gives back, whatever the data.
pub decrypt-encrypt :
    (gcm : Gcm) (key iv t : Bytes)
    → IsGcm gcm
    → length iv ≡ 16
    → decrypt gcm key (encrypt gcm key iv t) ≡ ok t
unfolding encrypt
decrypt-encrypt gcm key iv t lawful size =
    decrypt_parts gcm key iv (gcm.encryptor key iv t).1 (gcm.encryptor key iv t).0 size
      (lawful.tag_size key iv t)
    ∙ ap opened (lawful.opens key iv t)
