-- ===== src/Sync/Blob.antt =====
-- `_encrypt_blob` and `_decrypt_blob` of stardustlib/sync_client.py around the AESGCM class, which
-- is the argument `aes`; the 12 bytes of `os.urandom` are given with each call.
pub mod Opening
use stardustfs.Prelude.{
  ℕ, Bytes, Option, none, some, ◌++◌, ◌+◌, ◌-◌, if◌then◌else◌, Result, ok, err, key_mismatch,
  length, take, drop, ltb, ◌≡◌,
}

-- AESGCM(key).encrypt(iv, data, None), which ends with the tag, and its decrypt.
pub record AesGcm : Type 0 where
  pub encrypt : Bytes → Bytes → Bytes → Bytes
  pub decrypt : Bytes → Bytes → Bytes → Option Bytes

-- The documented behaviour: a tag of 16 bytes is appended, and decrypting gives the data back.
pub record IsAesGcm (aes : AesGcm) : Type 0 where
  pub grows : (key iv t : Bytes) → length (aes.encrypt key iv t) ≡ length t + 16
  pub opens : (key iv t : Bytes) → aes.decrypt key iv (aes.encrypt key iv t) ≡ some t

unfoldable pub encrypt_blob : AesGcm → Option Bytes → Bytes → Bytes → Bytes
encrypt_blob aes none iv plaintext = plaintext
encrypt_blob aes (some key) iv plaintext =
    let sealed = aes.encrypt key iv plaintext in
    let cut = length sealed - 16 in iv ++ (drop cut sealed ++ take cut sealed)

abbrev pub opened : Option Bytes → Result Bytes
opened none = err key_mismatch
opened (some t) = ok t

unfoldable pub decrypt_blob : AesGcm → Option Bytes → Bytes → Result Bytes
decrypt_blob aes none t = ok t
decrypt_blob aes (some key) t =
    if ltb (length t) 28
    then err key_mismatch
    else opened (aes.decrypt key (take 12 t) (drop 28 t ++ take 16 (drop 12 t)))
