-- ===== src/Encryption.antt =====
-- stardustlib/encryption_engine.py: the file format of EncryptionEngine around AES-256-GCM, which is
-- the argument `gcm`; the initialisation vector of `os.urandom(16)` is given with each call.
pub mod Format
use stardustfs.Prelude.{
  ℕ, Bytes, Bool, true, false, Option, none, some, List, [], ◌∷◌, ◌++◌, ◌==◌, nat_eq, text_eq,
  if◌then◌else◌, not, Result, ok, err, invalid_key, decryption_error, integrity_error, length, take,
  drop, codes, ltb, ◌≡◌,
}

-- `Cipher(algorithms.AES(key), modes.GCM(iv))`: the encryptor's ciphertext with its tag, and the
-- decryptor, which answers nothing where the tag does not fit.
pub record Gcm : Type 0 where
  pub encryptor : Bytes → Bytes → Bytes → Bytes × Bytes
  pub decryptor : Bytes → Bytes → Bytes → Bytes → Option Bytes

-- The documented behaviour: a tag of 16 bytes, with which the decryptor gives the data back.
pub record IsGcm (gcm : Gcm) : Type 0 where
  pub tag_size : (key iv t : Bytes) → length (gcm.encryptor key iv t).1 ≡ 16
  pub opens :
      (key iv t : Bytes)
      → gcm.decryptor key iv (gcm.encryptor key iv t).1 (gcm.encryptor key iv t).0 ≡ some t

abbrev pub header_size : ℕ
header_size = 38

abbrev pub magic : Bytes
magic = codes "SDFS"

abbrev pub version_byte : ℕ
version_byte = 1

abbrev pub mode_gcm : ℕ
mode_gcm = 1

unfoldable pub validate_key : Bytes → Bool
validate_key key = length key == 32

-- The constructor: the engine is its key.
unfoldable pub new_engine : Bytes → Result Bytes
new_engine key = if validate_key key then ok key else err invalid_key

unfoldable pub encrypt : Gcm → Bytes → Bytes → Bytes → Bytes
encrypt gcm key iv plaintext =
    let (ciphertext, tag) = gcm.encryptor key iv plaintext in
    (magic ++ version_byte ∷ mode_gcm ∷ (iv ++ tag)) ++ ciphertext

-- `encrypted_data[a:b]`
abbrev pub field : ℕ → ℕ → Bytes → Bytes
field a n t = take n (drop a t)

abbrev pub opened : Option Bytes → Result Bytes
opened none = err integrity_error
opened (some t) = ok t

unfoldable pub decrypt : Gcm → Bytes → Bytes → Result Bytes
decrypt gcm key t =
    if ltb (length t) header_size
    then err decryption_error
    else if not (take 4 t == magic)
    then err decryption_error
    else opened (gcm.decryptor key (field 6 16 t) (field 22 16 t) (drop 38 t))
