-- ===== src/KeyBackup.antt =====
-- stardustlib/key_backup_engine.py: the backup of the master key under a password. The key derivation
-- PBKDF2 is the argument `derive_key` of a password and a salt, the class AESGCM is `aes`; the salt
-- and the initialisation vector of `os.urandom` are given with each call.
pub mod Restoring
use stardustfs.Prelude.{
  ℕ, Text, Bytes, Option, none, some, ◌++◌, ◌-◌, if◌then◌else◌, Result, ok, err, integrity_error,
  length, take, drop, ltb,
}
use stardustfs.Sync.Blob.{AesGcm}

abbrev pub salt_size : ℕ
salt_size = 16

abbrev pub iv_size : ℕ
iv_size = 12

abbrev pub tag_size : ℕ
tag_size = 16

module _ (derive_key : Text → Bytes → Bytes) (aes : AesGcm) where
  unfoldable pub encrypt_for_backup : Bytes → Bytes → Bytes → Text → Bytes
  encrypt_for_backup salt iv master_key password =
      let sealed = aes.encrypt (derive_key password salt) iv master_key in
      let cut = length sealed - tag_size in salt ++ (iv ++ (drop cut sealed ++ take cut sealed))

  abbrev pub restored : Option Bytes → Result Bytes
  restored none = err integrity_error
  restored (some master_key) = ok master_key

  -- The fields of the blob at their offsets.
  unfoldable pub decrypt_from_backup : Bytes → Text → Result Bytes
  decrypt_from_backup blob password =
      let salt = take salt_size blob in
      let iv = take iv_size (drop 16 blob) in
      let tag = take tag_size (drop 28 blob) in
      if ltb (length blob) 44
      then err integrity_error
      else restored (aes.decrypt (derive_key password salt) iv (drop 44 blob ++ tag))
