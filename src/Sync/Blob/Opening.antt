-- ===== src/Sync/Blob/Opening.antt =====
-- The blob on the server can be opened again.
use stardustfs.Prelude.{
  Bytes, Option, none, some, ◌++◌, ◌≡◌, ◌-◌, refl, arith, ap, ◌∙◌, ok, length, take, drop,
  take-append-drop, drop-drop, take_exact, drop_exact, false, length-append, length-drop, ltb,
}
use stardustfs.Sync.Blob.{AesGcm, IsAesGcm, encrypt_blob, decrypt_blob, opened}

tag_length :
    (aes : AesGcm)
    → IsAesGcm aes
    → (key iv t : Bytes)
    → length (drop (length (aes.encrypt key iv t) - 16) (aes.encrypt key iv t)) ≡ 16
tag_length aes lawful key iv t = omega (
  arith,
  lawful.grows key iv t,
  length-drop (length (aes.encrypt key iv t) - 16) (aes.encrypt key iv t),
)

open_parts :
    (aes : AesGcm) (key iv tag body : Bytes)
    → length iv ≡ 12
    → length tag ≡ 16
    → decrypt_blob aes (some key) (iv ++ (tag ++ body)) ≡ opened (aes.decrypt key iv (body ++ tag))
unfolding decrypt_blob
open_parts aes key iv tag body size tagged =
    let behind : drop 12 (iv ++ (tag ++ body)) ≡ tag ++ body =
      drop_exact 12 iv (tag ++ body) size in
    let last : drop 28 (iv ++ (tag ++ body)) ≡ body =
      drop-drop 12 16 (iv ++ (tag ++ body)) ∙ rw behind (drop_exact 16 tag body tagged) in
    let long : ltb (length (iv ++ (tag ++ body))) 28 ≡ false =
      ground (arith, size, tagged, length-append iv (tag ++ body), length-append tag body) in
    rw (long, take_exact 12 iv (tag ++ body) size, behind, take_exact 16 tag body tagged, last) refl

-- With a lawful cipher and an initialisation vector of 12 bytes, every blob that `_encrypt_blob`
-- makes, `_decrypt_blob` opens with the same key, also where the client has no key.
pub decrypt_blob-encrypt_blob :
    (aes : AesGcm) (key : Option Bytes) (iv t : Bytes)
    → IsAesGcm aes
    → length iv ≡ 12
    → decrypt_blob aes key (encrypt_blob aes key iv t) ≡ ok t
unfolding encrypt_blob decrypt_blob
decrypt_blob-encrypt_blob aes none iv t lawful size = refl
decrypt_blob-encrypt_blob aes (some key) iv t lawful size =
    let sealed = aes.encrypt key iv t in
    let cut = length sealed - 16 in
    open_parts aes key iv (drop cut sealed) (take cut sealed) size (tag_length aes lawful key iv t)
    ∙ ap (λ c. opened (aes.decrypt key iv c)) (take-append-drop cut sealed)
    ∙ ap opened (lawful.opens key iv t)
