-- ===== src/Crypto/Cbc.antt =====
-- Encryption and decryption of whole messages.
use openscraper_framework.Prelude.{◌%◌, none, some, length, ◌≡◌, refl, arith}
use openscraper_framework.Crypto.{
  Bytes, Aes, ok, pkcs5_un_padding, encrypt_padded, cbc_encrypt, cbc_decrypt,
}
use openscraper_framework.Crypto.Padding.{pkcs5_un_padding-padding}

module _ (aes : Aes)
    (decrypts : (key iv whole : Bytes)
      → aes.key_error key ≡ none
      → length iv ≡ 16
      → length whole % 16 ≡ 0
      → aes.decrypt_blocks key iv (aes.encrypt_blocks key iv whole) ≡ whole)
    (same_length : (key iv whole : Bytes)
      → length (aes.encrypt_blocks key iv whole) ≡ length whole) where
  cbc_decrypt-padded :
      (orig key iv padded : Bytes)
      → aes.key_error key ≡ none
      → length iv ≡ 16
      → pkcs5_un_padding padded ≡ some orig
      → length padded % 16 ≡ 0
      → (encrypted : Bytes) × (encrypt_padded aes key iv (some padded) ≡ ok encrypted)
        × (cbc_decrypt aes encrypted key iv ≡ ok orig)
  unfolding encrypt_padded cbc_decrypt
  cbc_decrypt-padded orig key iv padded k v u p =
      let size = same_length key iv padded in
      (
        aes.encrypt_blocks key iv padded,
        rw (v, p),
        rw (k, v, size, p, decrypts key iv padded k v p, u) refl,
      )

  -- If the cipher decrypts the whole blocks that it encrypted and keeps their length, then with a key
  -- that it takes and a vector of one block CbcEncrypt neither fails nor panics, and CbcDecrypt gives
  -- back the plaintext, of any length.
  pub cbc_decrypt-encrypt :
      (orig key iv : Bytes)
      → aes.key_error key ≡ none
      → length iv ≡ 16
      → (encrypted : Bytes) × (cbc_encrypt aes orig key iv ≡ ok encrypted)
        × (cbc_decrypt aes encrypted key iv ≡ ok orig)
  unfolding cbc_encrypt
  cbc_decrypt-encrypt orig key iv k v =
      let (padded, e, u, p) = pkcs5_un_padding-padding orig 15 (omega arith) in
      rw (k, e) (cbc_decrypt-padded orig key iv padded k v u p)
