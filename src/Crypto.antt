-- ===== src/Crypto.antt =====
-- util/crypto_utils: the padding of PKCS5, and AES in CBC mode over it. The block cipher is Go's
-- crypto/aes and crypto/cipher: a parameter. `none` is a panic.
pub mod Padding
pub mod Cbc
use openscraper_framework.Prelude.{
  ℕ, zero, suc, ◌-◌, ◌%◌, Option, none, some, List, ◌++◌, length, get_elem?, take, replicate, leb,
  ◌==◌, ◌&&◌, Bool, if◌then◌else◌, ◌⊎◌, inl, inr,
}

abbrev pub Bytes : Type 0
Bytes = List ℕ

-- PKCS5Padding; a remainder by the block size 0 panics.
unfoldable pub pkcs5_padding : Bytes → ℕ → Option Bytes
pkcs5_padding plaintext zero = none
pkcs5_padding plaintext (suc b) =
    let padding = suc b - length plaintext % suc b in
    some (plaintext ++ replicate padding (padding % 256))

-- `origData[:(length - un)]`
cut_last : Bytes → Option ℕ → Option Bytes
cut_last orig none = none
cut_last orig (some un) = if leb un (length orig) then some (take (length orig - un) orig) else none

last_byte : Bytes → Option ℕ
last_byte orig = if leb 1 (length orig) then get_elem? orig (length orig - 1) else none

-- PKCS5UnPadding
unfoldable pub pkcs5_un_padding : Bytes → Option Bytes
unfolding cut_last last_byte
pkcs5_un_padding orig = cut_last orig (last_byte orig)

-- What crypto/aes does: NewCipher checks the key, and CryptBlocks works on whole blocks.
pub record Aes : Type 1 where
  pub Err : Type 0
  pub key_error : Bytes → Option Err
  pub encrypt_blocks : Bytes → Bytes → Bytes → Bytes
  pub decrypt_blocks : Bytes → Bytes → Bytes → Bytes

-- The result with its error, or a panic.
pub data Crypted (aes : Aes) : Type 0 where
  ok : Bytes → Crypted aes
  error : aes.Err → Crypted aes
  panics : Crypted aes

module _ (aes : Aes) where
  -- NewCBCEncrypter and NewCBCDecrypter panic on a wrong vector, CryptBlocks on a part of a block.
  abbrev fits : Bytes → Bytes → Bool
  fits iv data_in = (length iv == 16) && (length data_in % 16 == 0)

  encrypt_padded : Bytes → Bytes → Option Bytes → Crypted aes
  encrypt_padded key iv none = panics
  encrypt_padded key iv (some padded) =
      if fits iv padded then ok (aes.encrypt_blocks key iv padded) else panics

  -- `block, err := aes.NewCipher(key); if err != nil { return nil, err }`
  abbrev keyed : Option aes.Err → Crypted aes → Crypted aes
  keyed none result = result
  keyed (some e) result = error e

  pub cbc_encrypt : Bytes → Bytes → Bytes → Crypted aes
  unfolding encrypt_padded
  cbc_encrypt orig key iv =
      keyed (aes.key_error key) (encrypt_padded key iv (pkcs5_padding orig 16))

  unpadded : Option Bytes → Crypted aes
  unpadded none = panics
  unpadded (some orig) = ok orig

  pub cbc_decrypt : Bytes → Bytes → Bytes → Crypted aes
  unfolding unpadded pkcs5_un_padding
  cbc_decrypt encrypted key iv = keyed (aes.key_error key) (
      if fits iv encrypted
      then unpadded (pkcs5_un_padding (aes.decrypt_blocks key iv encrypted))
      else panics)
