-- ===== src/Examples/Ciphers.antt =====
-- A cipher that adds one to every byte, and takes keys of 16 bytes.
use openscraper_framework.Prelude.{
  suc, pred, none, some, [], ◌∷◌, length, replicate, ◌≡◌, refl, ap, ◌==◌, if◌then◌else◌,
}
use openscraper_framework.Crypto.{Bytes, Aes, ok, cbc_encrypt, cbc_decrypt}
use openscraper_framework.Crypto.Cbc.{cbc_decrypt-encrypt}

abbrev up : Bytes → Bytes
up [] = []
up (b ∷ bs) = suc b ∷ up bs

abbrev down : Bytes → Bytes
down [] = []
down (b ∷ bs) = pred b ∷ down bs

abbrev shifting : Aes
shifting = record {
  Err = Unit;
  key_error = λ key. if length key == 16 then none else some tt;
  encrypt_blocks = λ key iv data_in. up data_in;
  decrypt_blocks = λ key iv data_in. down data_in;
}

down-up : (bs : Bytes) → down (up bs) ≡ bs
down-up [] = refl
down-up (b ∷ bs) = ap (λ l. b ∷ l) (down-up bs)

length-up : (bs : Bytes) → length (up bs) ≡ length bs
length-up [] = refl
length-up (b ∷ bs) = ap suc (length-up bs)

abbrev sixteen : Bytes
sixteen = replicate 16 7

cbc_decrypt-encrypt_example :
    (encrypted : Bytes) × (cbc_encrypt shifting (1 ∷ 2 ∷ 3 ∷ []) sixteen sixteen ≡ ok encrypted)
    × (cbc_decrypt shifting encrypted sixteen sixteen ≡ ok (1 ∷ 2 ∷ 3 ∷ []))
cbc_decrypt-encrypt_example =
    cbc_decrypt-encrypt shifting (λ key iv whole k v l. down-up whole)
      (λ key iv whole. length-up whole) (1 ∷ 2 ∷ 3 ∷ []) sixteen sixteen refl refl
