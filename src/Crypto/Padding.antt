-- ===== src/Crypto/Padding.antt =====
-- Padding and taking it off again.
use openscraper_framework.Prelude.{
  ℕ, zero, suc, ◌+◌, ◌-◌, ◌%◌, ◌≤◌, ◌<◌, some, [], ◌∷◌, ◌++◌, length, get_elem?, take, replicate,
  ◌≡◌, refl, ap, ◌∙◌, arith, length-append, length-replicate, take-append, sym, le→leb,
}
use native.Mathlib.Nat.{mod-lt, zero-lt-suc, mod-add-mod, mod_self}
use openscraper_framework.Crypto.{Bytes, pkcs5_padding, pkcs5_un_padding, cut_last, last_byte}

-- The last byte is one of the padding.
get_elem?-replicate :
    (xs : Bytes) (n a i : ℕ) → i ≡ length xs + n → get_elem? (xs ++ replicate (suc n) a) i ≡ some a
get_elem?-replicate [] zero a i e = rw e
get_elem?-replicate [] (suc n) a zero e = absurd (omega arith)
get_elem?-replicate [] (suc n) a (suc i) e = get_elem?-replicate [] n a i (omega arith)
get_elem?-replicate (x ∷ xs) n a zero e = absurd (omega arith)
get_elem?-replicate (x ∷ xs) n a (suc i) e = get_elem?-replicate xs n a i (omega arith)

pub length-padded : (xs : Bytes) (n a : ℕ) → length (xs ++ replicate n a) ≡ length xs + n
length-padded xs n a = omega (arith, length-append xs (replicate n a), length-replicate n a)

-- Padding of one to 255 bytes comes off.
un_padding-replicate :
    (xs : Bytes) (n : ℕ)
    → suc n < 256
    → pkcs5_un_padding (xs ++ replicate (suc n) (suc n % 256)) ≡ some xs
unfolding pkcs5_un_padding last_byte cut_last
un_padding-replicate xs n l =
    let small : suc n % 256 ≡ suc n = omega arith in
    let size : length (xs ++ replicate (suc n) (suc n)) ≡ length xs + suc n =
      length-padded xs (suc n) (suc n) in
    rw
      (
        small,
        size,
        le→leb 1 (length xs + suc n) (omega arith),
        get_elem?-replicate xs n (suc n) (length xs + suc n - 1) (omega arith),
      )
      (rw (size, le→leb (suc n) (length xs + suc n) (omega arith)) (ap some (kept xs n)))
  where
    kept :
        (xs : Bytes) (n : ℕ)
        → take (length xs + suc n - suc n) (xs ++ replicate (suc n) (suc n)) ≡ xs
    kept xs n =
        let back : length xs + suc n - suc n ≡ length xs = omega arith in
        rw back (take-append xs (replicate (suc n) (suc n)))

whole_blocks : (n m : ℕ) → n % m ≤ m → (n + (m - n % m)) % m ≡ 0
whole_blocks n m l =
    let full : n % m + (m - n % m) ≡ m = omega arith in
    sym (mod-add-mod n m (m - n % m)) ∙ ap (λ x. x % m) full ∙ mod_self m

-- PKCS5UnPadding takes off what PKCS5Padding puts on, for every block size from 1 to 255, and the
-- padded bytes are whole blocks.
pub pkcs5_un_padding-padding :
    (plaintext : Bytes) (b : ℕ)
    → suc b < 256
    → (padded : Bytes) × (pkcs5_padding plaintext (suc b) ≡ some padded)
      × (pkcs5_un_padding padded ≡ some plaintext)
      × (length padded % suc b ≡ 0)
unfolding pkcs5_padding
pkcs5_un_padding-padding plaintext b l =
    let r = length plaintext % suc b in
    let less : r < suc b = mod-lt (length plaintext) (zero-lt-suc b) in
    let some_bytes : suc b - r ≡ suc (b - r) = omega arith in
    (
      plaintext ++ replicate (suc b - r) ((suc b - r) % 256),
      refl,
      rw some_bytes (un_padding-replicate plaintext (b - r) (omega arith)),
      rw (length-padded plaintext (suc b - r) ((suc b - r) % 256))
          (whole_blocks (length plaintext) (suc b) (omega arith)),
    )
