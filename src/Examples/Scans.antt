-- ===== src/Examples/Scans.antt =====
-- A server with three pages, of which one is empty.
use openscraper_framework.Prelude.{ℕ, zero, suc, none, some, [], ◌∷◌, ◌≡◌, refl}
use openscraper_framework.Prelude.Text.{Text, bytes, eqb}
use openscraper_framework.KvScan.{
  Cmd, unexpected_length, val, val_parts, slice, KvScanIterator, iterator, fetch, drain,
}
use openscraper_framework.KvScan.Malformed.{fetch-malformed}
use openscraper_framework.KvScan.Draining.{page_of, drain-iterator}

abbrev server : ℕ → Text → Cmd ℕ
server zero cursor = page_of (bytes "7") []
server (suc n) cursor = page_of (bytes "0") (bytes "c" ∷ [])

drain-iterator_example :
    drain server 3 4 (iterator (page_of (bytes "5") (bytes "a" ∷ bytes "b" ∷ [])))
    ≡ some (bytes "a" ∷ bytes "b" ∷ bytes "c" ∷ [])
unfolding eqb
drain-iterator_example =
    drain-iterator server (bytes "5") (bytes "a" ∷ bytes "b" ∷ []) ([] ∷ (bytes "c" ∷ []) ∷ [])
      (refl, (bytes "7", refl, (refl, (bytes "0", refl, refl))))

abbrev broken : ℕ → Text → Cmd ℕ
broken n cursor = slice []

abbrev at_start : KvScanIterator ℕ
at_start = record { base_cmd = slice []; page = []; cursor = bytes "5"; pos = 0; sent = 0 }

fetch-malformed_example : fetch broken 1000 at_start ≡ none
unfolding eqb val val_parts
fetch-malformed_example =
    fetch-malformed broken at_start 1000 (λ n cursor. (refl, (unexpected_length 0, refl))) refl
