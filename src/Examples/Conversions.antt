-- ===== src/Examples/Conversions.antt =====
-- Conversions of single entries.
use openscraper_framework.Prelude.{none, ◌≡◌, refl, arith}
use openscraper_framework.Prelude.Int.{pos, negsuc}
use openscraper_framework.Memstore.Value.{int, int64, uint, not_found, uint_kind}
use openscraper_framework.Memstore.Signed.{signed_default, int32_type}
use openscraper_framework.Memstore.Signed.Fits.{signed_default_fits}
use openscraper_framework.Memstore.Unsigned.{uint_default, unsigned_default, uint32_type}
use openscraper_framework.Memstore.Unsigned.Exact.{unsigned_default_exact, uint_default-int}
use openscraper_framework.Examples.Hosts.{holding}

signed_default_fits_example :
    (signed_default int32_type (holding (int (negsuc 300))) (negsuc 0)).0 ≡ negsuc 300
unfolding signed_default
signed_default_fits_example =
    signed_default_fits int32_type (holding (int (negsuc 300))) (negsuc 0) (negsuc 300) refl
      (omega arith) refl

unsigned_default_exact_example :
    (unsigned_default uint32_type (holding (int64 (pos 70000))) 0).0 ≡ 70000
unfolding unsigned_default
unsigned_default_exact_example =
    unsigned_default_exact uint32_type (holding (int64 (pos 70000))) 0 70000 (omega arith) refl refl

uint_default-int_example :
    (uint_default (holding (int (pos 3))) 0 ≡ (0, not_found (holding (int (pos 3))) uint_kind))
    × (uint_default (holding (uint 3)) 0 ≡ (3, none))
uint_default-int_example =
    uint_default-int (holding (int (pos 3))) (holding (uint 3)) (pos 3) 0 3 refl refl
