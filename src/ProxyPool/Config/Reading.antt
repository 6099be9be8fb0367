-- ===== src/ProxyPool/Config/Reading.antt =====
-- What a line of configuration gives.
use openscraper_framework.Prelude.{
  ℕ, zero, suc, ◌+◌, ◌*◌, ◌<◌, ◌≤◌, none, some, [], ◌∷◌, ◌++◌, length, drop, leb, le→leb, ◌⊎◌, inr,
  ◌≡◌, refl, ap, ◌∙◌, arith, false,
}
use openscraper_framework.Prelude.Int.{ℤ, pos, to_signed}
use openscraper_framework.Prelude.Convert.{to_signed_fits}
use openscraper_framework.Prelude.Text.{Text, bytes}
use openscraper_framework.Prelude.Dict
use openscraper_framework.Prelude.Dict.{Dict}
use openscraper_framework.Strconv.{itoa, parse_int}
use openscraper_framework.Strconv.RoundTrip.{parse_int-itoa}
use openscraper_framework.Memstore.Value.{half64}
use openscraper_framework.ProxyPool.{if_zero, new_classic_pool}
use openscraper_framework.ProxyPool.Config.{
  Protocol, Url, ProxyConfig, config, panics, protocol_of, plain, after_scheme, of_host, of_url,
  of_parse, parse_config_from_string, get_drop_proxy_point, get_filter_proxy_sec,
  get_fetch_proxy_timeout, classic_pool_of, param, seconds_or,
}

drop-scheme :
    (s rest : Text) (n : ℕ) → n ≡ length s + 3 → drop n (s ++ (bytes "://" ++ rest)) ≡ rest
drop-scheme [] rest n e = rw e
drop-scheme (c ∷ s) rest zero e = absurd (omega arith)
drop-scheme (c ∷ s) rest (suc n) e = drop-scheme s rest n (omega arith)

length-scheme : (s rest : Text) → length s + 3 ≤ length (s ++ (bytes "://" ++ rest))
length-scheme [] rest = omega arith
length-scheme (c ∷ s) rest = omega (arith, length-scheme s rest)

module _ {Err Builder : Type 0} (parse : Text → Err ⊎ Url) (builders : Dict Builder) where
  -- A line `scheme://rest` that url.Parse accepts, with a known scheme of that length and a host that is
  -- no registered provider, is a plain proxy, and `rest` is its address, unchanged.
  pub parse_config_from_string-plain :
      (s rest : Text) (url : Url) (protocol : Protocol)
      → parse (s ++ (bytes "://" ++ rest)) ≡ inr url
      → length url.scheme ≡ length s
      → protocol_of url.scheme ≡ some protocol
      → Dict.get url.host builders ≡ none
      → parse_config_from_string parse builders (s ++ (bytes "://" ++ rest))
        ≡ config (plain protocol rest)
  unfolding parse_config_from_string of_parse of_url of_host after_scheme
  parse_config_from_string-plain s rest url protocol p l k n =
      let size : length s + 3 ≤ length (s ++ (bytes "://" ++ rest)) = length-scheme s rest in
      rw (p, k, n, l, le→leb _ _ size) (rw (drop-scheme s rest (length s + 3) refl))

  -- A line that url.Parse accepts with a known scheme and a host that is no registered provider, but
  -- that is shorter than its scheme and `://`, panics.
  pub parse_config_from_string-panics :
      (str : Text) (url : Url) (protocol : Protocol)
      → parse str ≡ inr url
      → protocol_of url.scheme ≡ some protocol
      → Dict.get url.host builders ≡ none
      → length str < length url.scheme + 3
      → parse_config_from_string parse builders str ≡ panics
  unfolding parse_config_from_string of_parse of_url of_host after_scheme
  parse_config_from_string-panics str url protocol p k n l =
      let short : leb (length url.scheme + 3) (length str) ≡ false = ground arith in
      rw (p, k, n, short)

small_seconds :
    (n : ℕ)
    → n * 1000000000 < half64
    → to_signed half64 (pos (n * 1000000000)) ≡ pos (n * 1000000000)
small_seconds n l = to_signed_fits half64 (pos (n * 1000000000)) (omega arith)

if_zero_kept : (n : ℕ) (d : ℤ) → 0 < n → if_zero (pos n) d ≡ pos n
if_zero_kept zero d l = absurd (omega arith)
if_zero_kept (suc n) d l = refl

param_written :
    (c : ProxyConfig) (key : Text) (n : ℕ)
    → c.params key ≡ itoa (pos n)
    → n < half64
    → param c key ≡ pos n
param_written c key n e l =
    ap (λ t. (parse_int half64 t).0) e ∙ ap (λ p. p.0) (parse_int-itoa half64 (pos n) (omega arith))

drop_in_written :
    (c : ProxyConfig) (n : ℕ)
    → c.params (bytes "drop_in") ≡ itoa (pos (suc n))
    → suc n * 1000000000 < half64
    → get_drop_proxy_point c ≡ pos (suc n * 1000000000)
unfolding get_drop_proxy_point
drop_in_written c n e l =
    ap (λ v. seconds_or v (pos 5000000000))
      (param_written c (bytes "drop_in") (suc n) e (omega arith))
    ∙ small_seconds (suc n) l

timeout_written :
    (c : ProxyConfig) (n : ℕ)
    → c.params (bytes "timeout") ≡ itoa (pos (suc n))
    → suc n * 1000000000 < half64
    → get_fetch_proxy_timeout c ≡ pos (suc n * 1000000000)
unfolding get_fetch_proxy_timeout
timeout_written c n e l =
    ap (λ v. seconds_or v (pos 15000000000))
      (param_written c (bytes "timeout") (suc n) e (omega arith))
    ∙ small_seconds (suc n) l

-- The numbers that are written in a configuration are those of its pool, in seconds, if they are not 0
-- and the times fit in a Duration.
pub classic_pool_of-written :
    (c : ProxyConfig) (drop_in filter_in timeout : ℕ)
    → c.params (bytes "drop_in") ≡ itoa (pos (suc drop_in))
    → c.params (bytes "filter_in") ≡ itoa (pos filter_in)
    → c.params (bytes "timeout") ≡ itoa (pos (suc timeout))
    → suc drop_in * 1000000000 < half64
    → filter_in < half64
    → suc timeout * 1000000000 < half64
    → ((classic_pool_of c).drop_proxy_point ≡ pos (suc drop_in * 1000000000))
      × ((classic_pool_of c).filter_proxy_sec ≡ pos filter_in)
      × ((classic_pool_of c).get_proxy_timeout ≡ pos (suc timeout * 1000000000))
unfolding classic_pool_of new_classic_pool get_filter_proxy_sec
classic_pool_of-written c d f t pd pf pt ld lf lt = (
  rw (drop_in_written c d pd ld) (if_zero_kept (suc d * 1000000000) (pos 5000000000) (omega arith)),
  rw (pf, parse_int-itoa half64 (pos f) (omega arith)),
  rw (timeout_written c t pt lt)
      (if_zero_kept (suc t * 1000000000) (pos 15000000000) (omega arith)),
)
