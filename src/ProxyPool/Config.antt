-- ===== src/ProxyPool/Config.antt =====
-- reqwest/proxz/proxy.go: the configuration of a proxy, as one line. url.Parse is a parameter, and so
-- are the errors that it returns.
pub mod Reading
use openscraper_framework.Prelude.{
  ℕ, zero, suc, ◌+◌, ◌-◌, ◌*◌, Bool, true, false, ◌||◌, Option, none, some, List, [], ◌∷◌, length,
  drop, leb, ◌⊎◌, inl, inr, if◌then◌else◌,
}
use openscraper_framework.Prelude.Int.{ℤ, pos, negsuc, to_signed}
use openscraper_framework.Prelude.Text.{Text, bytes, eqb}
use openscraper_framework.Prelude.Dict
use openscraper_framework.Prelude.Dict.{Dict}
use openscraper_framework.Strconv.{parse_int}
use openscraper_framework.Memstore.Value.{half64}
use openscraper_framework.ProxyPool.{ClassicPool, new_classic_pool}

pub data Protocol : Type 0 where
  protocol_none protocol_http protocol_socks : Protocol

-- The parts of a url.URL that the code reads; the query is its Get.
pub record Url : Type 0 where
  pub scheme : Text
  pub host : Text
  pub query : Text → Text

-- `classic` tells that PoolBuilder is NewClassicPool rather than nil.
pub record ProxyConfig : Type 0 where
  pub protocol : Protocol
  pub provider : Text
  pub proxy : Text
  pub classic : Bool
  pub params : Text → Text

pub data Parsed (Err : Type 0) : Type 0 where
  config : ProxyConfig → Parsed Err
  url_error : Err → Parsed Err
  unknown_protocol : Text → Parsed Err
  panics : Parsed Err

abbrev pub protocol_of : Text → Option Protocol
protocol_of scheme =
    if eqb scheme (bytes "http") || eqb scheme (bytes "https")
    then some protocol_http
    else if eqb scheme (bytes "socks") || eqb scheme (bytes "socks5") || eqb scheme (bytes "sock")
    then some protocol_socks
    else none

abbrev pub plain : Protocol → Text → ProxyConfig
plain protocol proxy = record {
  protocol = protocol;
  provider = [];
  proxy = proxy;
  classic = false;
  params = λ key. [];
}

-- DefaultProxyConfig
abbrev pub default_proxy_config : ProxyConfig
default_proxy_config = plain protocol_none []

module _ {Err Builder : Type 0} (parse : Text → Err ⊎ Url) (builders : Dict Builder) where
  -- `str[len(parsed.Scheme)+3:]` panics where the string is shorter.
  after_scheme : Protocol → Text → Text → Parsed Err
  after_scheme protocol scheme str =
      if leb (length scheme + 3) (length str)
      then config (plain protocol (drop (length scheme + 3) str))
      else panics

  of_host : Protocol → Url → Text → Option Builder → Parsed Err
  unfolding after_scheme
  of_host protocol url str none = after_scheme protocol url.scheme str
  of_host protocol url str (some b) = config (record {
    protocol = protocol;
    provider = url.host;
    proxy = [];
    classic = true;
    params = url.query;
  })

  of_url : Text → Url → Option Protocol → Parsed Err
  unfolding of_host
  of_url str url none = unknown_protocol url.scheme
  of_url str url (some protocol) = of_host protocol url str (Dict.get url.host builders)

  of_parse : Text → Err ⊎ Url → Parsed Err
  unfolding of_url
  of_parse str (inl e) = url_error e
  of_parse str (inr url) = of_url str url (protocol_of url.scheme)

  unfoldable pub parse_config_from_string : Text → Parsed Err
  unfolding of_parse
  parse_config_from_string str = of_parse str (parse str)

  -- ParseProxyConfigFromConfig, of the proxy in the configuration.
  unfoldable pub parse_proxy_config_from_config : Text → Parsed Err
  unfolding parse_config_from_string
  parse_proxy_config_from_config str =
      if eqb str [] || eqb str (bytes "direct")
      then config default_proxy_config
      else parse_config_from_string str

-- `v, _ := strconv.Atoi(c.Params.Get(key))`
abbrev param : ProxyConfig → Text → ℤ
param c key = (parse_int half64 (c.params key)).0

abbrev times : ℤ → ℕ → ℤ
times (pos n) m = pos (n * m)
times (negsuc n) m = negsuc (suc n * m - 1)

-- `time.Duration(v) * time.Second`, in 64 bits
abbrev pub seconds : ℤ → ℤ
seconds v = to_signed half64 (times v 1000000000)

abbrev seconds_or : ℤ → ℤ → ℤ
seconds_or (pos zero) default = default
seconds_or v default = seconds v

abbrev size_or : ℤ → ℤ → ℤ
size_or (pos zero) default = default
size_or v default = v

unfoldable pub get_size_or_default : ProxyConfig → ℤ → ℤ
get_size_or_default c default = size_or (param c (bytes "size")) default

unfoldable pub get_drop_proxy_point : ProxyConfig → ℤ
get_drop_proxy_point c = seconds_or (param c (bytes "drop_in")) (pos 5000000000)

unfoldable pub get_filter_proxy_sec : ProxyConfig → ℤ
get_filter_proxy_sec c = param c (bytes "filter_in")

unfoldable pub get_fetch_proxy_timeout : ProxyConfig → ℤ
get_fetch_proxy_timeout c = seconds_or (param c (bytes "timeout")) (pos 15000000000)

-- NewClassicPool of a configuration.
unfoldable pub classic_pool_of : ProxyConfig → ClassicPool
unfolding get_drop_proxy_point get_filter_proxy_sec get_fetch_proxy_timeout
classic_pool_of c =
    new_classic_pool (get_drop_proxy_point c) (get_filter_proxy_sec c) (get_fetch_proxy_timeout c)
