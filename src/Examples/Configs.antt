-- ===== src/Examples/Configs.antt =====
-- A provider `zm`, and a parser of lines that knows two of them.
use openscraper_framework.Prelude.{true, [], ◌∷◌, ◌⊎◌, inr, if◌then◌else◌}
use openscraper_framework.Prelude.Int.{pos}
use openscraper_framework.Prelude.Text.{Text, bytes, eqb}
use openscraper_framework.Prelude.Dict
use openscraper_framework.Prelude.Dict.{Dict}
use openscraper_framework.Strconv.{itoa}
use openscraper_framework.ProxyPool.Config.{Url, ProxyConfig, protocol_http}
use openscraper_framework.ProxyPool.Registry.{Builder, Pools, IsRegistry}

-- The scheme is `http`, and the host is missing in the shortest line.
abbrev two_lines : Text → Text ⊎ Url
two_lines str =
    if eqb str (bytes "http:")
    then inr (record { scheme = bytes "http"; host = []; query = λ key. [] })
    else inr (record { scheme = bytes "http"; host = bytes "h:1"; query = λ key. [] })

abbrev one_provider : Dict Builder
one_provider = (bytes "zm", λ c. c.params (bytes "chan")) ∷ []

abbrev written_config : ProxyConfig
written_config = record {
  protocol = protocol_http;
  provider = bytes "zm";
  proxy = [];
  classic = true;
  params = λ key.
      if eqb key (bytes "drop_in")
      then itoa (pos 7)
      else if eqb key (bytes "filter_in")
      then itoa (pos 0)
      else if eqb key (bytes "timeout")
      then itoa (pos 30)
      else [];
}

abbrev no_pools : Pools
no_pools = record { provider_builders = one_provider; provider_pool = []; made = 0 }

no_pools-IsRegistry : IsRegistry no_pools
unfolding Dict.get
no_pools-IsRegistry = record { below = λ k p e. absurd (cc); apart = λ j k p e f. absurd (cc) }
