-- ===== src/Examples/Args.antt =====
-- Query strings, some of them from the tests of the repository.
use openscraper_framework.Prelude.{[], ◌∷◌, true, false, ◌≡◌, refl, ◌++◌, arith}
use openscraper_framework.Prelude.Text.{bytes}
use openscraper_framework.Reqwest.Args.{
  set_key_value, get_key_value, visit_all_query_arg, value, nil, panics, key_part, next_value,
}
use openscraper_framework.Reqwest.Args.Setting.{
  get_key_value-set_key_value, get_key_value-set_key_value_apart,
}
use openscraper_framework.Reqwest.Args.Scanning.{
  get_key_value-visit_all_query_arg, value_of, get_key_value_panics,
}
use openscraper_framework.Reqwest.Args.Writing.{arg_of}

set_new : set_key_value [] (bytes "test") (bytes "123") ≡ bytes "test=123"
unfolding set_key_value
set_new = refl

set_old :
    set_key_value (bytes "test=abc&test=def") (bytes "test") (bytes "123")
    ≡ bytes "test=123&test=def"
unfolding set_key_value
set_old = refl

set_prefix :
    set_key_value (bytes "source_params=abc") (bytes "source") (bytes "user_view")
    ≡ bytes "source_params=abc&source=user_view"
unfolding set_key_value
set_prefix = refl

set_trimmed : set_key_value (bytes "&a=1&&b=2&") (bytes "b") (bytes "") ≡ bytes "a=1&&b="
unfolding set_key_value
set_trimmed = refl

get_missing : get_key_value (bytes "aa=1&b") (bytes "b") ≡ nil
unfolding get_key_value
get_missing = refl

visited : visit_all_query_arg (bytes "a=1=2&b&&") ≡ (
    record { key = bytes "a"; value = bytes "1=2"; no_value = false }
    ∷ record { key = bytes "b"; value = []; no_value = true }
    ∷ record { key = []; value = []; no_value = true }
    ∷ [])
unfolding visit_all_query_arg
visited = refl

get_key_value-set_key_value_example :
    get_key_value (set_key_value (bytes "&xb=0&b=1&a=2&") (bytes "b") (bytes "7=8")) (bytes "b")
    ≡ value (bytes "7=8")
get_key_value-set_key_value_example =
    get_key_value-set_key_value (bytes "&xb=0&b=1&a=2&") (bytes "b") (bytes "7=8") (omega arith)
      (omega arith)

get_key_value-set_key_value_apart_example :
    get_key_value (set_key_value (bytes "&xb=0&b=1&a=2&") (bytes "b") (bytes "7=8")) (bytes "xb")
    ≡ get_key_value (bytes "&xb=0&b=1&a=2&") (bytes "xb")
get_key_value-set_key_value_apart_example =
    get_key_value-set_key_value_apart (bytes "&xb=0&b=1&a=2&") (bytes "b") (bytes "7=8")
      (bytes "xb") (omega arith) (omega arith) (omega arith) (omega arith) (omega arith) (λ e. cc e)

get_key_value-visit_all_query_arg_example :
    get_key_value (bytes "c&a=1=2&b&a=3") (bytes "a")
    ≡ arg_of (value_of (bytes "a") (visit_all_query_arg (bytes "c&a=1=2&b&a=3")))
get_key_value-visit_all_query_arg_example =
    get_key_value-visit_all_query_arg (bytes "c&a=1=2&b&a=3") (bytes "a") (omega arith)
      (omega arith)

get_key_value_panics_example :
    get_key_value (key_part (bytes "a&b") ++ bytes "1") (bytes "a&b") ≡ panics
get_key_value_panics_example =
    get_key_value_panics (bytes "a&b") (bytes "1") (unfold next_value in omega arith)
