-- ===== src/Reqwest/Args.antt =====
-- reqwest/fasthttp_args.go: the arguments of a query string, read and written in place. A byte is a
-- number; `&` is 38 and `=` is 61.
pub mod Searching
mod Places
pub mod Writing
pub mod Setting
pub mod Scanning
use openscraper_framework.Prelude.{
  ℕ, zero, suc, ◌+◌, Bool, true, false, ◌&&◌, Option, none, some, List, [], ◌∷◌, ◌++◌, length, take,
  drop, leb, ◌==◌, if◌then◌else◌,
}
use openscraper_framework.Prelude.Text.{Text}

abbrev pub amp : ℕ
amp = 38

abbrev pub equals : ℕ
equals = 61

abbrev pub is_empty : Text → Bool
is_empty [] = true
is_empty (c ∷ cs) = false

-- The index of the next `&`, or the length.
unfoldable pub next_value : Text → ℕ
next_value [] = zero
next_value (c ∷ cs) = if c == amp then zero else suc (next_value cs)

-- bytes.Trim(qs, "&")
trim_left : Text → Text
trim_left [] = []
trim_left (c ∷ cs) = if c == amp then trim_left cs else c ∷ cs

trim_right : Text → Text
trim_right [] = []
trim_right (c ∷ cs) =
    let rest = trim_right cs in if (c == amp) && is_empty rest then [] else c ∷ rest

pub trim : Text → Text
unfolding trim_left trim_right
trim qs = trim_right (trim_left qs)

-- bytes.HasPrefix and bytes.Index
pub has_prefix : Text → Text → Bool
has_prefix s [] = true
has_prefix [] (d ∷ p) = false
has_prefix (c ∷ s) (d ∷ p) = (c == d) && has_prefix s p

abbrev next_place : Option ℕ → Option ℕ
next_place none = none
next_place (some i) = some (suc i)

pub index_of : Text → Text → Option ℕ
unfolding has_prefix
index_of [] p = if has_prefix [] p then some zero else none
index_of (c ∷ s) p =
    let later = next_place (index_of s p) in if has_prefix (c ∷ s) p then some zero else later

abbrev pub key_part : Text → Text
key_part key = key ++ equals ∷ []

-- findKey; `none` is -1.
pub find_key : Text → Text → Option ℕ
unfolding has_prefix index_of
find_key qs key =
    if has_prefix qs (key_part key)
    then some zero
    else next_place (index_of qs (amp ∷ key_part key))

replace_value : Text → ℕ → ℕ → Text → Text
replace_value qs start end value = take start qs ++ (value ++ drop end qs)

appended : Text → Text → Text → Text
appended qs key value = (if is_empty qs then qs else qs ++ amp ∷ []) ++ (key_part key ++ value)

set_at : Text → Text → Text → Option ℕ → Text
unfolding next_value replace_value appended
set_at qs key value none = appended qs key value
set_at qs key value (some index) =
    replace_value qs (index + length key + 1) (index + next_value (drop index qs)) value

unfoldable pub set_key_value : Text → Text → Text → Text
unfolding trim find_key set_at
set_key_value qs key value = set_at (trim qs) key value (find_key (trim qs) key)

-- What getKeyValue returns: a value, nil, or a panic on a slice whose ends are crossed.
pub data Arg : Type 0 where
  value : Text → Arg
  nil panics : Arg

slice : Text → ℕ → ℕ → Arg
slice qs start end = if leb start end then value (drop start (take end qs)) else panics

get_at : Text → Text → Option ℕ → Arg
unfolding next_value slice
get_at qs key none = nil
get_at qs key (some index) = slice qs (index + length key + 1) (index + next_value (drop index qs))

unfoldable pub get_key_value : Text → Text → Arg
unfolding find_key get_at
get_key_value qs key = get_at qs key (find_key qs key)

pub record ArgsKv : Type 0 where
  pub key : Text
  pub value : Text
  pub no_value : Bool

-- argsScanner.next: the loop over the bytes, with the key once it is complete, and the bytes since the
-- start of the part that is being read. It returns the pair and the bytes behind it.
scan_pair : Option Text → Text → Text → ArgsKv × Text
scan_pair none part [] = (record { key = part; value = []; no_value = true }, [])
scan_pair (some key) part [] = (record { key = key; value = part; no_value = false }, [])
scan_pair none part (c ∷ cs) =
    let inside = scan_pair none (part ++ c ∷ []) cs in
    if c == equals
    then scan_pair (some part) [] cs
    else if c == amp
    then (record { key = part; value = []; no_value = true }, cs)
    else inside
scan_pair (some key) part (c ∷ cs) =
    let inside = scan_pair (some key) (part ++ c ∷ []) cs in
    if c == amp then (record { key = key; value = part; no_value = false }, cs) else inside

-- VisitAllQueryArg: `for s.next(kv) { f(kv.key, kv.value) }`, on fuel. The length is enough, since next
-- takes a byte or more.
scan_pairs : ℕ → Text → List ArgsKv
unfolding scan_pair
scan_pairs zero s = []
scan_pairs (suc fuel) [] = []
scan_pairs (suc fuel) (c ∷ s) =
    let (kv, rest) = scan_pair none [] (c ∷ s) in kv ∷ scan_pairs fuel rest

unfoldable pub visit_all_query_arg : Text → List ArgsKv
unfolding scan_pairs
visit_all_query_arg qs = scan_pairs (length qs) qs
