-- ===== src/Dot/Items/Defaults.antt =====
-- What an Item returns for what was put into it.
use openscraper_framework.Prelude.{
  true, false, Bool-cases, Option, Option-cases, none, some, [], ◌∷◌, ◌≡◌, refl, ap, ◌∙◌, inl, inr,
}
use openscraper_framework.Prelude.Int.{ℤ, pos, ltb_ℤ, InSigned}
use openscraper_framework.Prelude.Text.{Text, eqb, eqb_iff, eqb_refl}
use openscraper_framework.Prelude.Dict
use openscraper_framework.Prelude.Dict.{Dict, get-put, IsUnique}
use openscraper_framework.Strconv.{itoa}
use openscraper_framework.Strconv.RoundTrip.{parse_int-itoa}
use openscraper_framework.Memstore.Value.{half64}
use openscraper_framework.Dot.Items.{
  Floats, Any, string, int, json_number, jsoniter_number, Item, get_string, get_int, get_int64,
  get_bool, set_value, get_int_or, int_or, clone, copied,
}

module _ {f : Floats} where
  -- An entry that is there is not changed, and one that is not is set to the default.
  abbrev or_put : Text → Any f → Option (Any f) → Item f → Item f
  or_put key v none item = Dict.put key v item
  or_put key v (some w) item = item

  get-put_self :
      (key : Text) (v : Any f) (item : Item f) → Dict.get key (Dict.put key v item) ≡ some v
  get-put_self key v item = rw (get-put key key v item, eqb_refl key)

  -- GetIntOr returns what GetInt returns from then on, and keeps it: another GetIntOr returns the same,
  -- whatever its default, and changes nothing more; the other keys are as they were.
  pub get_int_or_lem :
      (key other : Text) (default later : ℤ) (item : Item f)
      → eqb key other ≡ false
      → let (item', n) = get_int_or key default item in
        (get_int item' key ≡ n)
        × (get_int_or key later item' ≡ (item', n))
        × (Dict.get other item' ≡ Dict.get other item)
  unfolding get_int_or int_or get_int
  get_int_or_lem key other default later item e = elim (Option-cases (Dict.get key item)) [
    | inl m ↦
        let p = get-put_self key (int default) item in
        rw m (rw p, rw p (rw p), rw (get-put key other (int default) item, e))
    | inr (v, m) ↦ rw m (rw m, rw m (rw m), refl)
  ]

  -- A number is read back through its text: what GetString returns for an int is, set as a string, as a
  -- json.Number or as a jsoniter.Number, the same number for GetInt, and for GetInt64 too.
  pub get_int-get_string :
      (key : Text) (n : ℤ) (item : Item f)
      → InSigned half64 n
      → let s = get_string (set_value key (int n) item) key in
        (get_int (set_value key (string s) item) key ≡ n)
        × (get_int (set_value key (json_number s) item) key ≡ n)
        × (get_int (set_value key (jsoniter_number s) item) key ≡ n)
        × (get_int64 (set_value key (string s) item) key ≡ n)
        × (get_int64 (set_value key (json_number s) item) key ≡ n)
        × (get_int64 (set_value key (jsoniter_number s) item) key ≡ n)
  unfolding get_int get_int64 get_string set_value
  get_int-get_string key n item h =
      let t = parse_int-itoa half64 n h in
      let e = get-put_self key (int n) item in
      let read = λ (v : Any f). get-put_self key v item in
      rw e (
        rw (read (string (itoa n)), t),
        rw (read (json_number (itoa n)), t),
        rw (read (jsoniter_number (itoa n)), t),
        rw (read (string (itoa n)), t),
        rw (read (json_number (itoa n)), t),
        rw (read (jsoniter_number (itoa n)), t),
      )

  -- GetBool knows no json.Number and no jsoniter.Number: a positive number that was read from JSON as
  -- either is that number for GetInt and false for GetBool, which returns true for the same number as an
  -- int.
  pub get_bool-json_number :
      (key : Text) (n : ℤ) (item : Item f)
      → InSigned half64 n
      → ltb_ℤ (pos 0) n ≡ true
      → let read = set_value key (json_number (itoa n)) item in
        let iter = set_value key (jsoniter_number (itoa n)) item in
        (get_int read key ≡ n)
        × (get_bool read key ≡ false)
        × (get_int iter key ≡ n)
        × (get_bool iter key ≡ false)
        × (get_bool (set_value key (int (get_int read key)) item) key ≡ true)
  unfolding get_int get_bool set_value
  get_bool-json_number key n item h p =
      let t = parse_int-itoa half64 n h in
      let e = get-put_self key (json_number (itoa n)) item in
      let k = get-put_self key (jsoniter_number (itoa n)) item in
      let i = get-put_self key (int n) item in
      (rw (e, t), rw e, rw (k, t), rw k, rw (e, t) (rw i p))

  or_new : Option (Any f) → Option (Any f) → Option (Any f)
  or_new (some v) w = some v
  or_new none w = w

  copied_lem :
      (key : Text) (item new : Item f)
      → IsUnique item
      → Dict.get key (copied item new) ≡ or_new (Dict.get key item) (Dict.get key new)
  unfolding copied or_new Dict.get
  copied_lem key [] new u = refl
  copied_lem key ((k, v) ∷ item) new u =
      copied_lem key item (Dict.put k v new) u.1
      ∙ ap (or_new (Dict.get key item)) (get-put k key v new)
      ∙ elim (Bool-cases (eqb k key)) [
        | inl t ↦
            let same = (eqb_iff k key).0 t in
            let gone : Dict.get key item ≡ none = rw (← same) u.0 in rw (t, gone)
        | inr t ↦ rw t
      ]

  -- A clone has the same value under every key.
  pub get-clone :
      (key : Text) (item : Item f) → IsUnique item → Dict.get key (clone item) ≡ Dict.get key item
  unfolding clone
  get-clone key item u = copied_lem key item [] u ∙ last (Dict.get key item)
    where
      last : (o : Option (Any f)) → or_new o (Dict.get key []) ≡ o
      last none = unfold or_new Dict.get in refl
      last (some v) = unfold or_new in refl
