-- ===== src/Memstore/Value/Texts.antt =====
-- The text of an integer entry.
use openscraper_framework.Prelude.{◌≡◌, refl, some, [], ◌∷◌}
use openscraper_framework.Prelude.Int.{ℤ}
use openscraper_framework.Prelude.Text.{Text}
use openscraper_framework.Strconv.{itoa}
use openscraper_framework.Memstore.Value.{
  Host, Value, nil, string, bool, Entry, numeric, sprint, text_or, string_of, entry_string,
}

text_or_nil : (s : Text) → text_or s [] ≡ s
text_or_nil [] = refl
text_or_nil (c ∷ cs) = refl

-- What String returns of an integer entry.
pub entry_string-numeric :
    {h : Host} (e : Entry h) (z : ℤ) → numeric e.value_raw ≡ some z → entry_string e ≡ itoa z
unfolding entry_string sprint
entry_string-numeric {h} e z n = go e.value_raw n
  where
    go : (v : Value h) → numeric v ≡ some z → string_of v [] ≡ itoa z
    go nil n = absurd (cc)
    go (string s) n = absurd (cc)
    go (bool b) n = absurd (cc)
    go v n = cc (text_or_nil (sprint v))
