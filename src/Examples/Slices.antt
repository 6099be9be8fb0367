-- ===== src/Examples/Slices.antt =====
-- An indexed slice of three texts, which are their own keys.
use openscraper_framework.Prelude.{◌≡◌}
use openscraper_framework.Prelude.Text.{Text, bytes, eqb}
use openscraper_framework.Collection.IndexingSlice.{
  IndexingSlice, missing, get_by_key, delete, add, new_indexing_slice,
}
use openscraper_framework.Collection.IndexingSlice.Invariant.{
  IsIndexed, new-IsIndexed, add-IsIndexed,
}
use openscraper_framework.Collection.IndexingSlice.Lookups.{get_by_key-delete}

abbrev own_key : Text → Text
own_key t = t

abbrev one_text : IndexingSlice Text
one_text = (add own_key new_indexing_slice (bytes "a")).0

abbrev two_texts : IndexingSlice Text
two_texts = (add own_key one_text (bytes "b")).0

abbrev three_texts : IndexingSlice Text
three_texts = (add own_key two_texts (bytes "c")).0

one_text-IsIndexed : IsIndexed own_key one_text
one_text-IsIndexed = add-IsIndexed own_key new_indexing_slice (bytes "a") (new-IsIndexed own_key)

two_texts-IsIndexed : IsIndexed own_key two_texts
two_texts-IsIndexed = add-IsIndexed own_key one_text (bytes "b") one_text-IsIndexed

three_texts-IsIndexed : IsIndexed own_key three_texts
three_texts-IsIndexed = add-IsIndexed own_key two_texts (bytes "c") two_texts-IsIndexed

get_by_key-delete_example :
    get_by_key (delete own_key three_texts (bytes "a")) (bytes "a") ≡ missing
unfolding eqb
get_by_key-delete_example =
    get_by_key-delete own_key three_texts (bytes "a") (bytes "a") three_texts-IsIndexed
