-- ===== src/Collection/IndexingSlice/Deleting.antt =====
-- Delete keeps the index right: the last item takes the place of the deleted one.
use openscraper_framework.Prelude.{
  ℕ, ◌-◌, some, length, ltb, ltb→lt, ◌≡◌, refl, arith, Bool-cases, Option-cases, inl, inr,
  get_elem?-lt,
}
use openscraper_framework.Prelude.Text.{Text}
use openscraper_framework.Prelude.Dict
use openscraper_framework.Prelude.Dict.{
  Dict, get-put, get-delete, put-IsUnique, delete-IsUnique, length-put, length-delete,
}
use openscraper_framework.Collection.IndexingSlice.{
  IndexingSlice, move_last, cut_last, delete_at, delete,
}
use openscraper_framework.Collection.IndexingSlice.Invariant.{IsIndexed}
use openscraper_framework.Collection.IndexingSlice.Cutting.{
  get_elem?-last, cut-IsIndexed, moved-IsIndexed,
}

-- What Delete does to a key that is there.
deleted-IsIndexed :
    {T : Type 0} (get_key : T → Text) (m : IndexingSlice T) (key : Text) (idx : ℕ)
    → IsIndexed get_key m
    → Dict.get key m.index ≡ some idx
    → IsIndexed get_key (delete_at get_key key (some idx) m)
unfolding delete_at move_last cut_last
deleted-IsIndexed get_key m key idx ok here =
    let n = length m.items - 1 in
    let (x, at, q) = ok.held key idx here in
    let l = get_elem?-lt m.items idx x at in
    let (last, at_last) = get_elem?-last m.items n (omega arith) in
    elim (Bool-cases (ltb idx n)) [
      | inl t ↦
          rw (t, at_last)
            (moved-IsIndexed get_key m key idx n last ok here refl at_last (ltb→lt idx n t))
      | inr t ↦ rw t (cut-IsIndexed get_key m key idx n last ok here refl at_last (ground arith))
    ]

-- Delete keeps the index right, for a key that is there or not.
pub delete-IsIndexed :
    {T : Type 0} (get_key : T → Text) (m : IndexingSlice T) (key : Text)
    → IsIndexed get_key m
    → IsIndexed get_key (delete get_key m key)
unfolding delete
delete-IsIndexed get_key m key ok = elim (Option-cases (Dict.get key m.index)) [
  | inl e ↦ rw (e, delete_at) ok
  | inr (idx, e) ↦ rw e (deleted-IsIndexed get_key m key idx ok e)
]
