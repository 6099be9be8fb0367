-- ===== src/Spider/Registry/Running.antt =====
-- A spider is started once: markRunning.
use openscraper_framework.Prelude.{
  false, Bool-cases, Option, none, some, List, [], ◌∷◌, if◌then◌else◌, ◌≡◌, refl, ◌∙◌, inl, inr,
}
use openscraper_framework.Prelude.Text.{Text, eqb, eqb_iff, eqb_refl}
use openscraper_framework.Prelude.Dict
use openscraper_framework.Prelude.Dict.{get-put}
use openscraper_framework.Spider.Registry.{Registry, mark_running, marked, get_spider_state}

abbrev pub first_of : {Factory : Type 0} → Text → List (Text × Factory) → Option Factory
first_of name [] = none
first_of name ((n, f) ∷ cs) = if eqb n name then some f else first_of name cs

abbrev pub to_list : {Factory : Type 0} → Option Factory → List Factory
to_list none = []
to_list (some f) = f ∷ []

module _ {Item Builder Factory : Type 0} where
  -- Calls of markRunning by goroutines, in the order in which they get the lock; the factories of `name`
  -- whose call returned true.
  unfoldable pub mark_all :
      Text
      → List (Text × Factory)
      → Registry Item Builder Factory
      → Registry Item Builder Factory × List Factory
  mark_all name [] s = (s, [])
  mark_all name ((n, f) ∷ cs) s =
      let (s', ok) = mark_running n f s in
      let (s'', started) = mark_all name cs s' in
      (s'', if eqb n name then (if ok then f ∷ started else started) else started)

  marked_other :
      (n name : Text) (f : Factory) (s : Registry Item Builder Factory) (o : Option Factory)
      → eqb n name ≡ false
      → Dict.get name (marked n f s o).0.running_spiders ≡ Dict.get name s.running_spiders
  unfolding marked
  marked_other n name f s none e = rw (get-put n name f s.running_spiders, e)
  marked_other n name f s (some g) e = refl

  mark_all_running :
      (name : Text) (cs : List (Text × Factory)) (s : Registry Item Builder Factory) (g : Factory)
      → Dict.get name s.running_spiders ≡ some g
      → (get_spider_state name (mark_all name cs s).0 ≡ some g) × ((mark_all name cs s).1 ≡ [])
  unfolding mark_all mark_running get_spider_state
  mark_all_running name [] s g h = (h, refl)
  mark_all_running name ((n, f) ∷ cs) s g h = elim (Bool-cases (eqb n name)) [
    | inl e ↦
        let same = (eqb_iff n name).0 e in
        unfold marked in rw (same, eqb_refl name, h) (mark_all_running name cs s g h)
    | inr e ↦
        let o = Dict.get n s.running_spiders in
        rw e (mark_all_running name cs (marked n f s o).0 g (marked_other n name f s o e ∙ h))
  ]

  -- However many calls of markRunning there are for a spider that does not run, in whatever order they and
  -- those for other spiders get the lock, exactly the first one returns true, and GetSpiderState then
  -- returns the factory of that call; with no call, it returns none.
  pub mark_all_lem :
      (name : Text) (cs : List (Text × Factory)) (s : Registry Item Builder Factory)
      → get_spider_state name s ≡ none
      → ((mark_all name cs s).1 ≡ to_list (first_of name cs))
        × (get_spider_state name (mark_all name cs s).0 ≡ first_of name cs)
  unfolding mark_all mark_running get_spider_state
  mark_all_lem name [] s h = (refl, h)
  mark_all_lem name ((n, f) ∷ cs) s h = elim (Bool-cases (eqb n name)) [
    | inl e ↦
        let same = (eqb_iff n name).0 e in
        let s' = record s { running_spiders = Dict.put name f s.running_spiders } in
        let (a, b) =
          mark_all_running name cs s' f
            (rw (get-put name name f s.running_spiders, eqb_refl name)) in
        unfold marked in rw (same, eqb_refl name, h) (rw b, a)
    | inr e ↦
        let o = Dict.get n s.running_spiders in
        rw e (mark_all_lem name cs (marked n f s o).0 (marked_other n name f s o e ∙ h))
  ]
