-- ===== src/Spider/Context/Depth.antt =====
-- The fuel of Next is enough.
use openscraper_framework.Prelude.{
  ℕ, zero, suc, ◌+◌, ◌≤◌, Bool-cases, length, get_elem?, Option-cases, false, none, List, [], ◌∷◌,
  ◌≡◌, refl, arith, inl, inr, ◌∙◌, sym,
}
use openscraper_framework.Prelude.Int.{ℤ, pos, negsuc}
use native.Mathlib.Nat.{zero-add, suc-add}
use openscraper_framework.Spider.Context.Steps.{index-perform, index-handler_index}
use openscraper_framework.Spider.Context.Rules.{run_script_keeps, run_script_agree}
use openscraper_framework.Spider.Context.{
  is_minus_one, Context, is_stopped, Action, perform, Script, succ_index, enter, next_from, next,
}

-- The handler of number `n` or a later one is running, or the task was stopped.
abbrev pub Beyond : ℕ → ℤ → Type 0
Beyond n (pos j) = n ≤ j
Beyond n (negsuc zero) = Unit
Beyond n (negsuc (suc j)) = ⊥

perform-Beyond :
    (n : ℕ) (a : Action) (c : Context)
    → Beyond n c.current_handler_index
    → Beyond n (perform a c).current_handler_index
perform-Beyond n a c b = elim (index-perform a c) [ inl same ↦ rw same b | inr stop ↦ rw stop tt ]

-- The index never goes back.
enter-Beyond :
    (after : Context → Context) (handlers : List Script) (n m : ℕ) (c : Context)
    → ((d : Context) → Beyond n d.current_handler_index → Beyond n (after d).current_handler_index)
    → n ≤ m
    → Beyond n c.current_handler_index
    → Beyond n (enter after handlers m c).current_handler_index
unfolding enter
enter-Beyond after handlers n m c ka l b = elim (Option-cases (get_elem? handlers m)) [
  | inl e ↦ rw (e, enter) b
  | inr (h, e) ↦
      rw (e, enter)
        (run_script_keeps (λ d. Beyond n d.current_handler_index) (perform-Beyond n) after ka h _
          (rw (index-handler_index handlers m h c e) l))
]

succ-Beyond : (n : ℕ) (i : ℤ) → Beyond n i → is_minus_one i ≡ false → suc n ≤ succ_index i
succ-Beyond n (pos j) b e = omega arith
succ-Beyond n (negsuc zero) b e = absurd (cc)
succ-Beyond n (negsuc (suc j)) b e = absurd b

next_from-Beyond :
    (fuel : ℕ) (handlers : List Script) (n : ℕ) (c : Context)
    → Beyond n c.current_handler_index
    → Beyond n (next_from fuel handlers c).current_handler_index
unfolding next_from
next_from-Beyond zero handlers n c b = b
next_from-Beyond (suc fuel) handlers n c b = elim (Bool-cases (is_stopped c)) [
  | inl e ↦ rw e b
  | inr e ↦ rw e (
      enter-Beyond (next_from fuel handlers) handlers n (succ_index c.current_handler_index) c
        (next_from-Beyond fuel handlers n)
        (omega (arith, succ-Beyond n c.current_handler_index b e)) b)
]

get_elem?-none {ℓ} : {A : Type ℓ} (xs : List A) (i : ℕ) → length xs ≤ i → get_elem? xs i ≡ none
get_elem?-none [] i h = refl
get_elem?-none (x ∷ xs) zero h = absurd (omega arith)
get_elem?-none (x ∷ xs) (suc i) h = get_elem?-none xs i (omega arith)

enter_agree :
    (f g : Context → Context) (handlers : List Script) (m : ℕ) (c : Context)
    → ((d : Context) → Beyond m d.current_handler_index → Beyond m (f d).current_handler_index)
    → ((d : Context) → Beyond m d.current_handler_index → f d ≡ g d)
    → enter f handlers m c ≡ enter g handlers m c
unfolding enter
enter_agree f g handlers m c kf a = elim (Option-cases (get_elem? handlers m)) [
  | inl e ↦ rw (e, enter)
  | inr (h, e) ↦
      rw (e, enter)
        (run_script_agree (λ d. Beyond m d.current_handler_index) (perform-Beyond m) f g kf a h _
          (rw (index-handler_index handlers m h c e) (omega arith)))
]

-- With as many rounds as handlers are left, one more round changes nothing.
next_from_enough :
    (fuel : ℕ) (handlers : List Script) (n : ℕ) (c : Context)
    → Beyond n c.current_handler_index
    → length handlers ≤ suc n + fuel
    → next_from fuel handlers c ≡ next_from (suc fuel) handlers c
unfolding next_from enter
next_from_enough zero handlers n c b l = elim (Bool-cases (is_stopped c)) [
  | inl e ↦ rw e
  | inr e ↦ rw (
    e,
    enter,
    get_elem?-none handlers (succ_index c.current_handler_index)
        (omega (arith, succ-Beyond n c.current_handler_index b e)),
  )
]
next_from_enough (suc fuel) handlers n c b l = elim (Bool-cases (is_stopped c)) [
  | inl e ↦ rw e
  | inr e ↦ rw e (
      enter_agree (next_from fuel handlers) (next_from (suc fuel) handlers) handlers
        (succ_index c.current_handler_index) c
        (next_from-Beyond fuel handlers (succ_index c.current_handler_index))
        (λ d b'.
          next_from_enough fuel handlers (succ_index c.current_handler_index) d b'
            (omega (arith, succ-Beyond n c.current_handler_index b e))))
]

-- The depth of Next is bounded by the number of handlers: more fuel than there are handlers gives
-- the same context, whatever the handlers do, from every index that a task can have.
pub next_depth :
    (extra : ℕ) (handlers : List Script) (c : Context)
    → Beyond 0 c.current_handler_index
    → next_from (extra + length handlers) handlers c ≡ next handlers c
next_depth zero handlers c b = rw zero-add
next_depth (suc extra) handlers c b = rw suc-add (
    sym (next_from_enough (extra + length handlers) handlers 0 c b (omega arith))
    ∙ next_depth extra handlers c b)
