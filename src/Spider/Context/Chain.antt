-- ===== src/Spider/Context/Chain.antt =====
-- The handlers of a chain run in order, each at most once.
use openscraper_framework.Prelude.{
  ℕ, zero, suc, ◌<◌, length, get_elem?, get_elem?-lt, Option-cases, if◌then◌else◌, none, List, [],
  ◌∷◌, ◌≡◌, refl, ap, inl, inr, ◌⊎◌,
}
use openscraper_framework.Prelude.Int.{ℤ, pos, negsuc}
use openscraper_framework.Spider.Context.Steps.{
  index-perform, trace-perform, index-handler_index, trace-handler_index,
}
use openscraper_framework.Spider.Context.Rules.{run_script_keeps}
use openscraper_framework.Spider.Context.{
  is_minus_one, Context, Event, began, handler, retried, failed, finished, note, init, Action,
  perform, Script, succ_index, enter, next_from, next, do_chain,
}

-- The numbers of the handlers that ran since the chain began, the last one first.
abbrev pub ran : List Event → List ℕ
ran [] = []
ran (began ∷ es) = []
ran (handler n ∷ es) = n ∷ ran es
ran (retried ∷ es) = ran es
ran (failed ∷ es) = ran es
ran (finished ∷ es) = ran es

-- n - 1, …, 1, 0
abbrev pub countdown : ℕ → List ℕ
countdown zero = []
countdown (suc n) = n ∷ countdown n

-- The handlers 0 to `k` have run, each once and in order, and the last one is the current one, if
-- the task was not stopped.
abbrev pub InChain : List Script → Context → Type 0
InChain handlers c =
    (k : ℕ) × (ran c.trace ≡ countdown (suc k))
    × ((c.current_handler_index ≡ pos k) ⊎ (c.current_handler_index ≡ negsuc 0))
    × (k < length handlers)

perform-InChain :
    (handlers : List Script) (a : Action) (c : Context)
    → InChain handlers c
    → InChain handlers (perform a c)
perform-InChain handlers a c (k, t, i, l) =
    (k, rw (trace-perform a c) t, elim (index-perform a c) [ inl e ↦ rw e i | inr e ↦ inr e ], l)

enter-InChain :
    (after : Context → Context) (handlers : List Script) (n : ℕ) (c : Context)
    → ((d : Context) → InChain handlers d → InChain handlers (after d))
    → ran c.trace ≡ countdown n
    → (get_elem? handlers n ≡ none → InChain handlers c)
    → InChain handlers (enter after handlers n c)
unfolding enter
enter-InChain after handlers n c ka t missing = elim (Option-cases (get_elem? handlers n)) [
  | inl e ↦ rw (e, enter) (missing e)
  | inr (h, e) ↦
      rw (e, enter)
        (run_script_keeps (InChain handlers) (perform-InChain handlers) after ka h _ (
          n,
          ap (λ l. n ∷ l) (rw (trace-handler_index handlers n c) t),
          inl (index-handler_index handlers n h c e),
          get_elem?-lt handlers n h e,
        ))
]

-- One round of Next at a known index.
next_round :
    (fuel : ℕ) (handlers : List Script) (c : Context) (i : ℤ)
    → c.current_handler_index ≡ i
    → next_from (suc fuel) handlers c
      ≡ (if is_minus_one i then c else enter (next_from fuel handlers) handlers (succ_index i) c)
unfolding next_from
next_round fuel handlers c i e =
    ap
      (λ x. if is_minus_one x then c else enter (next_from fuel handlers) handlers (succ_index x) c)
      e

next_from-InChain :
    (fuel : ℕ) (handlers : List Script) (c : Context)
    → InChain handlers c
    → InChain handlers (next_from fuel handlers c)
next_from-InChain zero handlers c p = unfold next_from in p
next_from-InChain (suc fuel) handlers c (k, t, inr s, l) =
    rw (next_round fuel handlers c (negsuc 0) s) (k, t, inr s, l)
next_from-InChain (suc fuel) handlers c (k, t, inl i, l) =
    rw (next_round fuel handlers c (pos k) i) (
      enter-InChain (next_from fuel handlers) handlers (suc k) c (next_from-InChain fuel handlers) t
        (λ e. (k, t, inl i, l)))

-- do runs the handlers from the first one on, each at most once and in order, whatever they do: no
-- handler is skipped, and none runs again, however often Next is called.
pub do_chain-InChain :
    (h : Script) (handlers : List Script) (c : Context)
    → InChain (h ∷ handlers) (do_chain (h ∷ handlers) c)
unfolding do_chain
do_chain-InChain h handlers c =
    enter-InChain (next (h ∷ handlers)) (h ∷ handlers) 0 (note began (init c))
      (next_from-InChain (length (h ∷ handlers)) (h ∷ handlers)) refl (λ e. absurd (cc))
