-- ===== src/Spider/Context/Rules.antt =====
-- Induction over scripts and over the chain, for a property of the context.
use openscraper_framework.Prelude.{
  ℕ, zero, suc, Bool-cases, get_elem?, length, Option-cases, List, [], ◌∷◌, ◌≡◌, refl, inl, inr,
}
use openscraper_framework.Spider.Context.{
  Context, handler, began, is_stopped, note, init, Action, perform, Script, return, look, act,
  call_next, run_script, handler_index, succ_index, enter, next_from, next, do_chain, pre_check,
}
use openscraper_framework.Prelude.Int.{pos}

module _ {ℓ} (P : Context → Type ℓ)
    (keep : (a : Action) (c : Context) → P c → P (perform a c)) where
  pub run_script_keeps :
      (next : Context → Context)
      → ((c : Context) → P c → P (next c))
      → (s : Script) (c : Context) → P c
      → P (run_script next s c)
  unfolding run_script
  run_script_keeps after kn return c p = p
  run_script_keeps after kn (look k) c p = run_script_keeps after kn (k c) c p
  run_script_keeps after kn (act a s) c p = run_script_keeps after kn s (perform a c) (keep a c p)
  run_script_keeps after kn (call_next s) c p = run_script_keeps after kn s (after c) (kn c p)

-- Two meanings of Next that agree where `P` holds run a script alike.
module _ {ℓ} (P : Context → Type ℓ) (keep : (a : Action) (c : Context) → P c → P (perform a c))
    (f g : Context → Context) (kf : (c : Context) → P c → P (f c))
    (agree : (c : Context) → P c → f c ≡ g c) where
  pub run_script_agree : (s : Script) (c : Context) → P c → run_script f s c ≡ run_script g s c
  unfolding run_script
  run_script_agree return c p = refl
  run_script_agree (look k) c p = run_script_agree (k c) c p
  run_script_agree (act a s) c p = run_script_agree s (perform a c) (keep a c p)
  run_script_agree (call_next s) c p = rw (← agree c p) (run_script_agree s (f c) (kf c p))

-- A property that does not depend on which handler runs.
module _ {ℓ} (P : Context → Type ℓ) (keep : (a : Action) (c : Context) → P c → P (perform a c))
    (handlers : List Script)
    (keep_enter : (n : ℕ) (c : Context)
      → P c
      → P (note (handler n) (handler_index handlers (pos n) c))) where
  enter_keeps :
      (next : Context → Context)
      → ((c : Context) → P c → P (next c))
      → (n : ℕ) (c : Context) → P c
      → P (enter next handlers n c)
  unfolding enter
  enter_keeps after kn n c p = elim (Option-cases (get_elem? handlers n)) [
    | inl e ↦ rw (e, enter) p
    | inr (h, e) ↦ rw (e, enter) (run_script_keeps P keep after kn h _ (keep_enter n c p))
  ]

  next_from_keeps : (fuel : ℕ) (c : Context) → P c → P (next_from fuel handlers c)
  unfolding next_from
  next_from_keeps zero c p = p
  next_from_keeps (suc fuel) c p = elim (Bool-cases (is_stopped c)) [
    | inl e ↦ rw e p
    | inr e ↦ rw e (
        enter_keeps (next_from fuel handlers) (next_from_keeps fuel)
          (succ_index c.current_handler_index) c p)
  ]

  pub script_keeps : (s : Script) (c : Context) → P c → P (run_script (next handlers) s c)
  script_keeps = run_script_keeps P keep (next handlers) (next_from_keeps (length handlers))

  -- From a property of the context that the chain begins with.
  pub do_chain_from : (c : Context) → P (note began (init c)) → P (do_chain handlers c)
  unfolding do_chain
  do_chain_from c p =
      enter_keeps (next handlers) (next_from_keeps (length handlers)) 0 (note began (init c)) p

  pub do_chain_keeps :
      ((c : Context) → P c → P (note began (init c)))
      → (c : Context) → P c
      → P (do_chain handlers c)
  unfolding do_chain
  do_chain_keeps ki c p =
      enter_keeps (next handlers) (next_from_keeps (length handlers)) 0 (note began (init c))
        (ki c p)

  pub pre_check_keeps :
      (checkers : List Script) (c : Context) → P c → P (pre_check handlers checkers c)
  unfolding pre_check
  pre_check_keeps [] c p = p
  pre_check_keeps (checker ∷ checkers) c p =
      elim (Bool-cases (is_stopped (run_script (next handlers) checker c))) [
        | inl e ↦ rw e (script_keeps checker c p)
        | inr e ↦ rw e (pre_check_keeps checkers _ (script_keeps checker c p))
      ]
