-- ===== src/Spider/Context/Quiet.antt =====
-- Scripts that make no requests leave it open whether there is a new one.
use openscraper_framework.Prelude.{
  ℕ, zero, suc, false, Option, some, List, [], ◌∷◌, All, get_elem?, length, ◌≡◌, refl, Bool-cases,
  Option-cases, subst, inl, inr, arith,
}
use openscraper_framework.Prelude.Int.{pos}
use openscraper_framework.Prelude.Text.{Text}
use openscraper_framework.Spider.Context.{
  Context, is_stopped, init, Script, return, look, act, call_next, run_script, enter, handler_index,
  next_from, do_chain, pre_check, stop_execution, add_log_field, set_ok, fail, skip, ok_action,
  stop_action, new_request_action, fail_action, skip_action, log_action,
}

-- The script never calls NewRequest, whatever it sees.
abbrev pub IsQuiet : Script → Type 0
IsQuiet return = Unit
IsQuiet (look k) = (c : Context) → IsQuiet (k c)
IsQuiet (act new_request_action s) = ⊥
IsQuiet (act ok_action s) = IsQuiet s
IsQuiet (act stop_action s) = IsQuiet s
IsQuiet (act (fail_action errs) s) = IsQuiet s
IsQuiet (act (skip_action errs) s) = IsQuiet s
IsQuiet (act (log_action key v) s) = IsQuiet s
IsQuiet (call_next s) = IsQuiet s

abbrev pub NoNew : Context → Type 0
NoNew c = c.has_new_request ≡ false

log-NoNew : (key : Text) (c : Context) → (v : _) → NoNew c → NoNew (add_log_field key v c)
unfolding add_log_field
log-NoNew key c v p = ground arith

fail-NoNew : (errs : Option Text) (c : Context) → NoNew c → NoNew (fail errs c)
unfolding fail
fail-NoNew errs c p = ground arith

skip-NoNew : (errs : Option Text) (c : Context) → NoNew c → NoNew (skip errs c)
unfolding skip
skip-NoNew errs c p = ground arith

pub run_script-NoNew :
    (next : Context → Context) (s : Script) (c : Context)
    → ((d : Context) → NoNew d → NoNew (next d))
    → IsQuiet s
    → NoNew c
    → NoNew (run_script next s c)
unfolding run_script stop_execution set_ok
run_script-NoNew next return c k q p = p
run_script-NoNew next (look f) c k q p = run_script-NoNew next (f c) c k (q c) p
run_script-NoNew next (act new_request_action s) c k q p = absurd q
run_script-NoNew next (act ok_action s) c k q p = run_script-NoNew next s _ k q p
run_script-NoNew next (act stop_action s) c k q p = run_script-NoNew next s _ k q p
run_script-NoNew next (act (fail_action errs) s) c k q p =
    run_script-NoNew next s _ k q (fail-NoNew errs c p)
run_script-NoNew next (act (skip_action errs) s) c k q p =
    run_script-NoNew next s _ k q (skip-NoNew errs c p)
run_script-NoNew next (act (log_action key v) s) c k q p =
    run_script-NoNew next s _ k q (log-NoNew key c v p)
run_script-NoNew next (call_next s) c k q p = run_script-NoNew next s (next c) k q (k c p)

All-get_elem? :
    (P : Script → Type 0) (xs : List Script) (i : ℕ) (x : Script)
    → All P xs
    → get_elem? xs i ≡ some x
    → P x
All-get_elem? P [] i x a e = absurd (cc)
All-get_elem? P (y ∷ xs) zero x a e = let same : y ≡ x = ground arith in subst P same a.0
All-get_elem? P (y ∷ xs) (suc i) x a e = All-get_elem? P xs i x a.1 e

handler_index-NoNew :
    (handlers : List Script) (n : ℕ) (c : Context)
    → NoNew c
    → NoNew (handler_index handlers (pos n) c)
unfolding handler_index
handler_index-NoNew handlers n c p = ground arith

enter-NoNew :
    (next : Context → Context) (handlers : List Script) (n : ℕ) (c : Context)
    → ((d : Context) → NoNew d → NoNew (next d))
    → All IsQuiet handlers
    → NoNew c
    → NoNew (enter next handlers n c)
unfolding enter
enter-NoNew next handlers n c k q p = elim (Option-cases (get_elem? handlers n)) [
  | inl e ↦ rw (e, enter) p
  | inr (h, e) ↦
      rw (e, enter)
        (run_script-NoNew next h _ k (All-get_elem? IsQuiet handlers n h q e)
          (handler_index-NoNew handlers n c p))
]

pub next_from-NoNew :
    (fuel : ℕ) (handlers : List Script) (c : Context)
    → All IsQuiet handlers
    → NoNew c
    → NoNew (next_from fuel handlers c)
unfolding next_from
next_from-NoNew zero handlers c q p = p
next_from-NoNew (suc fuel) handlers c q p = elim (Bool-cases (is_stopped c)) [
  | inl e ↦ rw e p
  | inr e ↦ rw e (
      enter-NoNew (next_from fuel handlers) handlers _ c (λ d. next_from-NoNew fuel handlers d q) q
        p)
]

pub do_chain-NoNew :
    (handlers : List Script) (c : Context) → All IsQuiet handlers → NoNew (do_chain handlers c)
unfolding do_chain init
do_chain-NoNew handlers c q =
    enter-NoNew (next_from (length handlers) handlers) handlers 0 _
      (λ d. next_from-NoNew (length handlers) handlers d q) q refl

pub pre_check-NoNew :
    (handlers checkers : List Script) (c : Context)
    → All IsQuiet handlers
    → All IsQuiet checkers
    → NoNew c
    → NoNew (pre_check handlers checkers c)
unfolding pre_check
pre_check-NoNew handlers [] c q r p = p
pre_check-NoNew handlers (s ∷ checkers) c q r p =
    let c' = run_script (next_from (length handlers) handlers) s c in
    let p' =
      run_script-NoNew (next_from (length handlers) handlers) s c
        (λ d. next_from-NoNew (length handlers) handlers d q) r.0 p in
    elim (Bool-cases (is_stopped c')) [
      | inl e ↦ rw e p'
      | inr e ↦ rw e (pre_check-NoNew handlers checkers c' q r.1 p')
    ]
