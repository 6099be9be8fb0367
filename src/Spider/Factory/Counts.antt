-- ===== src/Spider/Factory/Counts.antt =====
-- The retries and the attempts of a context, which user code leaves alone.
use openscraper_framework.Prelude.{
  ℕ, suc, List, [], ◌∷◌, ◌≡◌, ap, Bool-cases, inl, inr, ltb, length, arith,
}
use openscraper_framework.Prelude.Int.{pos}
use openscraper_framework.Spider.Context.{
  Context, Event, began, handler, retried, failed, finished, note, Script, Action, perform,
  do_chain, init, handler_index, stop_execution, new_request, add_log_field, set_ok, fail, skip,
  ok_action, stop_action, new_request_action, fail_action, skip_action, log_action,
}
use openscraper_framework.Spider.Context.Rules.{script_keeps, do_chain_from, pre_check_keeps}
use openscraper_framework.Spider.Factory.{Spider, call, check, restart}

-- The number of times that the chain of handlers began.
abbrev pub attempts : List Event → ℕ
attempts [] = 0
attempts (began ∷ es) = suc (attempts es)
attempts (handler n ∷ es) = attempts es
attempts (retried ∷ es) = attempts es
attempts (failed ∷ es) = attempts es
attempts (finished ∷ es) = attempts es

-- What user code leaves alone: the retries so far, and the number of attempts.
abbrev pub Counts : ℕ → ℕ → Context → Type 0
Counts n k c = (c.try_times ≡ n) × (attempts c.trace ≡ k)

perform-Counts : (n k : ℕ) (a : Action) (c : Context) → Counts n k c → Counts n k (perform a c)
unfolding stop_execution new_request add_log_field set_ok fail skip
perform-Counts n k ok_action c p = p
perform-Counts n k stop_action c p = p
perform-Counts n k new_request_action c p = ground arith
perform-Counts n k (fail_action errs) c p = ground arith
perform-Counts n k (skip_action errs) c p = ground arith
perform-Counts n k (log_action key v) c p = ground arith

enter-Counts :
    (handlers : List Script) (n k m : ℕ) (c : Context)
    → Counts n k c
    → Counts n k (note (handler m) (handler_index handlers (pos m) c))
unfolding handler_index
enter-Counts handlers n k m c p = elim (Bool-cases (ltb m (length handlers))) [
  | inl e ↦ rw e p
  | inr e ↦ rw e p
]

module _ (spider : Spider) where
  pub call-Counts :
      (n k : ℕ) (s : Script) (c : Context) → Counts n k c → Counts n k (call spider s c)
  call-Counts n k =
      script_keeps (Counts n k) (perform-Counts n k) spider.middleware
        (enter-Counts spider.middleware n k)

  pub check-Counts : (n k : ℕ) (c : Context) → Counts n k c → Counts n k (check spider c)
  check-Counts n k =
      pre_check_keeps (Counts n k) (perform-Counts n k) spider.middleware
        (enter-Counts spider.middleware n k) spider.pre_checkers

  pub chain-Counts :
      (n k : ℕ) (c : Context) → Counts n k c → Counts n (suc k) (do_chain spider.middleware c)
  chain-Counts n k c p =
      do_chain_from (Counts n (suc k)) (perform-Counts n (suc k)) spider.middleware
        (enter-Counts spider.middleware n (suc k)) c (unfold init in (p.0, ap suc p.1))

  pub restart-Counts : (n k : ℕ) (c : Context) → Counts n k c → Counts (suc n) k (restart spider c)
  unfolding restart
  restart-Counts n k c p = call-Counts (suc n) k spider.start _ (ap suc p.0, p.1)
