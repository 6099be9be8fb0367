-- ===== src/Spider/Factory/Finishing.antt =====
-- How often OnFinished is called for a task.
use openscraper_framework.Prelude.{
  ℕ, zero, suc, Bool, true, false, List, [], ◌∷◌, ◌≡◌, refl, ap, Bool-cases, inl, inr, ◌⊎◌, ltb,
  length, arith,
}
use openscraper_framework.Prelude.Int.{pos}
use openscraper_framework.Spider.Context.{
  Context, Event, began, handler, retried, failed, finished, note, init, Action, perform,
  handler_index, is_stopped, Script, stop_execution, new_request, add_log_field, set_ok, fail, skip,
  close_request, acquire_context, ok_action, stop_action, new_request_action, fail_action,
  skip_action, log_action,
}
use openscraper_framework.Spider.Factory.{
  Spider, Task, is_failed, call, check, attempt, finish, after_failure, leaves, round, opening,
  task_loop, do_item,
}
use openscraper_framework.Spider.Factory.Rules.{call_keeps, check_keeps, attempt_keeps}

-- The number of calls of OnFinished.
abbrev pub finishes : List Event → ℕ
finishes [] = 0
finishes (finished ∷ es) = suc (finishes es)
finishes (began ∷ es) = finishes es
finishes (handler n ∷ es) = finishes es
finishes (retried ∷ es) = finishes es
finishes (failed ∷ es) = finishes es

abbrev Finishes : ℕ → Context → Type 0
Finishes k c = finishes c.trace ≡ k

perform-Finishes : (k : ℕ) (a : Action) (c : Context) → Finishes k c → Finishes k (perform a c)
unfolding stop_execution new_request add_log_field set_ok fail skip
perform-Finishes k ok_action c p = p
perform-Finishes k stop_action c p = p
perform-Finishes k new_request_action c p = ground arith
perform-Finishes k (fail_action errs) c p = ground arith
perform-Finishes k (skip_action errs) c p = ground arith
perform-Finishes k (log_action key v) c p = ground arith

enter-Finishes :
    (k : ℕ) (handlers : List Script) (m : ℕ) (c : Context)
    → Finishes k c
    → Finishes k (note (handler m) (handler_index handlers (pos m) c))
unfolding handler_index
enter-Finishes k handlers m c p = elim (Bool-cases (ltb m (length handlers))) [
  | inl e ↦ rw e p
  | inr e ↦ rw e p
]

init-Finishes : (k : ℕ) (c : Context) → Finishes k c → Finishes k (note began (init c))
unfolding init
init-Finishes k c p = p

module _ (quits : ℕ → Bool) (spider : Spider) where
  call-Finishes : (k : ℕ) (s : Script) (c : Context) → Finishes k c → Finishes k (call spider s c)
  call-Finishes k =
      call_keeps (Finishes k) quits spider (perform-Finishes k) (enter-Finishes k spider.middleware)
        (init-Finishes k) (λ c o. o) (λ c o. o)

  check-Finishes : (k : ℕ) (c : Context) → Finishes k c → Finishes k (check spider c)
  check-Finishes k =
      check_keeps (Finishes k) quits spider (perform-Finishes k)
        (enter-Finishes k spider.middleware) (init-Finishes k) (λ c o. o) (λ c o. o)

  attempt-Finishes :
      (k max : ℕ) (t : Task) → Finishes k t.ctx → Finishes k (attempt quits spider max t).ctx
  attempt-Finishes k =
      attempt_keeps (Finishes k) quits spider (perform-Finishes k)
        (enter-Finishes k spider.middleware) (init-Finishes k) (λ c o. o) (λ c o. o)

  finish-Finishes : (c : Context) → Finishes 0 c → Finishes 1 (finish quits spider c)
  unfolding finish
  finish-Finishes c p = call-Finishes 1 spider.on_finished (note finished c) (ap suc p)

  after_failure-Finishes : (c : Context) → Finishes 0 c → Finishes 0 (after_failure quits spider c)
  unfolding after_failure
  after_failure-Finishes c p = elim (Bool-cases (is_failed c.status_code)) [
    | inl e ↦ rw e (call-Finishes 0 spider.on_failed (note failed c) p)
    | inr e ↦ rw e p
  ]

  -- OnFinished was called, and the task has come to its end; or it was not, and the task goes on or
  -- the worker was told to leave.
  abbrev Closed : Task × Bool → Type 0
  Closed (t, ended) =
      (Finishes 1 t.ctx × (ended ≡ true))
      ⊎ (Finishes 0 t.ctx × ((ended ≡ false) ⊎ ((j : ℕ) × (quits j ≡ true))))

  round-Closed :
      (max : ℕ) (again : Task → Task × Bool) (t : Task)
      → ((u : Task) → Finishes 0 u.ctx → Closed (again u))
      → Finishes 0 t.ctx
      → Closed (round quits spider max again t)
  unfolding round
  round-Closed max again t ka p =
      let t' = attempt quits spider max t in
      let ctx = after_failure quits spider t'.ctx in
      let done = after_failure-Finishes t'.ctx (attempt-Finishes 0 max t p) in
      elim (Bool-cases (leaves quits spider ctx)) [
        | inl e ↦ rw e (inl (finish-Finishes ctx done, refl))
        | inr e ↦ rw e (ka _ done)
      ]

  opening-Closed :
      (started : Bool) (body : Task → Task × Bool) (t : Task)
      → ((u : Task) → Finishes 0 u.ctx → Closed (body u))
      → Finishes 0 t.ctx
      → Closed (opening quits spider started body t)
  unfolding opening
  opening-Closed true body t kb p = kb t p
  opening-Closed false body t kb p =
      let ready = call spider spider.pre_start (check spider t.ctx) in
      let ok = call-Finishes 0 spider.pre_start _ (check-Finishes 0 t.ctx p) in
      let started = call-Finishes 0 spider.start ready ok in
      elim (Bool-cases (is_stopped ready)) [
        | inl e ↦ rw e (inl (finish-Finishes ready ok, refl))
        | inr e ↦ elim (Bool-cases (leaves quits spider (call spider spider.start ready))) [
          | inl l ↦ rw (e, l) (inl (finish-Finishes _ started, refl))
          | inr l ↦ rw (e, l) (kb _ started)
        ]
      ]

  task_loop-Closed :
      (fuel max : ℕ) (started : Bool) (t : Task)
      → Finishes 0 t.ctx
      → Closed (task_loop quits spider fuel max started t)
  unfolding task_loop
  task_loop-Closed zero max started t p = inr (p, inl refl)
  task_loop-Closed (suc fuel) max started t p = elim (Bool-cases (quits t.polls)) [
    | inl e ↦ rw e (inr (p, inr (t.polls, e)))
    | inr e ↦ rw e (
        opening-Closed started (round quits spider max (task_loop quits spider fuel max true)) _
          (λ u ou.
            round-Closed max (task_loop quits spider fuel max true) u
              (task_loop-Closed fuel max true) ou)
          p)
  ]

  trace-close_request : (c : Context) → (close_request c).trace ≡ c.trace
  unfolding close_request
  trace-close_request c = ground arith

  -- OnFinished is called at most once for a task; and once, if the task comes to its end and the
  -- worker is never told to leave.
  pub do_item-finishes :
      (fuel max : ℕ)
      → let (c, ended) = do_item quits spider fuel max in
        ((finishes c.trace ≡ 1) × (ended ≡ true))
        ⊎ ((finishes c.trace ≡ 0) × ((ended ≡ false) ⊎ ((j : ℕ) × (quits j ≡ true))))
  unfolding do_item
  do_item-finishes fuel max =
      rw trace-close_request
        (task_loop-Closed fuel max false (record { ctx = acquire_context max; polls = 0 }) refl)
