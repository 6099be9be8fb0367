-- ===== src/Spider/Factory/Closing.antt =====
-- Every request that a task makes is closed exactly once.
use openscraper_framework.Prelude.{
  ℕ, zero, suc, Bool, true, false, ◌≡◌, refl, sym, ap, ◌∙◌, Bool-cases, inl, inr,
}
use openscraper_framework.Spider.Context.{
  Context, failed, finished, note, is_stopped, acquire_context, Script,
}
use openscraper_framework.Spider.Factory.Rules.{call_keeps, check_keeps, attempt_keeps}
use openscraper_framework.Spider.Context.Chain.{countdown}
use openscraper_framework.Spider.Context.Requests.{
  RequestsOwned, perform-RequestsOwned, enter-RequestsOwned, init-RequestsOwned,
  closed-close_request, made-close_request,
}
use openscraper_framework.Spider.Factory.{
  leaves, Spider, Task, is_failed, call, check, attempt, finish, after_failure, round, opening,
  task_loop, do_item,
}

module _ (quits : ℕ → Bool) (spider : Spider) where
  call-RequestsOwned :
      (s : Script) (c : Context) → RequestsOwned c → RequestsOwned (call spider s c)
  call-RequestsOwned =
      call_keeps RequestsOwned quits spider perform-RequestsOwned
        (enter-RequestsOwned spider.middleware) init-RequestsOwned (λ c o. o) (λ c o. o)

  check-RequestsOwned : (c : Context) → RequestsOwned c → RequestsOwned (check spider c)
  check-RequestsOwned =
      check_keeps RequestsOwned quits spider perform-RequestsOwned
        (enter-RequestsOwned spider.middleware) init-RequestsOwned (λ c o. o) (λ c o. o)

  abbrev TaskOwned : Task → Type 0
  TaskOwned t = RequestsOwned t.ctx

  attempt-owned : (max : ℕ) (t : Task) → TaskOwned t → TaskOwned (attempt quits spider max t)
  attempt-owned =
      attempt_keeps RequestsOwned quits spider perform-RequestsOwned
        (enter-RequestsOwned spider.middleware) init-RequestsOwned (λ c o. o) (λ c o. o)

  finish-owned : (c : Context) → RequestsOwned c → RequestsOwned (finish quits spider c)
  unfolding finish
  finish-owned c o = call-RequestsOwned spider.on_finished (note finished c) o

  after_failure-owned :
      (c : Context) → RequestsOwned c → RequestsOwned (after_failure quits spider c)
  unfolding after_failure
  after_failure-owned c o = elim (Bool-cases (is_failed c.status_code)) [
    | inl e ↦ rw e (call-RequestsOwned spider.on_failed (note failed c) o)
    | inr e ↦ rw e o
  ]

  round-owned :
      (max : ℕ) (again : Task → Task × Bool) (t : Task)
      → ((u : Task) → TaskOwned u → TaskOwned (again u).0)
      → TaskOwned t
      → TaskOwned (round quits spider max again t).0
  unfolding round
  round-owned max again t ka o =
      let t' = attempt quits spider max t in
      let ctx = after_failure quits spider t'.ctx in
      let done = after_failure-owned t'.ctx (attempt-owned max t o) in
      elim (Bool-cases (leaves quits spider ctx)) [
        | inl e ↦ rw e (finish-owned ctx done)
        | inr e ↦ rw e (ka _ done)
      ]

  opening-owned :
      (started : Bool) (body : Task → Task × Bool) (t : Task)
      → ((u : Task) → TaskOwned u → TaskOwned (body u).0)
      → TaskOwned t
      → TaskOwned (opening quits spider started body t).0
  unfolding opening
  opening-owned true body t kb o = kb t o
  opening-owned false body t kb o =
      let ready = call spider spider.pre_start (check spider t.ctx) in
      let owned = call-RequestsOwned spider.pre_start _ (check-RequestsOwned t.ctx o) in
      let started = call-RequestsOwned spider.start ready owned in
      elim (Bool-cases (is_stopped ready)) [
        | inl e ↦ rw e (finish-owned ready owned)
        | inr e ↦ elim (Bool-cases (leaves quits spider (call spider spider.start ready))) [
          | inl l ↦ rw (e, l) (finish-owned _ started)
          | inr l ↦ rw (e, l) (kb _ started)
        ]
      ]

  task_loop-owned :
      (fuel max : ℕ) (started : Bool) (t : Task)
      → TaskOwned t
      → TaskOwned (task_loop quits spider fuel max started t).0
  unfolding task_loop
  task_loop-owned zero max started t o = o
  task_loop-owned (suc fuel) max started t o = elim (Bool-cases (quits t.polls)) [
    | inl e ↦ rw e o
    | inr e ↦ rw e (
        opening-owned started (round quits spider max (task_loop quits spider fuel max true)) _
          (λ u ou.
            round-owned max (task_loop quits spider fuel max true) u (task_loop-owned fuel max true)
              ou)
          o)
  ]

  -- When do returns, after however many rounds and for whatever reason, every request that the
  -- task made has been closed, each exactly once, in the order in which they were made.
  pub do_item-closed :
      (fuel max : ℕ)
      → (do_item quits spider fuel max).0.closed ≡ countdown (do_item quits spider fuel max).0.made
  unfolding do_item
  do_item-closed fuel max =
      let t : Task = record { ctx = acquire_context max; polls = 0 } in
      let c = (task_loop quits spider fuel max false t).0.ctx in
      closed-close_request c (task_loop-owned fuel max false t (refl, refl))
      ∙ ap countdown (sym (made-close_request c))
