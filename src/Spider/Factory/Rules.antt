-- ===== src/Spider/Factory/Rules.antt =====
-- Induction over the attempts for a request, for a property of the context.
use openscraper_framework.Prelude.{ℕ, zero, suc, ◌+◌, Bool, Bool-cases, inl, inr, ltb}
use openscraper_framework.Prelude.Int.{pos}
use openscraper_framework.Spider.Context.{
  Context, began, handler, retried, note, init, Action, perform, handler_index, is_stopped, Script,
  do_chain, on_retry_code, failed_code,
}
use openscraper_framework.Spider.Context.Rules.{script_keeps, do_chain_keeps, pre_check_keeps}
use openscraper_framework.Spider.Factory.{
  Spider, Task, is_failed, call, check, restart, do_retry, attempt,
}

-- A property of the context that no call of user code can break, nor the bookkeeping of a retry.
module _ {ℓ} (P : Context → Type ℓ) (quits : ℕ → Bool) (spider : Spider)
    (keep : (a : Action) (c : Context) → P c → P (perform a c))
    (keep_enter : (n : ℕ) (c : Context)
      → P c
      → P (note (handler n) (handler_index spider.middleware (pos n) c)))
    (keep_init : (c : Context) → P c → P (note began (init c)))
    (keep_retried : (c : Context)
      → P c
      → P (note retried (record c { try_times = suc c.try_times; status_code = on_retry_code })))
    (keep_status : (c : Context) → P c → P (record c { status_code = failed_code })) where
  pub call_keeps : (s : Script) (c : Context) → P c → P (call spider s c)
  call_keeps = script_keeps P keep spider.middleware keep_enter

  pub check_keeps : (c : Context) → P c → P (check spider c)
  check_keeps = pre_check_keeps P keep spider.middleware keep_enter spider.pre_checkers

  chain_keeps : (c : Context) → P c → P (do_chain spider.middleware c)
  chain_keeps = do_chain_keeps P keep spider.middleware keep_enter keep_init

  restart_keeps : (c : Context) → P c → P (restart spider c)
  unfolding restart
  restart_keeps c o = keep_status _ (call_keeps spider.start _ (keep_retried c o))

  do_retry_keeps : (fuel max : ℕ) (t : Task) → P t.ctx → P (do_retry quits spider fuel max t).ctx
  unfolding do_retry
  do_retry_keeps zero max t o = o
  do_retry_keeps (suc fuel) max t o =
      let ctx = do_chain spider.middleware t.ctx in
      let ran = chain_keeps t.ctx o in
      let retry = call spider spider.on_retry ctx in
      let checked = check_keeps retry (call_keeps spider.on_retry ctx ran) in
      elim (Bool-cases (is_stopped ctx)) [
        | inl e ↦ rw e ran
        | inr e ↦ elim (Bool-cases (is_failed ctx.status_code)) [
          | inr f ↦ rw (e, f) ran
          | inl f ↦ elim (Bool-cases (ltb max (ctx.try_times + 1))) [
            | inl m ↦ rw (e, f, m) ran
            | inr m ↦ elim (Bool-cases (quits t.polls)) [
              | inl q ↦ rw (e, f, m, q) ran
              | inr q ↦ elim (Bool-cases (is_stopped (check spider retry))) [
                | inl s ↦ rw (e, f, m, q, s) checked
                | inr s ↦
                    rw (e, f, m, q, s)
                      (do_retry_keeps fuel max _ (restart_keeps (check spider retry) checked))
              ]
            ]
          ]
        ]
      ]

  pub attempt_keeps : (max : ℕ) (t : Task) → P t.ctx → P (attempt quits spider max t).ctx
  unfolding attempt
  attempt_keeps zero t o = chain_keeps t.ctx o
  attempt_keeps (suc max) t o = do_retry_keeps (suc (suc max)) (suc max) t o
