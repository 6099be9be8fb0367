-- ===== src/Spider/Factory/Ending.antt =====
-- A task whose handlers make no requests of their own comes to its end.
use openscraper_framework.Prelude.{
  ℕ, zero, suc, ◌+◌, ◌<◌, Bool, true, false, All, length, ltb, ◌≡◌, refl, Bool-cases, inl, inr,
  arith,
}
use openscraper_framework.Spider.Context.{
  Context, failed, note, is_stopped, acquire_context, Script, next, do_chain,
}
use openscraper_framework.Spider.Context.Quiet.{
  IsQuiet, NoNew, run_script-NoNew, next_from-NoNew, do_chain-NoNew, pre_check-NoNew,
}
use openscraper_framework.Spider.Factory.{
  Spider, Task, is_failed, call, check, do_retry, attempt, after_failure, leaves, round, opening,
  task_loop, do_item,
}
use openscraper_framework.Spider.Factory.Finishing.{finishes, do_item-finishes}
use openscraper_framework.Spider.Factory.Counts.{
  Counts, call-Counts, check-Counts, chain-Counts, restart-Counts,
}

-- The handlers, the checkers, OnRetry and OnFailed never call NewRequest; Start, PreStart and
-- OnFinished may.
pub record IsQuietSpider (spider : Spider) : Type 0 where
  pub handlers : All IsQuiet spider.middleware
  pub checkers : All IsQuiet spider.pre_checkers
  pub retrying : IsQuiet spider.on_retry
  pub failing : IsQuiet spider.on_failed

module _ (quits : ℕ → Bool) (spider : Spider) (quiet : IsQuietSpider spider) where
  call-NoNew : (s : Script) (c : Context) → IsQuiet s → NoNew c → NoNew (call spider s c)
  call-NoNew s c q p =
      run_script-NoNew (next spider.middleware) s c
        (λ d. next_from-NoNew (length spider.middleware) spider.middleware d quiet.handlers) q p

  more_left :
      (n max : ℕ) (ctx : Context)
      → ctx.try_times ≡ n
      → ltb max (ctx.try_times + 1) ≡ false
      → n < max
  more_left n max ctx p x = ground arith

  NoNew-round :
      (fuel n k max : ℕ) (t : Task)
      → Counts n k t.ctx
      → ((u : Task)
          → n < max
          → Counts (suc n) (suc k) u.ctx
          → NoNew (do_retry quits spider fuel max u).ctx)
      → NoNew (do_retry quits spider (suc fuel) max t).ctx
  unfolding do_retry
  NoNew-round fuel n k max t p later =
      let ctx = do_chain spider.middleware t.ctx in
      let none_made = do_chain-NoNew spider.middleware t.ctx quiet.handlers in
      let ran = chain-Counts spider n k t.ctx p in
      let retry = call spider spider.on_retry ctx in
      let checked = check spider retry in
      let still =
        pre_check-NoNew spider.middleware spider.pre_checkers retry quiet.handlers quiet.checkers
          (call-NoNew spider.on_retry ctx quiet.retrying none_made) in
      let counted =
        check-Counts spider n (suc k) retry
          (call-Counts spider n (suc k) spider.on_retry ctx ran) in
      elim (Bool-cases (is_stopped ctx)) [
        | inl e ↦ rw e none_made
        | inr e ↦ elim (Bool-cases (is_failed ctx.status_code)) [
          | inr f ↦ rw (e, f) none_made
          | inl f ↦ elim (Bool-cases (ltb max (ctx.try_times + 1))) [
            | inl x ↦ rw (e, f, x) none_made
            | inr x ↦ elim (Bool-cases (quits t.polls)) [
              | inl q ↦ rw (e, f, x, q) none_made
              | inr q ↦ elim (Bool-cases (is_stopped checked)) [
                | inl s ↦ rw (e, f, x, q, s) still
                | inr s ↦
                    rw (e, f, x, q, s)
                      (later _ (more_left n max ctx ran.0 x)
                        (restart-Counts spider n (suc k) checked counted))
              ]
            ]
          ]
        ]
      ]

  -- When doRetry ends with enough fuel, the last attempt left no new request.
  do_retry-NoNew :
      (fuel left n k max : ℕ) (t : Task)
      → max ≡ n + left
      → left < fuel
      → Counts n k t.ctx
      → NoNew (do_retry quits spider fuel max t).ctx
  do_retry-NoNew zero left n k max t m l p = absurd (omega arith)
  do_retry-NoNew (suc fuel) zero n k max t m l p =
      NoNew-round fuel n k max t p (λ u x q. absurd (omega arith))
  do_retry-NoNew (suc fuel) (suc left) n k max t m l p =
      NoNew-round fuel n k max t p
        (λ u x q. do_retry-NoNew fuel left (suc n) (suc k) max u (omega arith) (omega arith) q)

  attempt-NoNew : (max k : ℕ) (t : Task) → Counts 0 k t.ctx → NoNew (attempt quits spider max t).ctx
  unfolding attempt
  attempt-NoNew zero k t p = do_chain-NoNew spider.middleware t.ctx quiet.handlers
  attempt-NoNew (suc max) k t p =
      do_retry-NoNew (suc (suc max)) (suc max) 0 k (suc max) t (omega arith) (omega arith) p

  after_failure-NoNew : (c : Context) → NoNew c → NoNew (after_failure quits spider c)
  unfolding after_failure
  after_failure-NoNew c p = elim (Bool-cases (is_failed c.status_code)) [
    | inl e ↦ rw e (call-NoNew spider.on_failed (note failed c) quiet.failing p)
    | inr e ↦ rw e p
  ]

  round_ends :
      (max k : ℕ) (again : Task → Task × Bool) (t : Task)
      → Counts 0 k t.ctx
      → (round quits spider max again t).1 ≡ true
  unfolding round
  round_ends max k again t p =
      let t' = attempt quits spider max t in
      let last = after_failure-NoNew t'.ctx (attempt-NoNew max k t p) in rw last

  opening_ends :
      (k : ℕ) (body : Task → Task × Bool) (t : Task)
      → ((u : Task) → Counts 0 k u.ctx → (body u).1 ≡ true)
      → Counts 0 k t.ctx
      → (opening quits spider false body t).1 ≡ true
  unfolding opening
  opening_ends k body t b p =
      let ready = call spider spider.pre_start (check spider t.ctx) in
      let ok = call-Counts spider 0 k spider.pre_start _ (check-Counts spider 0 k t.ctx p) in
      let started = call-Counts spider 0 k spider.start ready ok in
      elim (Bool-cases (is_stopped ready)) [
        | inl e ↦ rw e
        | inr e ↦ elim (Bool-cases (leaves quits spider (call spider spider.start ready))) [
          | inl l ↦ rw (e, l)
          | inr l ↦ rw (e, l) (b _ started)
        ]
      ]

  comes_to_end : (fuel max : ℕ) → quits 0 ≡ false → (do_item quits spider (suc fuel) max).1 ≡ true
  unfolding do_item task_loop acquire_context
  comes_to_end fuel max stays = rw stays (
      opening_ends 0 (round quits spider max (task_loop quits spider fuel max true)) _
        (λ u p. round_ends max 0 (task_loop quits spider fuel max true) u p) (refl, refl))

  -- A task comes to its end, and OnFinished is called exactly once, if the worker is never told to leave
  -- and the handlers, the checkers, OnRetry and OnFailed make no requests. One round is enough, for any
  -- number of retries.
  pub do_item_ends :
      (fuel max : ℕ)
      → ((n : ℕ) → quits n ≡ false)
      → let (c, ended) = do_item quits spider (suc fuel) max in
        (ended ≡ true) × (finishes c.trace ≡ 1)
  do_item_ends fuel max stays =
      let e = comes_to_end fuel max (stays 0) in
      elim (do_item-finishes quits spider (suc fuel) max) [
        | inl (f, q) ↦ (e, f)
        | inr (f, inl q) ↦ absurd (cc)
        | inr (f, inr (j, q)) ↦ let stay = stays j in absurd (cc)
      ]
