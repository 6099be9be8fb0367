-- ===== src/Spider/Factory/Retries.antt =====
-- How often the chain of handlers runs for one request, and when doRetry gives up.
use openscraper_framework.Prelude.{
  ℕ, zero, suc, ◌+◌, ◌≤◌, ◌<◌, Bool, true, false, ◌≡◌, refl, ◌∙◌, Bool-cases, inl, inr, ◌⊎◌, ltb,
  ltb→lt, arith,
}
use openscraper_framework.Spider.Context.{Context, is_stopped, do_chain}
use openscraper_framework.Spider.Factory.{Spider, Task, is_failed, call, check, do_retry, attempt}
use openscraper_framework.Spider.Factory.Counts.{
  attempts, Counts, call-Counts, check-Counts, chain-Counts, restart-Counts,
}

module _ (quits : ℕ → Bool) (spider : Spider) where
  -- Why the attempts for a request ended: user code stopped the task, the last attempt did not fail,
  -- the last look told the worker to leave, or there were `limit` attempts.
  abbrev pub Ended : ℕ → ℕ → Task → Type 0
  Ended limit before t =
      (is_stopped t.ctx ≡ true)
      ⊎ (is_failed t.ctx.status_code ≡ false)
      ⊎ ((j : ℕ) × (t.polls ≡ suc j) × (quits j ≡ true))
      ⊎ (attempts t.ctx.trace ≡ before + limit)

  -- Between one attempt and `limit` attempts were made, and the attempts ended for a reason.
  pub record Settled (limit before : ℕ) (t : Task) : Type 0 where
    pub some_attempt : suc before ≤ attempts t.ctx.trace
    pub at_most : attempts t.ctx.trace ≤ before + limit
    pub ended : Ended limit before t

  last_attempt :
      (left n before max : ℕ) (ctx : Context)
      → max ≡ n + left
      → Counts n (suc before) ctx
      → ltb max (ctx.try_times + 1) ≡ true
      → attempts ctx.trace ≡ before + suc left
  last_attempt left n before max ctx m p l = omega (arith, ltb→lt max (ctx.try_times + 1) l)

  more_left :
      (n before max : ℕ) (ctx : Context)
      → Counts n (suc before) ctx
      → ltb max (ctx.try_times + 1) ≡ false
      → n < max
  more_left n before max ctx p l = ground arith

  -- A later start, after one more attempt, settles the earlier one.
  settle_later :
      (left before : ℕ) (t : Task)
      → Settled (suc left) (suc before) t
      → Settled (suc (suc left)) before t
  settle_later left before t s = record {
    some_attempt = omega (arith, s.some_attempt);
    at_most = omega (arith, s.at_most);
    ended = elim s.ended [
      | inl e ↦ inl e
      | inr (inl e) ↦ inr (inl e)
      | inr (inr (inl e)) ↦ inr (inr (inl e))
      | inr (inr (inr e)) ↦ inr (inr (inr (omega arith)))
    ];
  }

  -- The attempts end after the first one.
  settle_now :
      (left before : ℕ) (t : Task)
      → attempts t.ctx.trace ≡ suc before
      → Ended (suc left) before t
      → Settled (suc left) before t
  settle_now left before t a e = record {
    some_attempt = omega arith;
    at_most = omega arith;
    ended = e;
  }

  -- One round, given what the later rounds do.
  do_retry_round :
      (fuel left n before max : ℕ) (t : Task)
      → max ≡ n + left
      → Counts n before t.ctx
      → ((u : Task)
          → n < max
          → Counts (suc n) (suc before) u.ctx
          → Settled (suc left) before (do_retry quits spider fuel max u))
      → Settled (suc left) before (do_retry quits spider (suc fuel) max t)
  unfolding do_retry
  do_retry_round fuel left n before max t m p later =
      let ctx = do_chain spider.middleware t.ctx in
      let ran = chain-Counts spider n before t.ctx p in
      let retry = call spider spider.on_retry ctx in
      let checked = check spider retry in
      let counted =
        check-Counts spider n (suc before) retry
          (call-Counts spider n (suc before) spider.on_retry ctx ran) in
      elim (Bool-cases (is_stopped ctx)) [
        | inl e ↦ rw e (settle_now left before _ ran.1 (inl e))
        | inr e ↦ elim (Bool-cases (is_failed ctx.status_code)) [
          | inr f ↦ rw (e, f) (settle_now left before _ ran.1 (inr (inl f)))
          | inl f ↦ elim (Bool-cases (ltb max (ctx.try_times + 1))) [
            | inl l ↦
                rw (e, f, l)
                  (settle_now left before _ ran.1
                    (inr (inr (inr (last_attempt left n before max ctx m ran l)))))
            | inr l ↦ elim (Bool-cases (quits t.polls)) [
              | inl q ↦
                  rw (e, f, l, q)
                    (settle_now left before _ ran.1 (inr (inr (inl (t.polls, refl, q)))))
              | inr q ↦ elim (Bool-cases (is_stopped checked)) [
                | inl s ↦ rw (e, f, l, q, s) (settle_now left before _ counted.1 (inl s))
                | inr s ↦
                    rw (e, f, l, q, s)
                      (later _ (more_left n before max ctx ran l)
                        (restart-Counts spider n (suc before) checked counted))
              ]
            ]
          ]
        ]
      ]

  -- `left` retries are left: the retries so far and these make `max`.
  settles :
      (fuel left n before max : ℕ) (t : Task)
      → max ≡ n + left
      → left < fuel
      → Counts n before t.ctx
      → Settled (suc left) before (do_retry quits spider fuel max t)
  settles zero left n before max t m l p = absurd (omega arith)
  settles (suc fuel) zero n before max t m l p =
      do_retry_round fuel zero n before max t m p (λ u k q. absurd (omega arith))
  settles (suc fuel) (suc left) n before max t m l p =
      do_retry_round fuel (suc left) n before max t m p (λ u k q.
        settle_later left before _
          (settles fuel left (suc n) (suc before) max u (omega arith) (omega arith) q))

  -- With any fuel above the number of retries, doRetry runs the chain of handlers at least once and at
  -- most once more than the number of retries, and less often only for a reason. The retries so far
  -- are 0.
  pub do_retry-Settled :
      (fuel max : ℕ) (t : Task)
      → max < fuel
      → t.ctx.try_times ≡ 0
      → Settled (suc max) (attempts t.ctx.trace) (do_retry quits spider fuel max t)
  do_retry-Settled fuel max t l e =
      settles fuel max 0 (attempts t.ctx.trace) max t (omega arith) l (e, refl)

  -- For one request, a factory runs the chain of handlers at least once and at most once more than
  -- MaxRetryTimes; and it runs it less often only if user code stopped the task, the last run did
  -- not fail, or the worker was told to leave. The retries so far are 0, as at every new request.
  pub attempt-Settled :
      (max : ℕ) (t : Task)
      → t.ctx.try_times ≡ 0
      → Settled (suc max) (attempts t.ctx.trace) (attempt quits spider max t)
  unfolding attempt
  attempt-Settled zero t e =
      settle_now 0 (attempts t.ctx.trace) _
        (chain-Counts spider 0 (attempts t.ctx.trace) t.ctx (e, refl)).1
        (inr (
          inr
            (inr ((chain-Counts spider 0 (attempts t.ctx.trace) t.ctx (e, refl)).1 ∙ omega arith))))
  attempt-Settled (suc max) t e = do_retry-Settled (suc (suc max)) (suc max) t (omega arith) e
