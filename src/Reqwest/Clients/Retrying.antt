-- ===== src/Reqwest/Clients/Retrying.antt =====
-- What a request with retries counts.
use openscraper_framework.Prelude.{
  ℕ, zero, suc, ◌+◌, ◌%◌, ◌<◌, ◌||◌, Bool-cases, Option, none, some, ◌≡◌, refl, arith, ◌⊎◌, inl,
  inr, is_none, if◌then◌else◌, subst, sym, ◌∙◌,
}
use openscraper_framework.Prelude.Int.{pos}
use openscraper_framework.Reqwest.Stats.{incr_request}
use openscraper_framework.Reqwest.World.{World, count_in}
use openscraper_framework.Reqwest.Guard.{ProxyGuard, release_proxy}
use openscraper_framework.Reqwest.Clients.{
  HttpClient, Inner, HttpError, connection_closed, handshake_timeout, other, Kinds, failed, check,
  classified, answered, do_timeout, retry, do_request_timeout_and_retry,
}

abbrev pub Words : World → ℕ → Type 0
Words w failed_times =
    (w.stats.request < 4294967296)
    × (w.stats.request_failed < 4294967296)
    × (failed_times < 4294967296)

-- The inner client leaves the counters of requests alone.
abbrev pub LeavesCounts : {P F Err Resp : Type 0} → Inner P F Err Resp → Type 0
LeavesCounts {P} {F} inner =
    (g : ProxyGuard P F) (w : World)
    → ((inner g w).world.stats.request ≡ w.stats.request)
      × ((inner g w).world.stats.request_failed ≡ w.stats.request_failed)

release_proxy-counts :
    {P F : Type 0} (g : ProxyGuard P F) (w : World)
    → ((release_proxy g w).1.stats.request ≡ w.stats.request)
      × ((release_proxy g w).1.stats.request_failed ≡ w.stats.request_failed)
unfolding release_proxy
release_proxy-counts g w = (ground arith, ground arith)

-- What a run of requests counts, and the failures in a row: all of them, or none behind a success.
pub record Counted {P F : Type 0} (requests failures in_a_row : ℕ) (c c' : HttpClient P F)
    : Type 0 where
  pub request : c'.world.stats.request ≡ (c.world.stats.request + requests) % 4294967296
  pub request_failed :
      c'.world.stats.request_failed ≡ (c.world.stats.request_failed + failures) % 4294967296
  pub failed_times : c'.failed_times ≡ in_a_row % 4294967296

abbrev Attempted :
    {P F Err : Type 0} → HttpClient P F → HttpClient P F × Option (HttpError Err) → Type 0
Attempted c (c', none) = Counted 1 0 0 c c'
Attempted c (c', some e) = Counted 1 1 (c.failed_times + 1) c c'

-- The rounds of a run that returned, with the counts of the rounds.
abbrev pub Retried :
    {P F Err : Type 0} → ℕ → HttpClient P F → HttpClient P F × Option (HttpError Err) → Type 0
Retried n c (c', some e) = Counted n n (c.failed_times + n) c c'
Retried n c (c', none) = (k : ℕ) × (k < n) × Counted (suc k) k 0 c c'

module _ {P F Err Resp : Type 0} (kinds : Kinds Err) (inner : Inner P F Err Resp) where
  classified-Counted :
      (c : HttpClient P F) (e : Err)
      → (x : HttpError Err) × ((classified kinds inner c e).1 ≡ some x)
        × ((classified kinds inner c e).0.world.stats.request ≡ c.world.stats.request)
        × ((classified kinds inner c e).0.world.stats.request_failed ≡ c.world.stats.request_failed)
        × ((classified kinds inner c e).0.failed_times ≡ c.failed_times)
  unfolding classified
  classified-Counted c e =
      let (a, b) = release_proxy-counts c.guard c.world in
      elim (Bool-cases (kinds.is_connection_closed e || kinds.is_not_tls e)) [
        | inl t ↦ (connection_closed, rw t, rw t a, rw t b, rw t)
        | inr t ↦ elim (Bool-cases (kinds.is_handshake_timeout e)) [
          | inl u ↦ (handshake_timeout, rw (t, u), rw (t, u) a, rw (t, u) b, rw (t, u))
          | inr u ↦ (other e, rw (t, u), rw (t, u), rw (t, u), rw (t, u))
        ]
      ]

  answered-Attempted :
      (c c' : HttpClient P F) (o : Err ⊎ Resp)
      → Words c.world c.failed_times
      → c'.world.stats.request ≡ (c.world.stats.request + 1) % 4294967296
      → c'.world.stats.request_failed ≡ c.world.stats.request_failed
      → c'.failed_times ≡ c.failed_times
      → Attempted c (answered kinds inner c' o)
  unfolding answered
  answered-Attempted c c' (inr resp) h a b d = record {
    request = a;
    request_failed = omega (arith, b, h.1);
    failed_times = refl;
  }
  answered-Attempted c c' (inl e) h a b d =
      let (x, r, u, v, y) = classified-Counted (failed c') e in
      subst (Attempted c) (λ i. ((classified kinds inner (failed c') e).0, sym r i))
        (record {
          request = u ∙ a;
          request_failed = v ∙ ground (arith, b);
          failed_times = y ∙ ground (arith, d);
        })

  module _ (l : LeavesCounts inner) where
    do_timeout-Attempted :
        (now : ℕ) (c : HttpClient P F)
        → Words c.world c.failed_times
        → Attempted c (do_timeout kinds inner now c)
    unfolding do_timeout
    do_timeout-Attempted now c h =
        let w = count_in incr_request c.world in
        let sent = inner (check now c).guard w in
        let (a, b) = l (check now c).guard w in
        answered-Attempted c (record c { guard = sent.guard; world = sent.world }) sent.outcome h a
          b refl

    mod-Words :
        {requests failures in_a_row : ℕ} (c c' : HttpClient P F)
        → Counted requests failures in_a_row c c'
        → Words c'.world c'.failed_times
    mod-Words c c' d =
        (omega (arith, d.request), omega (arith, d.request_failed), omega (arith, d.failed_times))

    Retried-suc :
        (n : ℕ) (c c' : HttpClient P F) (r : HttpClient P F × Option (HttpError Err))
        → Counted 1 1 (c.failed_times + 1) c c'
        → Retried n c' r
        → Retried (suc n) c r
    Retried-suc n c c' (d, some e) a b = record {
      request = omega (arith, a.request, b.request);
      request_failed = omega (arith, a.request_failed, b.request_failed);
      failed_times = omega (arith, a.failed_times, b.failed_times);
    }
    Retried-suc n c c' (d, none) a (k, h, b) = (
      suc k,
      omega arith,
      record {
        request = omega (arith, a.request, b.request);
        request_failed = omega (arith, a.request_failed, b.request_failed);
        failed_times = b.failed_times;
      },
    )

    round :
        (time : ℕ → ℕ) (n : ℕ) (c c' : HttpClient P F) (err : Option (HttpError Err))
        → Attempted c (c', err)
        → ((e : HttpError Err)
            → Words c'.world c'.failed_times
            → Retried n c' (retry (do_timeout kinds inner) time n c' (some e)))
        → Retried
            (suc n)
            c
            (if is_none err then (c', none) else retry (do_timeout kinds inner) time n c' err)
    round time n c c' none a ih = (0, omega arith, a)
    round time n c c' (some e) a ih =
        Retried-suc n c c' (retry (do_timeout kinds inner) time n c' (some e)) a
          (ih e (mod-Words c c' a))

    retry-Retried :
        (time : ℕ → ℕ) (n : ℕ) (c : HttpClient P F) (e : HttpError Err)
        → Words c.world c.failed_times
        → Retried n c (retry (do_timeout kinds inner) time n c (some e))
    unfolding retry
    retry-Retried time zero c e h = record {
      request = omega (arith, h.0);
      request_failed = omega (arith, h.1);
      failed_times = omega (arith, h.2);
    }
    retry-Retried time (suc n) c e h =
        let (c', err) = do_timeout kinds inner (time n) c in
        round time n c c' err (do_timeout-Attempted (time n) c h) (retry-Retried time n c')

    -- With a positive number of times, FastHttpClient makes at most that many requests, and each is counted.
    -- If it returns an error, it made them all, each failed and is counted as failed, and httpFailedTimes has
    -- grown by their number; if it returns nil, only the last request did not fail, and httpFailedTimes is
    -- 0. Counters are modulo 2 ^ 32, and the inner client leaves these alone.
    pub do_request_timeout_and_retry-Retried :
        (time : ℕ → ℕ) (n : ℕ) (c : HttpClient P F)
        → Words c.world c.failed_times
        → Retried
            (suc n)
            c
            (do_request_timeout_and_retry (do_timeout kinds inner) time (pos (suc n)) c)
    unfolding do_request_timeout_and_retry retry
    do_request_timeout_and_retry-Retried time n c h =
        let (c', err) = do_timeout kinds inner (time n) c in
        round time n c c' err (do_timeout-Attempted (time n) c h) (retry-Retried time n c')
