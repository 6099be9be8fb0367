-- ===== src/Reqwest/Clients.antt =====
-- The clients of reqwest (fasthttp_client.go, standard_client.go, tls_client.go): one request, and the
-- retries, with what they count. The inner client of the third-party package is a parameter: it may use
-- the guard and the proxies, through its dials. Acquire and Release stand in Limits.
pub mod Retrying
use openscraper_framework.Prelude.{
  ℕ, zero, suc, ◌+◌, ◌%◌, Bool, true, false, ◌||◌, Option, none, some, ◌⊎◌, inl, inr, is_none,
  if◌then◌else◌,
}
use openscraper_framework.Prelude.Int.{ℤ, pos, pos_part, of_pattern}
use openscraper_framework.Reqwest.Stats.{Stats, add_uint32, incr_request, incr_request_failed}
use openscraper_framework.Reqwest.World.{World, count_in}
use openscraper_framework.Reqwest.Guard.{ProxyGuard, release_proxy, check_proxy_and_close_idle_conn}

-- `failed_times` is the bit pattern of httpFailedTimes, an int32.
pub record HttpClient (P F : Type 0) : Type 0 where
  pub guard : ProxyGuard P F
  pub world : World
  pub failed_times : ℕ

-- What the inner client returns, with the guard and the proxies as its dials leave them.
pub record Sent (P F Err Resp : Type 0) : Type 0 where
  pub guard : ProxyGuard P F
  pub world : World
  pub outcome : Err ⊎ Resp

abbrev pub Inner : Type 0 → Type 0 → Type 0 → Type 0 → Type 0
Inner P F Err Resp = ProxyGuard P F → World → Sent P F Err Resp

pub data HttpError (Err : Type 0) : Type 0 where
  connection_closed handshake_timeout : HttpError Err
  other : Err → HttpError Err

-- What the code asks of an error of fasthttp.
pub record Kinds (Err : Type 0) : Type 0 where
  pub is_connection_closed : Err → Bool
  pub is_not_tls : Err → Bool
  pub is_handshake_timeout : Err → Bool

-- atomic.AddInt32(&c.httpFailedTimes, 1) and IncrRequestFailed
abbrev failed : {P F : Type 0} → HttpClient P F → HttpClient P F
failed c = record c {
  failed_times = add_uint32 c.failed_times 1;
  world = count_in incr_request_failed c.world;
}

unfoldable pub http_failed_times : {P F : Type 0} → HttpClient P F → ℤ
http_failed_times c = of_pattern 2147483648 c.failed_times

module _ {P F : Type 0} where
  abbrev with_guard : HttpClient P F → ProxyGuard P F × World → HttpClient P F
  with_guard c (g, w) = record c { guard = g; world = w }

  abbrev check : ℕ → HttpClient P F → HttpClient P F
  check now c = record c { guard = check_proxy_and_close_idle_conn now c.guard c.world }

  -- ReleaseProxy of the client is that of its guard.
  abbrev released : HttpClient P F → HttpClient P F
  released c = with_guard c (release_proxy c.guard c.world)

  module _ {Err Resp : Type 0} (kinds : Kinds Err) (inner : Inner P F Err Resp) where
    -- The errors that mean that the connections of the proxy are gone.
    classified : HttpClient P F → Err → HttpClient P F × Option (HttpError Err)
    classified c e =
        if kinds.is_connection_closed e || kinds.is_not_tls e
        then (released c, some connection_closed)
        else if kinds.is_handshake_timeout e
        then (released c, some handshake_timeout)
        else (c, some (other e))

    answered : HttpClient P F → Err ⊎ Resp → HttpClient P F × Option (HttpError Err)
    unfolding classified
    answered c (inl e) = classified (failed c) e
    answered c (inr resp) = (record c { failed_times = 0 }, none)

    -- DoTimeout of FastHttpClient
    unfoldable pub do_timeout : ℕ → HttpClient P F → HttpClient P F × Option (HttpError Err)
    unfolding answered
    do_timeout now c =
        let sent = inner (check now c).guard (count_in incr_request c.world) in
        answered (record c { guard = sent.guard; world = sent.world }) sent.outcome

  module _ {Err Resp : Type 0} (set_response : Resp → Option Err) (inner : Inner P F Err Resp) where
    responded : HttpClient P F → Err ⊎ Resp → HttpClient P F × Option Err
    responded c (inl e) = (failed c, some e)
    responded c (inr resp) = (record c { failed_times = 0 }, set_response resp)

    -- DoRequestTimeout of StandardClient and of TlsClient
    unfoldable pub do_request_timeout : ℕ → HttpClient P F → HttpClient P F × Option Err
    unfolding responded
    do_request_timeout now c =
        let sent = inner (check now c).guard c.world in
        responded (record c { guard = sent.guard; world = sent.world }) sent.outcome

-- DoRequestTimeoutAndRetry, the same in all three clients: `times > 0` rounds, each at its time.
retry : {S Err : Type 0} → (ℕ → S → S × Option Err) → (ℕ → ℕ) → ℕ → S → Option Err → S × Option Err
retry attempt time zero s err = (s, err)
retry attempt time (suc times) s err =
    let (s', err') = attempt (time times) s in
    let rest = retry attempt time times s' err' in if is_none err' then (s', none) else rest

unfoldable pub do_request_timeout_and_retry :
    {S Err : Type 0} → (ℕ → S → S × Option Err) → (ℕ → ℕ) → ℤ → S → S × Option Err
unfolding retry
do_request_timeout_and_retry attempt time times s = retry attempt time (pos_part times) s none
