-- ===== src/Reqwest/Limits.antt =====
-- Option.Acquire and Option.Release of reqwest/option.go: how many requests run at once. Each client is
-- used by one goroutine at a time, and the clients take turns in any order; a turn is one call on a
-- semaphore or on the values of the global context, which hold their locks.
pub mod Turns
pub mod Sharing
use openscraper_framework.Prelude.{
  ℕ, zero, suc, ◌+◌, ◌-◌, ◌≤◌, ◌<◌, Bool, true, false, Option, none, some, List, [], ◌∷◌, ltb, ◌==◌,
  if◌then◌else◌, ◌≡◌, refl, arith,
}

-- semaphore.Weighted: its size, and the permits that are held.
pub record Weighted : Type 0 where
  pub size : ℕ
  pub held : ℕ

-- The semaphores there are, below `fresh`, and the one under DOT.GLOBAL.CONCURRENCE.
pub record Shared : Type 0 where
  pub semaphores : ℕ → Weighted
  pub fresh : ℕ
  pub global : Option ℕ

-- Where a client stands: before Acquire, before WithImmutableValue, before the call of Acquire of its
-- semaphore, or in its request.
pub data Phase : Type 0 where
  idle storing waiting running : Phase

-- The fields of Option, a negative Concurrence being as good as 0.
pub record Client : Type 0 where
  pub limit : Option ℕ
  pub concurrence : ℕ
  pub phase : Phase

abbrev set_held : ℕ → ℕ → Shared → Shared
set_held r n s = record s {
  semaphores =
      λ q. if q == r then record { size = (s.semaphores q).size; held = n } else s.semaphores q;
}

-- semaphore.NewWeighted(o.Concurrence)
abbrev new_weighted : ℕ → Shared → Shared
new_weighted size s = record s {
  semaphores = λ q. if q == s.fresh then record { size = size; held = 0 } else s.semaphores q;
  fresh = suc s.fresh;
}

-- dot.WithImmutableValue of the new semaphore, and the assignment of what it returns.
with_immutable_value : Client → ℕ → Option ℕ → Shared → Client × Shared
with_immutable_value c r (some q) s = (record c { limit = some q; phase = waiting }, s)
with_immutable_value c r none s =
    (record c { limit = some r; phase = waiting }, record s { global = some r })

-- dot.Value
look : Client → Option ℕ → Client
look c none = record c { phase = storing }
look c (some q) = record c { limit = some q; phase = waiting }

enter : Client → Shared → Option ℕ → Client × Shared
unfolding look
enter c s (some r) = (record c { phase = waiting }, s)
enter c s none =
    if ltb 0 c.concurrence then (look c s.global, s) else (record c { phase = running }, s)

-- Acquire(ctx, 1) waits while all permits are held.
acquire : Client → Shared → Option ℕ → Client × Shared
acquire c s none = (c, s)
acquire c s (some r) =
    if ltb (s.semaphores r).held (s.semaphores r).size
    then (record c { phase = running }, set_held r ((s.semaphores r).held + 1) s)
    else (c, s)

release : Client → Shared → Option ℕ → Client × Shared
release c s none = (record c { phase = idle }, s)
release c s (some r) = (record c { phase = idle }, set_held r ((s.semaphores r).held - 1) s)

-- One turn of a client.
turn_at : Client → Shared → Phase → Client × Shared
unfolding enter with_immutable_value acquire release
turn_at c s idle = enter c s c.limit
turn_at c s storing = with_immutable_value c s.fresh s.global (new_weighted c.concurrence s)
turn_at c s waiting = acquire c s c.limit
turn_at c s running = release c s c.limit

pub turn : Client → Shared → Client × Shared
unfolding turn_at
turn c s = turn_at c s c.phase

-- The turn of the client of an index.
pub turn_of : ℕ → List Client → Shared → List Client × Shared
turn_of i [] s = ([], s)
turn_of zero (c ∷ cs) s = let (c', s') = turn c s in (c' ∷ cs, s')
turn_of (suc i) (c ∷ cs) s = let (cs', s') = turn_of i cs s in (c ∷ cs', s')

unfoldable pub turns : List ℕ → List Client → Shared → List Client × Shared
unfolding turn_of turn
turns [] cs s = (cs, s)
turns (i ∷ is) cs s = let (cs', s') = turn_of i cs s in turns is cs' s'

-- How many requests run under a semaphore.
abbrev runs : Phase → Option ℕ → ℕ → ℕ
runs running (some q) r = if q == r then 1 else 0
runs _ _ _ = 0

unfoldable pub running_under : ℕ → List Client → ℕ
running_under r [] = 0
running_under r (c ∷ cs) = runs c.phase c.limit r + running_under r cs

-- All requests that run.
abbrev running_in : Phase → ℕ
running_in running = 1
running_in _ = 0

unfoldable pub all_running : List Client → ℕ
all_running [] = 0
all_running (c ∷ cs) = running_in c.phase + all_running cs
