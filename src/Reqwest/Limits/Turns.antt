-- ===== src/Reqwest/Limits/Turns.antt =====
-- However the clients take turns, no semaphore lets more requests run than its size.
use openscraper_framework.Prelude.{
  ℕ, zero, suc, ◌+◌, ◌-◌, ◌≤◌, ◌<◌, Bool-cases, Option, none, some, List, [], ◌∷◌, ltb, All, ◌≡◌,
  refl, arith, inl, inr,
}
use openscraper_framework.Reqwest.Limits.{
  Shared, Phase, idle, storing, waiting, running, Client, set_held, new_weighted,
  with_immutable_value, look, enter, acquire, release, turn_at, turn, turn_of, turns, runs,
  running_under,
}

abbrev pub Below : ℕ → Option ℕ → Type 0
Below n none = Unit
Below n (some r) = r < n

-- A semaphore that is not there yet has no permits out, and the global one is there.
record IsShared (s : Shared) : Type 0 where
  within : (r : ℕ) → (s.semaphores r).held ≤ (s.semaphores r).size
  unused : (r : ℕ) → s.fresh ≤ r → (s.semaphores r).held ≡ 0
  global : Below s.fresh s.global

-- What a turn of a client does to a semaphore: the permits held change as the client's run does.
record Turned (c : Client) (s : Shared) (c' : Client) (s' : Shared) : Type 0 where
  counted :
      (r : ℕ)
      → (s'.semaphores r).held + runs c.phase c.limit r
        ≡ (s.semaphores r).held + runs c'.phase c'.limit r
  shared : IsShared s'
  grows : s.fresh ≤ s'.fresh
  limit : Below s'.fresh c'.limit

abbrev mk : Option ℕ → ℕ → Phase → Client
mk limit concurrence phase = record { limit = limit; concurrence = concurrence; phase = phase }

abbrev TurnedTo : Client → Shared → Client × Shared → Type 0
TurnedTo c s (c', s') = Turned c s c' s'

abbrev Holds : Client → Shared → Type 0
Holds c s = (r : ℕ) → runs c.phase c.limit r ≤ (s.semaphores r).held

Below-le : (m n : ℕ) (o : Option ℕ) → m ≤ n → Below m o → Below n o
Below-le m n none h b = tt
Below-le m n (some r) h b = omega arith

set_held-IsShared :
    (r n : ℕ) (s : Shared)
    → IsShared s
    → r < s.fresh
    → n ≤ (s.semaphores r).size
    → IsShared (set_held r n s)
set_held-IsShared r n s i l h = record {
  within = λ q. ground (arith, i.within q);
  unused = λ q f. ground (arith, i.unused q f);
  global = i.global;
}

new_weighted-IsShared : (size : ℕ) (s : Shared) → IsShared s → IsShared (new_weighted size s)
new_weighted-IsShared size s i = record {
  within = λ q. ground (arith, i.within q);
  unused = λ q f. ground (arith, i.unused q);
  global = Below-le s.fresh (suc s.fresh) s.global (omega arith) i.global;
}

module _ (s : Shared) (i : IsShared s) where
  -- Nothing is held, and no semaphore changes.
  plain :
      (c c' : Client)
      → ((r : ℕ) → runs c.phase c.limit r ≡ runs c'.phase c'.limit r)
      → Below s.fresh c'.limit
      → Turned c s c' s
  plain c c' e l = record {
    counted = λ r. omega (arith, e r);
    shared = i;
    grows = omega arith;
    limit = l;
  }

  stored :
      (o : Option ℕ) (n : ℕ) (g : Option ℕ)
      → Below s.fresh g
      → TurnedTo
          (mk o n storing)
          s
          (with_immutable_value (mk o n storing) s.fresh g (new_weighted n s))
  unfolding with_immutable_value
  stored o n (some q) b = record {
    counted = λ r. ground (arith, i.unused r);
    shared = new_weighted-IsShared n s i;
    grows = omega arith;
    limit = omega arith;
  }
  stored o n none b =
      let j = new_weighted-IsShared n s i in
      record {
        counted = λ r. ground (arith, i.unused r);
        shared = record { within = j.within; unused = j.unused; global = omega arith };
        grows = omega arith;
        limit = omega arith;
      }

  turn_at-Turned :
      (o : Option ℕ) (n : ℕ) (p : Phase)
      → Below s.fresh o
      → Holds (mk o n p) s
      → TurnedTo (mk o n p) s (turn_at (mk o n p) s p)
  unfolding turn_at enter look acquire release
  turn_at-Turned (some r) n idle l h =
      plain (mk (some r) n idle) (mk (some r) n waiting) (λ q. refl) l
  turn_at-Turned none n idle l h = elim (Bool-cases (ltb 0 n)) [
    | inl t ↦ rw t (looked s.global i.global)
    | inr t ↦ rw t (plain (mk none n idle) (mk none n running) (λ q. refl) tt)
  ]
    where
      looked :
          (g : Option ℕ) → Below s.fresh g → Turned (mk none n idle) s (look (mk none n idle) g) s
      looked none b = plain (mk none n idle) (mk none n storing) (λ q. refl) tt
      looked (some r) b = plain (mk none n idle) (mk (some r) n waiting) (λ q. refl) b
  turn_at-Turned o n storing l h = stored o n s.global i.global
  turn_at-Turned none n waiting l h = plain (mk none n waiting) (mk none n waiting) (λ q. refl) tt
  turn_at-Turned (some r) n waiting l h =
      elim (Bool-cases (ltb (s.semaphores r).held (s.semaphores r).size)) [
        | inl t ↦ rw t (record {
          counted = λ q. ground arith;
          shared = set_held-IsShared r ((s.semaphores r).held + 1) s i l (ground arith);
          grows = omega arith;
          limit = l;
        })
        | inr t ↦ rw t (plain (mk (some r) n waiting) (mk (some r) n waiting) (λ q. refl) l)
      ]
  turn_at-Turned none n running l h = plain (mk none n running) (mk none n idle) (λ q. refl) tt
  turn_at-Turned (some r) n running l h = record {
    counted = λ q. ground (arith, h r);
    shared = set_held-IsShared r ((s.semaphores r).held - 1) s i l (omega (arith, i.within r));
    grows = omega arith;
    limit = l;
  }

-- The requests that run under each semaphore are those that hold its permits.
record IsLimited (cs : List Client) (s : Shared) : Type 0 where
  counted : (r : ℕ) → (s.semaphores r).held ≡ running_under r cs
  shared : IsShared s
  limits : All (λ c. Below s.fresh c.limit) cs

-- The clients of a part of the list, of which others hold the rest of the permits.
record Part (cs : List Client) (s : Shared) : Type 0 where
  holds : (r : ℕ) → running_under r cs ≤ (s.semaphores r).held
  shared : IsShared s
  limits : All (λ c. Below s.fresh c.limit) cs

record Moved (cs : List Client) (s : Shared) (cs' : List Client) (s' : Shared) : Type 0 where
  counted :
      (r : ℕ)
      → (s'.semaphores r).held + running_under r cs ≡ (s.semaphores r).held + running_under r cs'
  shared : IsShared s'
  grows : s.fresh ≤ s'.fresh
  limits : All (λ c. Below s'.fresh c.limit) cs'

All-Below :
    (m n : ℕ) (cs : List Client)
    → m ≤ n
    → All (λ c. Below m c.limit) cs
    → All (λ c. Below n c.limit) cs
All-Below m n [] h a = tt
All-Below m n (c ∷ cs) h a = (Below-le m n c.limit h a.0, All-Below m n cs h a.1)

turn_of-Moved :
    (i : ℕ) (cs : List Client) (s : Shared)
    → Part cs s
    → Moved cs s (turn_of i cs s).0 (turn_of i cs s).1
unfolding turn_of turn running_under
turn_of-Moved i [] s p = record {
  counted = λ r. refl;
  shared = p.shared;
  grows = omega arith;
  limits = tt;
}
turn_of-Moved zero (c ∷ cs) s p =
    let t =
      turn_at-Turned s p.shared c.limit c.concurrence c.phase p.limits.0
        (λ r. omega (arith, p.holds r)) in
    record {
      counted = λ r. omega (arith, t.counted r);
      shared = t.shared;
      grows = t.grows;
      limits = (t.limit, All-Below s.fresh (turn c s).1.fresh cs t.grows p.limits.1);
    }
turn_of-Moved (suc i) (c ∷ cs) s p =
    let m =
      turn_of-Moved i cs s (record {
        holds = λ r. omega (arith, p.holds r);
        shared = p.shared;
        limits = p.limits.1;
      }) in
    record {
      counted = λ r. omega (arith, m.counted r);
      shared = m.shared;
      grows = m.grows;
      limits = (Below-le s.fresh (turn_of i cs s).1.fresh c.limit m.grows p.limits.0, m.limits);
    }

turns-IsLimited :
    (is : List ℕ) (cs : List Client) (s : Shared)
    → IsLimited cs s
    → IsLimited (turns is cs s).0 (turns is cs s).1
unfolding turns
turns-IsLimited [] cs s l = l
turns-IsLimited (i ∷ is) cs s l =
    let m =
      turn_of-Moved i cs s (record {
        holds = λ r. omega (arith, l.counted r);
        shared = l.shared;
        limits = l.limits;
      }) in
    turns-IsLimited is (turn_of i cs s).0 (turn_of i cs s).1 (record {
      counted = λ r. omega (arith, l.counted r, m.counted r);
      shared = m.shared;
      limits = m.limits;
    })

-- At the start no request runs, and no permit is held.
pub record Starts (cs : List Client) (s : Shared) : Type 0 where
  pub idle : All (λ c. (c.phase ≡ idle) × Below s.fresh c.limit) cs
  pub free : (r : ℕ) → (s.semaphores r).held ≡ 0
  pub global : Below s.fresh s.global

runs-idle : (p : Phase) (o : Option ℕ) (r : ℕ) → p ≡ idle → runs p o r ≡ 0
runs-idle idle o r h = refl
runs-idle storing o r h = cc
runs-idle waiting o r h = cc
runs-idle running o r h = cc

idle-IsLimited :
    (n r : ℕ) (cs : List Client)
    → All (λ c. (c.phase ≡ idle) × Below n c.limit) cs
    → (running_under r cs ≡ 0) × All (λ c. Below n c.limit) cs
unfolding running_under
idle-IsLimited n r [] h = (refl, tt)
idle-IsLimited n r (c ∷ cs) h =
    let (a, b) = idle-IsLimited n r cs h.1 in
    (omega (arith, runs-idle c.phase c.limit r h.0.0, a), (h.0.1, b))

Starts-IsLimited : (cs : List Client) (s : Shared) → Starts cs s → IsLimited cs s
Starts-IsLimited cs s h = record {
  counted = λ r. omega (arith, h.free r, (idle-IsLimited s.fresh r cs h.idle).0);
  shared = record {
    within = λ r. omega (arith, h.free r);
    unused = λ r l. h.free r;
    global = h.global;
  };
  limits = (idle-IsLimited s.fresh 0 cs h.idle).1;
}

-- However clients take turns from a start with no request running, the requests that run under a semaphore
-- are exactly its permits that are held, and never more than its size.
pub turns-running_under :
    (is : List ℕ) (cs : List Client) (s : Shared) (r : ℕ)
    → Starts cs s
    → let (cs', s') = turns is cs s in
      ((s'.semaphores r).held ≡ running_under r cs')
      × (running_under r cs' ≤ (s'.semaphores r).size)
turns-running_under is cs s r h =
    let l = turns-IsLimited is cs s (Starts-IsLimited cs s h) in
    (l.counted r, omega (arith, l.counted r, l.shared.within r))
