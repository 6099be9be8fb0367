-- ===== src/Reqwest/Limits/Sharing.antt =====
-- Clients that have no limit of their own run under one semaphore, whichever of them makes it.
use openscraper_framework.Prelude.{
  ℕ, zero, suc, ◌≤◌, ◌<◌, true, Bool-cases, Option, Option-cases, none, some, List, [], ◌∷◌, ltb,
  All, ◌≡◌, refl, ◌∙◌, arith, inl, inr, ◌⊎◌,
}
use openscraper_framework.Reqwest.Limits.{
  Shared, Phase, idle, storing, waiting, running, Client, new_weighted, with_immutable_value, look,
  enter, acquire, release, turn_at, turn, turn_of, turns, runs, running_under, running_in,
  all_running,
}
use openscraper_framework.Reqwest.Limits.Turns.{Below, Starts, turns-running_under}

-- A client of a concurrence runs under the global semaphore, if it has come to Acquire it.
abbrev Joins : Option ℕ → ℕ → Option ℕ → ℕ → Phase → Type 0
Joins global size none n idle = n ≡ size
Joins global size none n storing = n ≡ size
Joins global size none n waiting = ⊥
Joins global size none n running = ⊥
Joins global size (some r) n p = (n ≡ size) × (global ≡ some r)

abbrev JoinsAt : Option ℕ → ℕ → Client → Type 0
JoinsAt global size c = Joins global size c.limit c.concurrence c.phase

-- The global semaphore has that size.
record IsShared (size : ℕ) (s : Shared) : Type 0 where
  sized : (r : ℕ) → s.global ≡ some r → (r < s.fresh) × ((s.semaphores r).size ≡ size)

record Joined (global : Option ℕ) (size : ℕ) (c : Client) (s : Shared) : Type 0 where
  joins : JoinsAt s.global size c
  shared : IsShared size s
  keeps : (global ≡ none) ⊎ (s.global ≡ global)

abbrev JoinedTo : Option ℕ → ℕ → Client × Shared → Type 0
JoinedTo global size (c, s) = Joined global size c s

abbrev mk : Option ℕ → ℕ → Phase → Client
mk limit concurrence phase = record { limit = limit; concurrence = concurrence; phase = phase }

module _ (size : ℕ) (some_size : 0 < size) where
  looked : (g : Option ℕ) → JoinsAt g size (look (mk none size idle) g)
  unfolding look
  looked none = refl
  looked (some q) = (refl, refl)

  module _ (s : Shared) (i : IsShared size s) where
    same : (c : Client) → JoinsAt s.global size c → Joined s.global size c s
    same c j = record { joins = j; shared = i; keeps = inr refl }

    stored :
        (o : Option ℕ) (n : ℕ) (g : Option ℕ)
        → n ≡ size
        → s.global ≡ g
        → JoinedTo s.global size
            (with_immutable_value (mk o n storing) s.fresh g (new_weighted n s))
    unfolding with_immutable_value
    stored o n (some q) e h = record {
      joins = (e, h);
      shared = record { sized = λ r k. ground (arith, i.sized r) };
      keeps = inr refl;
    }
    stored o n none e h = record {
      joins = (e, refl);
      shared = record { sized = λ r k. ground arith };
      keeps = inl h;
    }

    turn_at-Joined :
        (o : Option ℕ) (n : ℕ) (p : Phase)
        → Joins s.global size o n p
        → JoinedTo s.global size (turn_at (mk o n p) s p)
    unfolding turn_at enter acquire release
    turn_at-Joined (some r) n idle j = same (mk (some r) n waiting) j
    turn_at-Joined none n idle j =
        let t : ltb 0 n ≡ true = ground (arith, j) in
        rw (t, j) (same (look (mk none size idle) s.global) (looked s.global))
    turn_at-Joined none n storing j = stored none n s.global j refl
    turn_at-Joined (some r) n storing j = stored (some r) n s.global j.0 refl
    turn_at-Joined none n waiting j = absurd j
    turn_at-Joined (some r) n waiting j =
        elim (Bool-cases (ltb (s.semaphores r).held (s.semaphores r).size)) [
          | inl t ↦ rw t (record {
            joins = j;
            shared = record { sized = λ q k. ground (arith, i.sized q) };
            keeps = inr refl;
          })
          | inr t ↦ rw t (same (mk (some r) n waiting) j)
        ]
    turn_at-Joined none n running j = absurd j
    turn_at-Joined (some r) n running j = record {
      joins = j;
      shared = record { sized = λ q k. ground (arith, i.sized q) };
      keeps = inr refl;
    }

JoinsAt-keep :
    (g g' : Option ℕ) (size : ℕ) (o : Option ℕ) (n : ℕ) (p : Phase)
    → (g ≡ none) ⊎ (g' ≡ g)
    → Joins g size o n p
    → Joins g' size o n p
JoinsAt-keep g g' size none n idle k j = j
JoinsAt-keep g g' size none n storing k j = j
JoinsAt-keep g g' size none n waiting k j = j
JoinsAt-keep g g' size none n running k j = j
JoinsAt-keep g g' size (some r) n p (inl k) j = cc
JoinsAt-keep g g' size (some r) n p (inr k) j = (j.0, k ∙ j.1)

All-keep :
    (g g' : Option ℕ) (size : ℕ) (cs : List Client)
    → (g ≡ none) ⊎ (g' ≡ g)
    → All (JoinsAt g size) cs
    → All (JoinsAt g' size) cs
All-keep g g' size [] k a = tt
All-keep g g' size (c ∷ cs) k a =
    (JoinsAt-keep g g' size c.limit c.concurrence c.phase k a.0, All-keep g g' size cs k a.1)

record AllJoined (global : Option ℕ) (size : ℕ) (cs : List Client) (s : Shared) : Type 0 where
  joins : All (JoinsAt s.global size) cs
  shared : IsShared size s
  keeps : (global ≡ none) ⊎ (s.global ≡ global)

module _ (size : ℕ) (some_size : 0 < size) where
  turn_of-AllJoined :
      (i : ℕ) (cs : List Client) (s : Shared)
      → IsShared size s
      → All (JoinsAt s.global size) cs
      → AllJoined s.global size (turn_of i cs s).0 (turn_of i cs s).1
  unfolding turn_of turn
  turn_of-AllJoined i [] s h a = record { joins = tt; shared = h; keeps = inr refl }
  turn_of-AllJoined zero (c ∷ cs) s h a =
      let t = turn_at-Joined size some_size s h c.limit c.concurrence c.phase a.0 in
      record {
        joins = (t.joins, All-keep s.global (turn c s).1.global size cs t.keeps a.1);
        shared = t.shared;
        keeps = t.keeps;
      }
  turn_of-AllJoined (suc i) (c ∷ cs) s h a =
      let m = turn_of-AllJoined i cs s h a.1 in
      record {
        joins = (
          JoinsAt-keep s.global (turn_of i cs s).1.global size c.limit c.concurrence c.phase m.keeps
              a.0,
          m.joins,
        );
        shared = m.shared;
        keeps = m.keeps;
      }

  turns-AllJoined :
      (is : List ℕ) (cs : List Client) (s : Shared)
      → IsShared size s
      → All (JoinsAt s.global size) cs
      → IsShared size (turns is cs s).1
        × All (JoinsAt (turns is cs s).1.global size) (turns is cs s).0
  unfolding turns
  turns-AllJoined [] cs s h a = (h, a)
  turns-AllJoined (i ∷ is) cs s h a =
      let m = turn_of-AllJoined i cs s h a in
      turns-AllJoined is (turn_of i cs s).0 (turn_of i cs s).1 m.shared m.joins

runs-running_in :
    (g : Option ℕ) (size q : ℕ) (o : Option ℕ) (n : ℕ) (p : Phase)
    → Joins g size o n p
    → ((g ≡ some q) → running_in p ≡ runs p o q) × (g ≡ none → running_in p ≡ 0)
runs-running_in g size q none n idle j = (λ e. refl, λ e. refl)
runs-running_in g size q none n storing j = (λ e. refl, λ e. refl)
runs-running_in g size q none n waiting j = absurd j
runs-running_in g size q none n running j = absurd j
runs-running_in g size q (some r) n idle j = (λ e. refl, λ e. refl)
runs-running_in g size q (some r) n storing j = (λ e. refl, λ e. refl)
runs-running_in g size q (some r) n waiting j = (λ e. refl, λ e. refl)
runs-running_in g size q (some r) n running j =
    (λ e. ground (arith, e, j.1), λ e. let x = j.1 in cc)

all_running-under :
    (g : Option ℕ) (size q : ℕ) (cs : List Client)
    → All (JoinsAt g size) cs
    → ((g ≡ some q) → all_running cs ≡ running_under q cs) × (g ≡ none → all_running cs ≡ 0)
unfolding all_running running_under
all_running-under g size q [] a = (λ e. refl, λ e. refl)
all_running-under g size q (c ∷ cs) a =
    let (x, y) = runs-running_in g size q c.limit c.concurrence c.phase a.0 in
    let (u, v) = all_running-under g size q cs a.1 in
    (λ e. omega (arith, x e, u e), λ e. omega (arith, y e, v e))

start-joins :
    (n size : ℕ) (cs : List Client)
    → All (λ c. (c.phase ≡ idle) × (c.limit ≡ none) × (c.concurrence ≡ size)) cs
    → All (JoinsAt none size) cs × All (λ c. (c.phase ≡ idle) × Below n c.limit) cs
start-joins n size [] h = (tt, tt)
start-joins n size (c ∷ cs) h =
    let (a, b) = start-joins n size cs h.1 in
    ((rw (h.0.0, h.0.1) h.0.2, a), ((h.0.0, rw h.0.1 tt), b))

-- Clients that share a Concurrence above 0 and have no limit of their own never run more requests at once
-- than that number, however many they are and however they take turns, also when several of them find no
-- semaphore and make one.
pub turns-all_running :
    (is : List ℕ) (cs : List Client) (s : Shared) (size : ℕ)
    → 0 < size
    → All (λ c. (c.phase ≡ idle) × (c.limit ≡ none) × (c.concurrence ≡ size)) cs
    → ((r : ℕ) → (s.semaphores r).held ≡ 0)
    → s.global ≡ none
    → all_running (turns is cs s).0 ≤ size
turns-all_running is cs s size p h f g =
    let (a, b) = start-joins s.fresh size cs h in
    let i : IsShared size s = record { sized = λ r k. cc } in
    let (j, m) = turns-AllJoined size p is cs s i (rw g a) in
    let (cs', s') = turns is cs s in
    let st : Starts cs s = record { idle = b; free = f; global = rw g tt } in
    elim (Option-cases s'.global) [
      | inl n ↦ omega (arith, (all_running-under s'.global size 0 cs' m).1 n)
      | inr (r, e) ↦ omega (
        arith,
        (all_running-under s'.global size r cs' m).0 e,
        (j.sized r e).1,
        (turns-running_under is cs s r st).1,
      )
    ]
