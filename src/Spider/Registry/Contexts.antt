-- ===== src/Spider/Registry/Contexts.antt =====
-- What becomes of the contexts that AddTimeoutItem returns.
use openscraper_framework.Prelude.{
  ℕ, zero, suc, ◌≤◌, ◌<◌, true, Bool-cases, Option, none, some, List, [], ◌∷◌, ◌++◌, All, length,
  ◌≡◌, refl, ap, ◌∙◌, arith, inl, inr, ◌⊎◌,
}
use openscraper_framework.Prelude.Text.{Text, eqb}
use openscraper_framework.Prelude.Int.{pos}
use openscraper_framework.Prelude.Dict
use openscraper_framework.Spider.Items.{Item, context_item, ContextItem, Heap, write, cancel}
use openscraper_framework.Spider.Items.Cancelling.{In, cancel-childless, cancel-done, cancel-fresh}
use openscraper_framework.Spider.Submitting.{
  submitted, with_context, with_timeout, add_context_item, add_timeout_item,
}
use openscraper_framework.Spider.Registry.{Registry, add_item, receive, create_item_ch, depth}
use openscraper_framework.Spider.Registry.Queues.{calls_lem}
use openscraper_framework.Spider.Registry.Runs.{
  Call, registers, creates, adds, adds_timeout, receives, marks, cancels, expires, Log, empty_log,
  accept, receive_log, Run, logged, call, calls, expire,
}

In-append : {A : Type 0} (x : A) (xs ys : List A) → In x xs → In x (xs ++ ys)
In-append x [] ys i = absurd i
In-append x (y ∷ xs) ys (inl e) = inl e
In-append x (y ∷ xs) ys (inr i) = inr (In-append x xs ys i)

In-snoc : {A : Type 0} (x : A) (xs : List A) → In x (xs ++ x ∷ [])
In-snoc x [] = inl refl
In-snoc x (y ∷ xs) = inr (In-snoc x xs)

module _ {P V : Type 0} where
  -- A context of the process that is done, or whose item was accepted.
  abbrev pub IsServed : Heap P V → List (Item P) → ℕ → Type 0
  IsServed h accepted ref = ((h.objects ref).done ≡ true) ⊎ In (context_item ref) accepted

  abbrev AreServed : Heap P V → Log (Item P) → Type 0
  AreServed h l = All (λ ref. (ref < h.fresh) × IsServed h l.accepted ref) l.contexts

  -- No context that is there becomes undone.
  record IsLater (h h' : Heap P V) : Type 0 where
    no_fewer : h.fresh ≤ h'.fresh
    stays : (ref : ℕ) → ref < h.fresh → (h.objects ref).done ≡ true → (h'.objects ref).done ≡ true

  AreServed-IsLater :
      (h h' : Heap P V) (accepted more : List (Item P)) (refs : List ℕ)
      → IsLater h h'
      → All (λ ref. (ref < h.fresh) × IsServed h accepted ref) refs
      → All (λ ref. (ref < h'.fresh) × IsServed h' (accepted ++ more) ref) refs
  AreServed-IsLater h h' accepted more [] k a = tt
  AreServed-IsLater h h' accepted more (ref ∷ refs) k ((b, inl d), a) = (
    (omega (arith, b, k.no_fewer), inl (k.stays ref b d)),
    AreServed-IsLater h h' accepted more refs k a,
  )
  AreServed-IsLater h h' accepted more (ref ∷ refs) k ((b, inr i), a) = (
    (omega (arith, b, k.no_fewer), inr (In-append (context_item ref) accepted more i)),
    AreServed-IsLater h h' accepted more refs k a,
  )

  same-AreServed :
      (h h' : Heap P V) (l : Log (Item P)) → IsLater h h' → AreServed h l → AreServed h' l
  same-AreServed h h' l k a = by_log l.contexts a
    where
      by_log :
          (refs : List ℕ)
          → All (λ ref. (ref < h.fresh) × IsServed h l.accepted ref) refs
          → All (λ ref. (ref < h'.fresh) × IsServed h' l.accepted ref) refs
      by_log [] b = tt
      by_log (ref ∷ refs) ((b, inl d), c) =
          ((omega (arith, b, k.no_fewer), inl (k.stays ref b d)), by_log refs c)
      by_log (ref ∷ refs) ((b, inr i), c) = ((omega (arith, b, k.no_fewer), inr i), by_log refs c)

  IsLater-refl : (h : Heap P V) → IsLater h h
  IsLater-refl h = record { no_fewer = omega arith; stays = λ ref b d. d }

  accept-AreServed :
      (h : Heap P V) (item : Item P) (r : Option ℕ) (l : Log (Item P))
      → AreServed h l
      → AreServed h (accept item r l)
  accept-AreServed h item none l a = a
  accept-AreServed h item (some zero) l a = a
  accept-AreServed h item (some (suc n)) l a =
      AreServed-IsLater h h l.accepted (item ∷ []) l.contexts (IsLater-refl h) a

  receive-AreServed :
      (h : Heap P V) (r : Option (Item P)) (l : Log (Item P))
      → AreServed h l
      → AreServed h (receive_log r l)
  receive-AreServed h none l a = a
  receive-AreServed h (some item) l a = a

  abbrev made_with : ContextItem P V → Heap P V → Heap P V
  made_with o h = record (write h.fresh o h) { fresh = suc h.fresh }

  made-IsLater : (o : ContextItem P V) (h : Heap P V) → IsLater h (made_with o h)
  made-IsLater o h = record { no_fewer = omega arith; stays = λ ref b d. ground (arith, b, d) }

  expire-IsLater : (ref : ℕ) (h : Heap P V) → IsLater h (expire ref h)
  expire-IsLater ref h = record { no_fewer = omega arith; stays = λ r b d. ground (arith, d) }

  cancel-IsLater : (id_of : Item P → Text) (ref : ℕ) (h : Heap P V) → IsLater h (cancel id_of ref h)
  cancel-IsLater id_of ref h = record {
    no_fewer = omega (arith, cancel-fresh id_of ref h);
    stays = λ r b d. cancel-done id_of ref r h d;
  }

  IsLater-trans : (a b c : Heap P V) → IsLater a b → IsLater b c → IsLater a c
  IsLater-trans a b c k m = record {
    no_fewer = omega (arith, k.no_fewer, m.no_fewer);
    stays = λ ref l d. m.stays ref (omega (arith, l, k.no_fewer)) (k.stays ref l d);
  }

  served :
      (h : Heap P V) (accepted : List (Item P)) (refs : List ℕ)
      → All (λ ref. (ref < h.fresh) × IsServed h accepted ref) refs
      → All (IsServed h accepted) refs
  served h accepted [] a = tt
  served h accepted (ref ∷ refs) (b, a) = (b.1, served h accepted refs a)

module _ {P V Builder Factory : Type 0} (id_of : Item P → Text) (topic : Text) where
  abbrev AreServedAt : Run P V Builder Factory → Type 0
  AreServedAt x = AreServed x.heap x.log

  -- Whatever the send came to, when a new context with a cancelFunc was made for it.
  logged-AreServed :
      (t : Text) (o : ContextItem P V) (x : Run P V Builder Factory)
      (s : Registry (Item P) Builder Factory) (r : Option ℕ)
      → o.cancels ≡ true
      → o.children ≡ []
      → AreServedAt x
      → AreServedAt
          (logged id_of topic t (submitted id_of x.heap.fresh (made_with o x.heap) (s, r)) x)
  logged-AreServed t o x s none k c a = a
  logged-AreServed t o x s (some zero) k c a =
      let ref = x.heap.fresh in
      let made = made_with o x.heap in
      let self : made.objects ref ≡ o = ground arith in
      let ended =
        (cancel-childless id_of ref made (ap (λ p. p.cancels) self ∙ k)
          (ap (λ p. p.children) self ∙ c)).0 in
      let here : ref < (cancel id_of ref made).fresh = omega (arith, cancel-fresh id_of ref made) in
      let later =
        same-AreServed x.heap (cancel id_of ref made) x.log
          (IsLater-trans x.heap made (cancel id_of ref made) (made-IsLater o x.heap)
            (cancel-IsLater id_of ref made))
          a in
      elim (Bool-cases (eqb t topic)) [
        | inl e ↦ rw e ((here, inl ended), later)
        | inr e ↦ rw e later
      ]
  logged-AreServed t o x s (some (suc n)) k c a =
      let ref = x.heap.fresh in
      let made = made_with o x.heap in
      let later = same-AreServed x.heap made x.log (made-IsLater o x.heap) a in
      elim (Bool-cases (eqb t topic)) [
        | inl e ↦ rw e (
          (omega arith, inr (In-snoc (context_item ref) x.log.accepted)),
          accept-AreServed made (context_item ref) (some 1) x.log later,
        )
        | inr e ↦ rw e later
      ]

  call-AreServed :
      (c : Call P Builder Factory) (x : Run P V Builder Factory)
      → AreServedAt x
      → AreServedAt (call id_of topic c x)
  unfolding call add_timeout_item add_context_item
  call-AreServed (registers name creator) x a = a
  call-AreServed (creates t n) x a = a
  call-AreServed (adds t item) x a = elim (Bool-cases (eqb t topic)) [
    | inl e ↦ rw e (accept-AreServed x.heap item (add_item t item x.registry).1 x.log a)
    | inr e ↦ rw e a
  ]
  call-AreServed (adds_timeout now t item timeout) x a =
      let (s, r) = add_item t (context_item x.heap.fresh) x.registry in
      logged-AreServed t (with_context item (with_timeout now timeout) true) x s r refl refl a
  call-AreServed (receives t) x a = elim (Bool-cases (eqb t topic)) [
    | inl e ↦ rw e (receive-AreServed x.heap (receive t x.registry).1 x.log a)
    | inr e ↦ rw e a
  ]
  call-AreServed (marks name f) x a = a
  call-AreServed (cancels ref) x a =
      same-AreServed x.heap (cancel id_of ref x.heap) x.log (cancel-IsLater id_of ref x.heap) a
  call-AreServed (expires ref) x a =
      same-AreServed x.heap (expire ref x.heap) x.log (expire-IsLater ref x.heap) a

  calls-AreServed :
      (cs : List (Call P Builder Factory)) (x : Run P V Builder Factory)
      → AreServedAt x
      → AreServedAt (calls id_of topic cs x)
  unfolding calls
  calls-AreServed [] x a = a
  calls-AreServed (c ∷ cs) x a = calls-AreServed cs (call id_of topic c x) (call-AreServed c x a)

  -- From the first CreateItemCh of a topic on, with a buffer, whatever the process calls on the registry and
  -- whatever contexts its workers cancel or deadlines end, as long as items enter the channel by these calls
  -- alone: no caller of AddTimeoutItem waits on a context whose item nobody has. Each context that it
  -- returned for the topic, with 1 or with 0 and with any timeout, is done, or its item was received or is
  -- one of the items in the channel, whose number Depth is.
  pub calls-IsServed :
      (size : ℕ) (cs : List (Call P Builder Factory)) (s : Registry (Item P) Builder Factory)
      (h : Heap P V)
      → Dict.get topic s.spider_item_ch ≡ none
      → let x =
          calls id_of topic cs
            (record { registry = (create_item_ch topic size s).0; heap = h; log = empty_log }) in
        (items : List (Item P)) × (depth topic x.registry ≡ pos (length items))
        × All (IsServed x.heap (x.log.received ++ items)) x.log.contexts
  calls-IsServed size cs s h e =
      let x =
        calls id_of topic cs
          (record { registry = (create_item_ch topic size s).0; heap = h; log = empty_log }) in
      let (items, o, d, b) = calls_lem id_of topic size cs s h e in
      let a : AreServedAt x =
        calls-AreServed cs
          (record { registry = (create_item_ch topic size s).0; heap = h; log = empty_log }) tt in
      (items, d, rw (← o) (served x.heap x.log.accepted x.log.contexts a))
