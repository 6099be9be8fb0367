-- ===== src/Spider/Items/Cancelling.antt =====
-- What the children of a batch see when it is cancelled.
use openscraper_framework.Prelude.{
  ℕ, true, false, Bool-cases, Option, none, some, List, [], ◌∷◌, All, if◌then◌else◌, ◌≡◌, ◌≢◌, refl,
  sym, ap, ◌∙◌, arith, inl, inr, ◌⊎◌,
}
use openscraper_framework.Prelude.Text.{Text, eqb, eqb_iff}
use openscraper_framework.Prelude.Dict
use openscraper_framework.Prelude.Dict.{Dict, IsUnique}
use openscraper_framework.Spider.Items.{
  Item, ContextItem, Heap, write, value, attached, cancelled, cancel_children, cancel,
}

-- What is attached under a key, and what a context had before.
abbrev pub or_before : {V : Type 0} → Text → Option V → Option (Dict V) → Option V
or_before id before none = before
or_before id before (some sub) = Dict.get id sub

-- The keys of a map differ, so the order in which they are attached does not show.
attached-value :
    {V : Type 0} (id key : Text) (values : Dict (Dict V)) (kvs : List (Text × Option V))
    → IsUnique values
    → value key (attached id values kvs) ≡ or_before id (value key kvs) (Dict.get key values)
unfolding value Dict.get
attached-value id key [] kvs u = refl
attached-value id key ((k, sub) ∷ values) kvs u = elim (Bool-cases (eqb k key)) [
  | inl e ↦
      let same = (eqb_iff k key).0 e in
      let missing : Dict.get key values ≡ none = rw (← same) u.0 in
      attached-value id key values ((k, Dict.get id sub) ∷ kvs) u.1 ∙ rw (missing, e)
  | inr e ↦ attached-value id key values ((k, Dict.get id sub) ∷ kvs) u.1 ∙ rw e
]

abbrev pub Distinct : List ℕ → Type 0
Distinct [] = Unit
Distinct (x ∷ xs) = All (λ y. y ≢ x) xs × Distinct xs

abbrev pub In : {A : Type 0} → A → List A → Type 0
In x [] = ⊥
In x (y ∷ ys) = (x ≡ y) ⊎ In x ys

In-apart : (x c : ℕ) (cs : List ℕ) → All (λ y. y ≢ x) cs → In c cs → x ≢ c
In-apart x c [] a i = absurd i
In-apart x c (y ∷ cs) a (inl e) = λ q. a.0 (sym e ∙ sym q)
In-apart x c (y ∷ cs) a (inr i) = In-apart x c cs a.1 i

module _ {P V : Type 0} (id_of : Item P → Text) (values : Dict (Dict V)) where
  write_self : (r : ℕ) (o : ContextItem P V) (h : Heap P V) → (write r o h).objects r ≡ o
  write_self r o h = ground arith

  write_apart :
      (r c : ℕ) (o : ContextItem P V) (h : Heap P V) → r ≢ c → (write r o h).objects c ≡ h.objects c
  write_apart r c o h e = ground arith

  cancel_children-apart :
      (c : ℕ) (cs : List ℕ) (h : Heap P V)
      → All (λ y. y ≢ c) cs
      → (cancel_children id_of values cs h).objects c ≡ h.objects c
  unfolding cancel_children
  cancel_children-apart c [] h a = refl
  cancel_children-apart c (x ∷ cs) h a =
      let o = cancelled (id_of (h.objects x).item) values (h.objects x) in
      cancel_children-apart c cs (write x o h) a.1 ∙ write_apart x c o h a.0

  cancel_children-In :
      (c : ℕ) (cs : List ℕ) (h : Heap P V)
      → Distinct cs
      → In c cs
      → (cancel_children id_of values cs h).objects c
        ≡ cancelled (id_of (h.objects c).item) values (h.objects c)
  unfolding cancel_children
  cancel_children-In c [] h d i = absurd i
  cancel_children-In c (x ∷ cs) h d (inl e) =
      let o = cancelled (id_of (h.objects x).item) values (h.objects x) in
      rw e (cancel_children-apart x cs (write x o h) d.0 ∙ write_self x o h)
  cancel_children-In c (x ∷ cs) h d (inr i) =
      let o = cancelled (id_of (h.objects x).item) values (h.objects x) in
      let same = write_apart x c o h (In-apart x c cs d.0 i) in
      cancel_children-In c cs (write x o h) d.1 i ∙ ap (λ p. cancelled (id_of p.item) values p) same

cancel-child :
    {P V : Type 0} (id_of : Item P → Text) (ref c : ℕ) (h : Heap P V)
    → (h.objects ref).done ≡ false
    → Distinct (h.objects ref).children
    → ref ≢ c
    → In c (h.objects ref).children
    → (cancel id_of ref h).objects c
      ≡ cancelled (id_of (h.objects c).item) (h.objects ref).values (h.objects c)
unfolding cancel
cancel-child id_of ref c h n d a i =
    let o = h.objects ref in
    let first = record o { done = if o.cancels then true else o.done } in
    let start = write ref first h in
    ap (λ b. (if b then h else cancel_children id_of o.values o.children start).objects c) n
    ∙ cancel_children-In id_of o.values c o.children start d i
    ∙ ap (λ p. cancelled (id_of p.item) o.values p) (write_apart id_of o.values ref c first h a)

-- Cancelling a batch that is not yet done makes each of its children done that has a cancelFunc, and leaves
-- the others as done or not as they were. The context of every child, with a cancelFunc or without, then
-- has, under every key, the value that withChildCtxValue kept for the child's id: nil where the key has values
-- for other children only, and what it had before where the key has none. The children are different
-- objects, and none is the batch.
pub cancel_lem :
    {P V : Type 0} (id_of : Item P → Text) (ref c : ℕ) (key : Text) (h : Heap P V)
    → (h.objects ref).done ≡ false
    → Distinct (h.objects ref).children
    → All (λ y. y ≢ ref) (h.objects ref).children
    → In c (h.objects ref).children
    → IsUnique (h.objects ref).values
    → let o = (cancel id_of ref h).objects c in
      (o.done ≡ (if (h.objects c).cancels then true else (h.objects c).done))
      × (value key o.context_values
          ≡ or_before
              (id_of (h.objects c).item)
              (value key (h.objects c).context_values)
              (Dict.get key (h.objects ref).values))
cancel_lem id_of ref c key h n d a i u =
    let o = h.objects ref in
    let before = (h.objects c).context_values in
    rw (cancel-child id_of ref c h n d (In-apart ref c o.children a i))
      (refl, attached-value (id_of (h.objects c).item) key o.values before u)

module _ {P V : Type 0} (id_of : Item P → Text) where
  -- An item with a cancelFunc is itself done behind its cancel, and without children nothing else changes.
  pub cancel-childless :
      (ref : ℕ) (h : Heap P V)
      → (h.objects ref).cancels ≡ true
      → (h.objects ref).children ≡ []
      → (((cancel id_of ref h).objects ref).done ≡ true)
        × ((r : ℕ) → r ≢ ref → (cancel id_of ref h).objects r ≡ h.objects r)
  unfolding cancel cancel_children
  cancel-childless ref h k c = elim (Bool-cases (h.objects ref).done) [
    | inl d ↦ (rw d d, λ r a. rw d)
    | inr d ↦ (rw (d, c) (ground (arith, k)), λ r a. rw (d, c) (ground arith))
  ]

  -- No cancel undoes one.
  cancel_children-done :
      (values : Dict (Dict V)) (r : ℕ) (cs : List ℕ) (h : Heap P V)
      → (h.objects r).done ≡ true
      → ((cancel_children id_of values cs h).objects r).done ≡ true
  unfolding cancel_children
  cancel_children-done values r [] h d = d
  cancel_children-done values r (c ∷ cs) h d =
      let o = cancelled (id_of (h.objects c).item) values (h.objects c) in
      cancel_children-done values r cs (write c o h) (ground (arith, d))

  pub cancel-done :
      (ref r : ℕ) (h : Heap P V)
      → (h.objects r).done ≡ true
      → ((cancel id_of ref h).objects r).done ≡ true
  unfolding cancel
  cancel-done ref r h d = elim (Bool-cases (h.objects ref).done) [
    | inl e ↦ rw e d
    | inr e ↦
        let o = h.objects ref in
        let first = record o { done = if o.cancels then true else o.done } in
        let start = write ref first h in
        ap
          (λ b. ((if b then h else cancel_children id_of o.values o.children start).objects r).done)
          e
        ∙ cancel_children-done o.values r o.children start (ground (arith, d))
  ]

  cancel_children-fresh :
      (values : Dict (Dict V)) (cs : List ℕ) (h : Heap P V)
      → (cancel_children id_of values cs h).fresh ≡ h.fresh
  unfolding cancel_children
  cancel_children-fresh values [] h = refl
  cancel_children-fresh values (c ∷ cs) h =
      cancel_children-fresh values cs
        (write c (cancelled (id_of (h.objects c).item) values (h.objects c)) h)

  pub cancel-fresh : (ref : ℕ) (h : Heap P V) → (cancel id_of ref h).fresh ≡ h.fresh
  unfolding cancel
  cancel-fresh ref h = elim (Bool-cases (h.objects ref).done) [
    | inl e ↦ rw e
    | inr e ↦ rw e (cancel_children-fresh (h.objects ref).values (h.objects ref).children _)
  ]
