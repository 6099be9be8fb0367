-- ===== src/Spider/Items/Parsing.antt =====
-- What the packing function is given for items with contexts and for items without.
use openscraper_framework.Prelude.{
  ℕ, suc, leb, some, List, [], ◌∷◌, ◌++◌, ◌==◌, All, map, if◌then◌else◌, ◌≡◌, ◌≢◌, refl, sym, ap,
  ◌∙◌, arith,
}
use mathlib.Core.List.{append_assoc, append-nil}
use openscraper_framework.Spider.Items.{
  Item, nil, plain, context_item, ContextItem, Heap, write, add_child, add_children,
  new_context_item, packed, with_deadline, parse_items,
}

-- The items with contexts, in order.
abbrev pub contexts_of : {P : Type 0} → List (Item P) → List ℕ
contexts_of [] = []
contexts_of (context_item child ∷ items) = child ∷ contexts_of items
contexts_of (_ ∷ items) = contexts_of items

plain-contexts : {P : Type 0} (ps : List P) → contexts_of (map plain ps) ≡ []
plain-contexts [] = refl
plain-contexts (p ∷ ps) = plain-contexts ps

module _ {P V : Type 0} where
  -- The raw item for an item, at a heap.
  abbrev pub raw_of : ℕ → Heap P V → Item P → Item P
  raw_of ref h (context_item child) = (h.objects child).item
  raw_of ref h _ = context_item ref

  -- Adding a child keeps the embedded items.
  abbrev SameItems : Heap P V → Heap P V → Type 0
  SameItems h h' = (r : ℕ) → (h'.objects r).item ≡ (h.objects r).item

  add_child_lem :
      (ref : ℕ) (i : Item P) (h : Heap P V)
      → ((add_child ref i h).1 ≡ raw_of ref h i) × SameItems h (add_child ref i h).0
  unfolding add_child
  add_child_lem ref nil h = (refl, λ r. refl)
  add_child_lem ref (plain p) h = (refl, λ r. refl)
  add_child_lem ref (context_item child) h = (refl, λ r. ground arith)

  raw_of-same :
      (ref : ℕ) (h h' : Heap P V) (i : Item P) → SameItems h h' → raw_of ref h' i ≡ raw_of ref h i
  raw_of-same ref h h' nil s = refl
  raw_of-same ref h h' (plain p) s = refl
  raw_of-same ref h h' (context_item child) s = s child

  map-same :
      (ref : ℕ) (h h' : Heap P V) (items : List (Item P))
      → SameItems h h'
      → map (raw_of ref h') items ≡ map (raw_of ref h) items
  map-same ref h h' [] s = refl
  map-same ref h h' (i ∷ items) s =
      ap (λ x. x ∷ map (raw_of ref h') items) (raw_of-same ref h h' i s)
      ∙ ap (λ l. raw_of ref h i ∷ l) (map-same ref h h' items s)

  add_children_lem :
      (ref : ℕ) (items : List (Item P)) (h : Heap P V)
      → (add_children ref items h).1 ≡ map (raw_of ref h) items
  unfolding add_children
  add_children_lem ref [] h = refl
  add_children_lem ref (i ∷ items) h =
      let (a, s) = add_child_lem ref i h in
      ap (λ x. x ∷ (add_children ref items (add_child ref i h).0).1) a
      ∙ ap (λ l. raw_of ref h i ∷ l)
          (add_children_lem ref items (add_child ref i h).0
            ∙ map-same ref h (add_child ref i h).0 items s)

  -- What adding children leaves of the batch.
  record Batched (ref : ℕ) (items : List (Item P)) (h h' : Heap P V) : Type 0 where
    children : (h'.objects ref).children ≡ (h.objects ref).children ++ contexts_of items
    deadline : (h'.objects ref).deadline ≡ (h.objects ref).deadline
    done : (h'.objects ref).done ≡ (h.objects ref).done

  add_child-Batched :
      (ref : ℕ) (i : Item P) (h : Heap P V) → Batched ref (i ∷ []) h (add_child ref i h).0
  unfolding add_child
  add_child-Batched ref nil h = record {
    children = sym (append-nil (h.objects ref).children);
    deadline = refl;
    done = refl;
  }
  add_child-Batched ref (plain p) h = record {
    children = sym (append-nil (h.objects ref).children);
    deadline = refl;
    done = refl;
  }
  add_child-Batched ref (context_item child) h = record {
    children = ground arith;
    deadline = ground arith;
    done = ground arith;
  }

  add_children-Batched :
      (ref : ℕ) (items : List (Item P)) (h : Heap P V)
      → Batched ref items h (add_children ref items h).0
  unfolding add_children
  add_children-Batched ref [] h = record {
    children = sym (append-nil (h.objects ref).children);
    deadline = refl;
    done = refl;
  }
  add_children-Batched ref (i ∷ items) h =
      let a = add_child-Batched ref i h in
      let b = add_children-Batched ref items (add_child ref i h).0 in
      record {
        children =
            b.children
            ∙ ap (λ l. l ++ contexts_of items) a.children
            ∙ append_assoc (h.objects ref).children (contexts_of (i ∷ [])) (contexts_of items)
            ∙ ap (λ l. (h.objects ref).children ++ l) (joined i);
        deadline = b.deadline ∙ a.deadline;
        done = b.done ∙ a.done;
      }
    where
      joined : (i : Item P) → contexts_of (i ∷ []) ++ contexts_of items ≡ contexts_of (i ∷ items)
      joined nil = refl
      joined (plain p) = refl
      joined (context_item child) = refl

  raw_of-new :
      (o : ContextItem P V) (h : Heap P V) (items : List (Item P))
      → All (λ r. r ≢ h.fresh) (contexts_of items)
      → map (raw_of h.fresh (write h.fresh o h)) items ≡ map (raw_of h.fresh h) items
  raw_of-new o h [] a = refl
  raw_of-new o h (nil ∷ items) a = ap (λ l. context_item h.fresh ∷ l) (raw_of-new o h items a)
  raw_of-new o h (plain p ∷ items) a = ap (λ l. context_item h.fresh ∷ l) (raw_of-new o h items a)
  raw_of-new o h (context_item child ∷ items) a =
      let same : (if child == h.fresh then o else h.objects child) ≡ h.objects child =
        ground (arith, a.0) in
      ap (λ x. x.item ∷ map (raw_of h.fresh (write h.fresh o h)) items) same
      ∙ ap (λ l. (h.objects child).item ∷ l) (raw_of-new o h items a.1)

  abbrev new_heap : ℕ → ℕ → Heap P V → Heap P V
  new_heap now deadline h = record (write h.fresh (new_context_item now deadline) h) {
    fresh = suc h.fresh;
  }

  packed_at :
      (now : ℕ) (fn : List (Item P) → Item P) (items : List (Item P)) (h : Heap P V) (deadline : ℕ)
      → (packed now fn items h deadline).0.objects h.fresh ≡ (
          let (h', raw) = add_children h.fresh items (new_heap now deadline h) in
          record (h'.objects h.fresh) { item = fn raw })
  unfolding packed
  packed_at now fn items h deadline = ground arith

  packed_result :
      (now : ℕ) (fn : List (Item P) → Item P) (items : List (Item P)) (h : Heap P V) (deadline : ℕ)
      → packed now fn items h deadline ≡ ((packed now fn items h deadline).0, context_item h.fresh)
  unfolding packed
  packed_result now fn items h deadline = refl

  new_at :
      (now deadline : ℕ) (h : Heap P V)
      → (new_heap now deadline h).objects h.fresh ≡ new_context_item now deadline
  new_at now deadline h = ground arith

  pub parse_items_lem :
      (now : ℕ) (fn : List (Item P) → Item P) (ref deadline : ℕ) (rest : List (Item P))
      (h : Heap P V)
      → (h.objects ref).deadline ≡ some deadline
      → All (λ r. r ≢ h.fresh) (contexts_of (context_item ref ∷ rest))
      → (h' : Heap P V) × (parse_items now fn (context_item ref ∷ rest) h
          ≡ some (h', context_item h.fresh))
        × ((h'.objects h.fresh).item ≡ fn (map (raw_of h.fresh h) (context_item ref ∷ rest)))
        × ((h'.objects h.fresh).children ≡ contexts_of (context_item ref ∷ rest))
        × ((h'.objects h.fresh).deadline ≡ some deadline)
        × ((h'.objects h.fresh).done ≡ leb deadline now)
  unfolding parse_items with_deadline
  parse_items_lem now fn ref deadline rest h e a =
      let items = context_item ref ∷ rest in
      let new = new_heap now deadline h in
      let b = add_children-Batched h.fresh items new in
      let raw =
        add_children_lem h.fresh items new ∙ raw_of-new (new_context_item now deadline) h items a in
      let o = packed_at now fn items h deadline in
      let n = new_at now deadline h in
      (
        (packed now fn items h deadline).0,
        ap (λ d. some (with_deadline now fn items h d)) e
            ∙ ap some (packed_result now fn items h deadline),
        ap (λ x. x.item) o ∙ ap fn raw,
        ap (λ x. x.children) o ∙ b.children ∙ ap (λ x. x.children ++ contexts_of items) n,
        ap (λ x. x.deadline) o ∙ b.deadline ∙ ap (λ x. x.deadline) n,
        ap (λ x. x.done) o ∙ b.done ∙ ap (λ x. x.done) n,
      )

  map-plain :
      (ref : ℕ) (h : Heap P V) (ps : List P)
      → map (raw_of ref h) (map plain ps) ≡ map (λ p. context_item ref) ps
  map-plain ref h [] = refl
  map-plain ref h (p ∷ ps) = ap (λ l. context_item ref ∷ l) (map-plain ref h ps)

  -- Items without a context that come behind one whose context has a deadline are lost: the packing
  -- function is given the first item's embedded item, and then, once for each of the others, the new item
  -- that is being packed, so that the result does not depend on them.
  pub parse_items-plain :
      (now : ℕ) (fn : List (Item P) → Item P) (ref deadline : ℕ) (ps : List P) (h : Heap P V)
      → (h.objects ref).deadline ≡ some deadline
      → ref ≢ h.fresh
      → (h' : Heap P V) × (parse_items now fn (context_item ref ∷ map plain ps) h
          ≡ some (h', context_item h.fresh))
        × ((h'.objects h.fresh).item
            ≡ fn ((h.objects ref).item ∷ map (λ p. context_item h.fresh) ps))
  parse_items-plain now fn ref deadline ps h e a =
      let (h', r, i, c, d, n) =
        parse_items_lem now fn ref deadline (map plain ps) h e (a, rw (plain-contexts ps) tt) in
      (h', r, i ∙ ap (λ l. fn ((h.objects ref).item ∷ l)) (map-plain h.fresh h ps))
