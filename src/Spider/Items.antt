-- ===== src/Spider/Items.antt =====
-- ContextItem and parseItems of spider/item.go. A pointer to a ContextItem is a number, and a context is
-- its deadline, whether it is done, and the values that were attached, the last one first.
pub mod Cancelling
pub mod Parsing
use openscraper_framework.Prelude.{
  ℕ, suc, Bool, true, false, Option, none, some, List, [], ◌∷◌, ◌++◌, ◌==◌, leb, if◌then◌else◌,
}
use openscraper_framework.Prelude.Text.{Text, eqb}
use openscraper_framework.Prelude.Dict
use openscraper_framework.Prelude.Dict.{Dict}

-- A value of the interface Item.
pub data Item (P : Type 0) : Type 0 where
  nil : Item P
  plain : P → Item P
  context_item : ℕ → Item P

-- `item` is the embedded Item, `done` tells that Err is not nil, and `cancels` that there is a cancelFunc.
pub record ContextItem (P V : Type 0) : Type 0 where
  pub item : Item P
  pub deadline : Option ℕ
  pub done : Bool
  pub context_values : List (Text × Option V)
  pub cancels : Bool
  pub children : List ℕ
  pub values : Dict (Dict V)

pub record Heap (P V : Type 0) : Type 0 where
  pub objects : ℕ → ContextItem P V
  pub fresh : ℕ

module _ {V : Type 0} where
  -- context.Context.Value
  unfoldable pub value : Text → List (Text × Option V) → Option V
  value key [] = none
  value key ((k, v) ∷ kvs) = if eqb k key then v else value key kvs

  abbrev values_under : Option (Dict V) → Dict V
  values_under none = []
  values_under (some sub) = sub

  -- `for key, values := range item.values`, at a child of that id.
  abbrev attached : Text → Dict (Dict V) → List (Text × Option V) → List (Text × Option V)
  attached id [] kvs = kvs
  attached id ((key, sub) ∷ values) kvs = attached id values ((key, Dict.get id sub) ∷ kvs)

module _ {P V : Type 0} where
  abbrev pub write : ℕ → ContextItem P V → Heap P V → Heap P V
  write ref o h = record h { objects = λ r. if r == ref then o else h.objects r }

  unfoldable pub with_value : ℕ → Text → V → Heap P V → Heap P V
  with_value ref key v h =
      let o = h.objects ref in
      write ref (record o { context_values = (key, some v) ∷ o.context_values }) h

  unfoldable pub with_child_ctx_value : ℕ → Text → Text → V → Heap P V → Heap P V
  with_child_ctx_value ref key id v h =
      let o = h.objects ref in
      let sub = Dict.put id v (values_under (Dict.get key o.values)) in
      write ref (record o { values = Dict.put key sub o.values }) h

  -- A plain item is answered by the ContextItem itself, as in the source.
  unfoldable pub add_child : ℕ → Item P → Heap P V → Heap P V × Item P
  add_child ref (context_item child) h =
      let o = h.objects ref in
      (write ref (record o { children = o.children ++ child ∷ [] }) h, (h.objects child).item)
  add_child ref _ h = (h, context_item ref)

  -- What cancel does to a child. `id_of` is Id of the embedded item.
  abbrev cancelled : Text → Dict (Dict V) → ContextItem P V → ContextItem P V
  cancelled id values o = record o {
    context_values = attached id values o.context_values;
    done = if o.cancels then true else o.done;
  }

  cancel_children : (Item P → Text) → Dict (Dict V) → List ℕ → Heap P V → Heap P V
  cancel_children id_of values [] h = h
  cancel_children id_of values (child ∷ children) h =
      let o = h.objects child in
      cancel_children id_of values children (write child (cancelled (id_of o.item) values o) h)

  unfoldable pub cancel : (Item P → Text) → ℕ → Heap P V → Heap P V
  unfolding cancel_children
  cancel id_of ref h =
      let o = h.objects ref in
      if o.done
      then h
      else cancel_children id_of o.values o.children
          (write ref (record o { done = if o.cancels then true else o.done }) h)

  -- The loop that makes the raw items.
  add_children : ℕ → List (Item P) → Heap P V → Heap P V × List (Item P)
  unfolding add_child
  add_children ref [] h = (h, [])
  add_children ref (item ∷ items) h =
      let (h', raw) = add_child ref item h in
      let (h'', raws) = add_children ref items h' in (h'', raw ∷ raws)

  -- &ContextItem{Context: ctx, cancelFunc: cancel}, where ctx and cancel are what context.WithDeadline
  -- returns: it is done at once where the deadline is not behind `now`.
  abbrev new_context_item : ℕ → ℕ → ContextItem P V
  new_context_item now deadline = record {
    item = nil;
    deadline = some deadline;
    done = leb deadline now;
    context_values = [];
    cancels = true;
    children = [];
    values = [];
  }

  packed : ℕ → (List (Item P) → Item P) → List (Item P) → Heap P V → ℕ → Heap P V × Item P
  unfolding add_children
  packed now fn items h deadline =
      let new = record (write h.fresh (new_context_item now deadline) h) { fresh = suc h.fresh } in
      let (h', raw) = add_children h.fresh items new in
      (write h.fresh (record (h'.objects h.fresh) { item = fn raw }) h', context_item h.fresh)

  with_deadline :
      ℕ → (List (Item P) → Item P) → List (Item P) → Heap P V → Option ℕ → Heap P V × Item P
  unfolding packed
  with_deadline now fn items h none = (h, fn items)
  with_deadline now fn items h (some deadline) = packed now fn items h deadline

  -- `items[0]` panics where there is none, which Pack rules out. `now` is the time of the call.
  unfoldable pub parse_items :
      ℕ → (List (Item P) → Item P) → List (Item P) → Heap P V → Option (Heap P V × Item P)
  unfolding with_deadline
  parse_items now fn [] h = none
  parse_items now fn (context_item ref ∷ items) h =
      some (with_deadline now fn (context_item ref ∷ items) h (h.objects ref).deadline)
  parse_items now fn (first ∷ items) h = some (h, fn (first ∷ items))
