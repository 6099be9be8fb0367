-- ===== src/Spider/Submitting.antt =====
-- addContextItem and addTimeoutItem of spider/register.go: an item with a context, which is cancelled at
-- once where the channel has no place for it.
use openscraper_framework.Prelude.{
  ℕ, zero, suc, ◌+◌, ◌-◌, Bool, true, not, Option, none, some, List, [],
}
use openscraper_framework.Prelude.Int.{ℤ, pos, negsuc, ltb_ℤ}
use openscraper_framework.Prelude.Text.{Text}
use openscraper_framework.Spider.Registry.{Registry, add_item}
use openscraper_framework.Spider.Items.{Item, context_item, ContextItem, Heap, write, cancel}

-- The context that a caller gives; `none` is no deadline.
pub record Context (V : Type 0) : Type 0 where
  pub deadline : Option ℕ
  pub done : Bool
  pub context_values : List (Text × Option V)

-- The pointer to the ContextItem that is returned as a context, and 1 or 0.
pub record Submitted (P V Builder Factory : Type 0) : Type 0 where
  pub registry : Registry (Item P) Builder Factory
  pub heap : Heap P V
  pub context : ℕ
  pub count : ℕ

-- &ContextItem{Item: item, Context: ctx, cancelFunc: cancel}, where `cancels` tells that cancel is not nil
abbrev pub with_context : {P V : Type 0} → Item P → Context V → Bool → ContextItem P V
with_context item ctx cancels = record {
  item = item;
  deadline = ctx.deadline;
  done = ctx.done;
  context_values = ctx.context_values;
  cancels = cancels;
  children = [];
  values = [];
}

-- What context.WithTimeout gives for the background context: it is done at once without time left.
abbrev pub with_timeout : {V : Type 0} → ℕ → ℤ → Context V
with_timeout now (pos n) = record {
  deadline = some (now + n);
  done = not (ltb_ℤ (pos 0) (pos n));
  context_values = [];
}
with_timeout now (negsuc n) = record {
  deadline = some (now - suc n);
  done = true;
  context_values = [];
}

module _ {P V Builder Factory : Type 0} (id_of : Item P → Text) where
  -- Behind the select, which is that of addItem.
  abbrev pub submitted :
      ℕ
      → Heap P V
      → Registry (Item P) Builder Factory × Option ℕ
      → Option (Submitted P V Builder Factory)
  submitted ref made (s, none) = none
  submitted ref made (s, some zero) =
      some (record { registry = s; heap = cancel id_of ref made; context = ref; count = 0 })
  submitted ref made (s, some (suc n)) =
      some (record { registry = s; heap = made; context = ref; count = 1 })

  -- `none` is the panic on a topic that is not found.
  unfoldable pub add_context_item :
      Context V
      → Bool
      → Text
      → Item P
      → Registry (Item P) Builder Factory
      → Heap P V
      → Option (Submitted P V Builder Factory)
  add_context_item ctx cancels topic item s h =
      let ref = h.fresh in
      let made = record (write ref (with_context item ctx cancels) h) { fresh = suc ref } in
      submitted ref made (add_item topic (context_item ref) s)

  unfoldable pub add_timeout_item :
      ℕ
      → Text
      → Item P
      → ℤ
      → Registry (Item P) Builder Factory
      → Heap P V
      → Option (Submitted P V Builder Factory)
  unfolding add_context_item
  add_timeout_item now topic item timeout s h =
      add_context_item (with_timeout now timeout) true topic item s h
