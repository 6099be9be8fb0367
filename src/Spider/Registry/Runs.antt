-- ===== src/Spider/Registry/Runs.antt =====
-- Runs of calls on the registry, with what was accepted and received on one topic.
use openscraper_framework.Prelude.{
  ℕ, suc, true, Option, none, some, List, [], ◌∷◌, ◌++◌, if◌then◌else◌,
}
use openscraper_framework.Prelude.Int.{ℤ}
use openscraper_framework.Prelude.Text.{Text, eqb}
use openscraper_framework.Spider.Items.{Item, context_item, Heap, write, cancel}
use openscraper_framework.Spider.Submitting.{Submitted, add_timeout_item}
use openscraper_framework.Spider.Registry.{
  Registry, register, create_item_ch, add_item, receive, mark_running,
}

-- The calls of the process on the registry, in the order in which they take effect, and what its workers do
-- with the contexts of items: a cancel, and a deadline that comes.
pub data Call (P Builder Factory : Type 0) : Type 0 where
  registers : Text → Builder → Call P Builder Factory
  creates : Text → ℕ → Call P Builder Factory
  adds : Text → Item P → Call P Builder Factory
  adds_timeout : ℕ → Text → Item P → ℤ → Call P Builder Factory
  receives : Text → Call P Builder Factory
  marks : Text → Factory → Call P Builder Factory
  cancels expires : ℕ → Call P Builder Factory

-- The items of a topic that AddItem and AddTimeoutItem returned 1 for, those that were received, and the
-- contexts that AddTimeoutItem returned, with 1 or with 0, the last one first.
pub record Log (Item : Type 0) : Type 0 where
  pub accepted : List Item
  pub received : List Item
  pub contexts : List ℕ

abbrev pub empty_log : {Item : Type 0} → Log Item
empty_log = record { accepted = []; received = []; contexts = [] }

module _ {Item : Type 0} where
  abbrev pub accept : Item → Option ℕ → Log Item → Log Item
  accept item (some (suc n)) l = record l { accepted = l.accepted ++ item ∷ [] }
  accept item _ l = l

  abbrev pub receive_log : Option Item → Log Item → Log Item
  receive_log (some item) l = record l { received = l.received ++ item ∷ [] }
  receive_log none l = l

  abbrev pub with_context_of : ℕ → Log Item → Log Item
  with_context_of ref l = record l { contexts = ref ∷ l.contexts }

-- The state of a run.
pub record Run (P V Builder Factory : Type 0) : Type 0 where
  pub registry : Registry (Item P) Builder Factory
  pub heap : Heap P V
  pub log : Log (Item P)

abbrev pub expire : {P V : Type 0} → ℕ → Heap P V → Heap P V
expire ref h = write ref (record (h.objects ref) { done = true }) h

module _ {P V Builder Factory : Type 0} (id_of : Item P → Text) (topic : Text) where
  -- A panic on a topic that is not found leaves all as it was.
  abbrev pub logged :
      Text
      → Option (Submitted P V Builder Factory)
      → Run P V Builder Factory
      → Run P V Builder Factory
  logged t none x = x
  logged t (some r) x = record {
    registry = r.registry;
    heap = r.heap;
    log =
        if eqb t topic
        then with_context_of r.context (accept (context_item r.context) (some r.count) x.log)
        else x.log;
  }

  unfoldable pub call : Call P Builder Factory → Run P V Builder Factory → Run P V Builder Factory
  call (registers name creator) x = record x { registry = register name creator x.registry }
  call (creates t n) x = record x { registry = (create_item_ch t n x.registry).0 }
  call (adds t item) x =
      let (s, r) = add_item t item x.registry in
      record x { registry = s; log = if eqb t topic then accept item r x.log else x.log }
  call (adds_timeout now t item timeout) x =
      logged t (add_timeout_item id_of now t item timeout x.registry x.heap) x
  call (receives t) x =
      let (s, r) = receive t x.registry in
      record x { registry = s; log = if eqb t topic then receive_log r x.log else x.log }
  call (marks name f) x = record x { registry = (mark_running name f x.registry).0 }
  call (cancels ref) x = record x { heap = cancel id_of ref x.heap }
  call (expires ref) x = record x { heap = expire ref x.heap }

  unfoldable pub calls :
      List (Call P Builder Factory) → Run P V Builder Factory → Run P V Builder Factory
  unfolding call
  calls [] x = x
  calls (c ∷ cs) x = calls cs (call c x)
