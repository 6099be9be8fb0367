-- ===== src/Spider/Registry/Queues.antt =====
-- A topic is a bounded queue: what the workers receive, and what AddItem and AddTimeoutItem accept.
use openscraper_framework.Spider.Registry.Channels.{
  IsQueue, add_item-IsQueue, receive-IsQueue, creates-IsQueue, kept-IsQueue, mark_running-IsQueue,
  contexts-IsQueue,
}
use openscraper_framework.Prelude.{
  ℕ, zero, suc, ◌≤◌, true, Bool-cases, Option, none, some, List, [], ◌∷◌, ◌++◌, length,
  if◌then◌else◌, ◌≡◌, refl, arith, inl, inr,
}
use openscraper_framework.Prelude.Int.{pos}
use openscraper_framework.Prelude.Text.{Text, eqb, eqb_refl}
use openscraper_framework.Prelude.Dict
use openscraper_framework.Prelude.Dict.{Dict, get-put}
use openscraper_framework.Spider.Registry.Runs.{
  Call, registers, creates, adds, adds_timeout, receives, marks, cancels, expires, empty_log,
  accept, Run, logged, call, calls,
}
use openscraper_framework.Spider.Items.{Item, context_item, Heap, write}
use openscraper_framework.Spider.Submitting.{
  submitted, with_context, with_timeout, add_context_item, add_timeout_item,
}
use openscraper_framework.Spider.Registry.{
  ItemCh, Registry, register, create_item_ch, created, add_item, depth,
}

module _ {P V Builder Factory : Type 0} (id_of : Item P → Text) (topic : Text) (size : ℕ) where
  abbrev IsQueueAt : Run P V Builder Factory → Type 0
  IsQueueAt x = IsQueue topic size x.registry x.log

  -- Whatever the send came to.
  logged-IsQueue :
      (t : Text) (ref : ℕ) (made : Heap P V) (x : Run P V Builder Factory)
      (s : Registry (Item P) Builder Factory) (r : Option ℕ)
      → IsQueueAt x
      → IsQueue topic size s (if eqb t topic then accept (context_item ref) r x.log else x.log)
      → IsQueueAt (logged id_of topic t (submitted id_of ref made (s, r)) x)
  logged-IsQueue t ref made x s none q k = q
  logged-IsQueue t ref made x s (some zero) q k = elim (Bool-cases (eqb t topic)) [
    | inl e ↦ rw e (contexts-IsQueue topic size s x.log (rw e at k) ref)
    | inr e ↦ rw e (rw e at k)
  ]
  logged-IsQueue t ref made x s (some (suc n)) q k = elim (Bool-cases (eqb t topic)) [
    | inl e ↦
        rw e
          (contexts-IsQueue topic size s (accept (context_item ref) (some 1) x.log) (rw e at k) ref)
    | inr e ↦ rw e (rw e at k)
  ]

  call-IsQueue :
      (c : Call P Builder Factory) (x : Run P V Builder Factory)
      → IsQueueAt x
      → IsQueueAt (call id_of topic c x)
  unfolding call add_timeout_item add_context_item
  call-IsQueue (registers name creator) x q =
      kept-IsQueue topic size x.registry x.log q (register name creator x.registry)
        (unfold register in refl)
  call-IsQueue (creates t n) x q = creates-IsQueue topic size x.registry x.log q t n
  call-IsQueue (adds t item) x q = add_item-IsQueue topic size x.registry x.log q t item
  call-IsQueue (adds_timeout now t item timeout) x q =
      let ref = x.heap.fresh in
      let (s, r) = add_item t (context_item ref) x.registry in
      logged-IsQueue t ref
        (record (write ref (with_context item (with_timeout now timeout) true) x.heap) {
          fresh = suc ref;
        })
        x s r q (add_item-IsQueue topic size x.registry x.log q t (context_item ref))
  call-IsQueue (receives t) x q = receive-IsQueue topic size x.registry x.log q t
  call-IsQueue (marks name f) x q = mark_running-IsQueue topic size x.registry x.log q name f
  call-IsQueue (cancels ref) x q = q
  call-IsQueue (expires ref) x q = q

  calls-IsQueue :
      (cs : List (Call P Builder Factory)) (x : Run P V Builder Factory)
      → IsQueueAt x
      → IsQueueAt (calls id_of topic cs x)
  unfolding calls
  calls-IsQueue [] x q = q
  calls-IsQueue (c ∷ cs) x q = calls-IsQueue cs (call id_of topic c x) (call-IsQueue c x q)

  -- From the first CreateItemCh of a topic on, with a buffer, whatever the process calls on the registry,
  -- for this and for other topics, also creating this one again, as long as items enter the channel by these
  -- calls alone: the items that AddItem and AddTimeoutItem accepted, the latter's with their contexts, are
  -- those that were received followed by those in the channel, in order, none lost and none twice; Depth is
  -- the number in the channel, and never more than the size of the first call.
  pub calls_lem :
      (cs : List (Call P Builder Factory)) (s : Registry (Item P) Builder Factory) (h : Heap P V)
      → Dict.get topic s.spider_item_ch ≡ none
      → let x =
          calls id_of topic cs
            (record { registry = (create_item_ch topic size s).0; heap = h; log = empty_log }) in
        (items : List (Item P)) × (x.log.accepted ≡ x.log.received ++ items)
        × (depth topic x.registry ≡ pos (length items))
        × (length items ≤ size)
  calls_lem cs s h e =
      let ch : ItemCh (Item P) = record { items = []; size = size } in
      let q =
        calls-IsQueue cs
          (record { registry = (create_item_ch topic size s).0; heap = h; log = empty_log })
          (record {
            items = [];
            found =
                unfold create_item_ch created in
                rw (e, get-put topic topic ch s.spider_item_ch, eqb_refl topic);
            in_order = refl;
            bounded = omega arith;
          }) in
      (q.items, q.in_order, unfold depth in rw q.found, q.bounded)
