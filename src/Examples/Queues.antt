-- ===== src/Examples/Queues.antt =====
-- Channels of items, their batches and their contexts. An item is a number.
use openscraper_framework.Prelude.{
  ℕ, ◌==◌, if◌then◌else◌, ◌≤◌, ◌<◌, true, false, some, List, [], ◌∷◌, ◌++◌, All, length, max, ◌≡◌,
  inl, inr, refl, arith,
}
use openscraper_framework.Prelude.Int.{pos, negsuc}
use openscraper_framework.Prelude.Text.{Text, bytes, eqb}
use openscraper_framework.Prelude.Dict
use openscraper_framework.Prelude.Dict.{Dict}
use openscraper_framework.Spider.Registry.{
  Registry, create_item_ch, add_item, receive, depth, get_spider_state,
}
use openscraper_framework.Spider.Registry.Runs.{
  Call, adds, adds_timeout, receives, creates, cancels, Run, empty_log, calls,
}
use openscraper_framework.Spider.Registry.Queues.{calls_lem}
use openscraper_framework.Spider.Registry.Contexts.{IsServed, calls-IsServed}
use openscraper_framework.Spider.Registry.Running.{mark_all, first_of, to_list, mark_all_lem}
use openscraper_framework.Spider.Packing.{Event, tick, Packer, contents, append, flush, pack, start}
use openscraper_framework.Prelude.Batches.{concat}
use openscraper_framework.Spider.Packing.Batches.{arrivals, IsBatch, pack_lem, flush-overwrites}
use openscraper_framework.Spider.Items.{Item, plain, context_item, ContextItem, Heap, value, cancel}
use openscraper_framework.Spider.Items.Cancelling.{or_before, cancel_lem}
use openscraper_framework.Spider.Submitting.{add_timeout_item}

abbrev nothing : Registry (Item ℕ) ℕ ℕ
nothing = record { factories = []; spider_item_ch = []; running_spiders = [] }

-- Two children of a batch, the second of which has a value under the key.
abbrev child_of : ℕ → ContextItem ℕ ℕ
child_of n = record {
  item = plain n;
  deadline = some 50;
  done = false;
  context_values = [];
  cancels = true;
  children = [];
  values = [];
}

abbrev batch : ContextItem ℕ ℕ
batch = record (child_of 0) {
  children = 1 ∷ 2 ∷ [];
  values = (bytes "result", (bytes "second", 8) ∷ []) ∷ [];
}

abbrev family : Heap ℕ ℕ
family = record { objects = λ r. if r == 0 then batch else child_of r; fresh = 3 }

abbrev id_of : Item ℕ → Text
id_of (plain n) = if n == 2 then bytes "second" else bytes "first"
id_of _ = []

abbrev traffic : List (Call ℕ ℕ ℕ)
traffic =
    adds (bytes "a") (plain 1)
    ∷ adds_timeout 10 (bytes "a") (plain 2) (pos 30)
    ∷ adds_timeout 10 (bytes "a") (plain 3) (pos 30)
    ∷ receives (bytes "a")
    ∷ creates (bytes "a") 9
    ∷ adds_timeout 12 (bytes "a") (plain 4) (negsuc 0)
    ∷ cancels 3
    ∷ []

abbrev begun : Run ℕ ℕ ℕ ℕ
begun = record {
  registry = (create_item_ch (bytes "a") 2 nothing).0;
  heap = family;
  log = empty_log;
}

abbrev ran : Run ℕ ℕ ℕ ℕ
ran = calls id_of (bytes "a") traffic begun

traffic_log : ran.log ≡ record {
  accepted = plain 1 ∷ context_item 3 ∷ context_item 5 ∷ [];
  received = plain 1 ∷ [];
  contexts = 5 ∷ 4 ∷ 3 ∷ [];
}
unfolding calls create_item_ch add_item add_timeout_item receive Dict.get Dict.put eqb cancel
traffic_log = refl

calls_lem_example :
    (items : List (Item ℕ)) × (ran.log.accepted ≡ ran.log.received ++ items)
    × (depth (bytes "a") ran.registry ≡ pos (length items))
    × (length items ≤ 2)
calls_lem_example = calls_lem id_of (bytes "a") 2 traffic nothing family (unfold Dict.get in refl)

calls-IsServed_example :
    (items : List (Item ℕ)) × (depth (bytes "a") ran.registry ≡ pos (length items))
    × All (IsServed ran.heap (ran.log.received ++ items)) ran.log.contexts
calls-IsServed_example =
    calls-IsServed id_of (bytes "a") 2 traffic nothing family (unfold Dict.get in refl)

abbrev marks : List (Text × ℕ)
marks = (bytes "b", 5) ∷ (bytes "a", 6) ∷ (bytes "a", 7) ∷ []

mark_all_lem_example :
    ((mark_all (bytes "a") marks nothing).1 ≡ to_list (first_of (bytes "a") marks))
    × (get_spider_state (bytes "a") (mark_all (bytes "a") marks nothing).0
        ≡ first_of (bytes "a") marks)
mark_all_lem_example =
    mark_all_lem (bytes "a") marks nothing (unfold get_spider_state Dict.get in refl)

abbrev some_events : List (Event ℕ)
some_events = Event.item 1 ∷ Event.item 2 ∷ tick ∷ Event.item 3 ∷ tick ∷ Event.item 4 ∷ []

packed_events : (pack (λ n. n) 0 2 some_events start).given ≡ (1 ∷ 2 ∷ []) ∷ (3 ∷ []) ∷ []
unfolding pack
packed_events = refl

pack_lem_example :
    let p = pack (λ n. n) 0 2 some_events start in
    (concat p.given ++ contents p.arrays p.items ≡ arrivals some_events)
    × All (IsBatch 2) p.given
    × (p.items.len < max 1 2)
pack_lem_example = pack_lem (λ n. n) 0 2 some_events

abbrev two_held : Packer ℕ
two_held = record {
  arrays = λ a. 1 ∷ 2 ∷ 0 ∷ [];
  fresh = 1;
  items = record { array = 0; len = 2 };
  given = [];
}

flush-overwrites_example :
    contents (append (λ n. n) 0 9 (flush two_held)).arrays two_held.items ≡ 9 ∷ 2 ∷ []
flush-overwrites_example = flush-overwrites (λ n. n) 0 9 two_held (omega arith) (omega arith)

cancel_lem_example :
    let o = (cancel id_of 0 family).objects 2 in
    (o.done ≡ true)
    × (value (bytes "result") o.context_values
        ≡ or_before
            (bytes "second")
            (value (bytes "result") [])
            (Dict.get (bytes "result") batch.values))
cancel_lem_example =
    cancel_lem id_of 0 2 (bytes "result") family refl ((omega arith, tt), (tt, tt)) (omega arith)
      (inr (inl refl)) (unfold Dict.get in refl, tt)

-- The number of items that it is given.
abbrev how_many : List (Item ℕ) → Item ℕ
how_many items = plain (length items)
