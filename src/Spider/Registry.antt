-- ===== src/Spider/Registry.antt =====
-- spider/register.go and spider/anchor.go: the builders, the channels of items and the running spiders of
-- the process. A channel is a bounded queue; a worker receives from it. Sends and receives are atomic.
pub mod Channels
pub mod Queues
pub mod Running
pub mod Runs
pub mod Contexts
use openscraper_framework.Prelude.{
  ℕ, suc, ◌+◌, Bool, true, false, Option, none, some, List, [], ◌∷◌, ◌++◌, ltb, length,
  if◌then◌else◌,
}
use openscraper_framework.Prelude.Int.{ℤ, pos, negsuc}
use openscraper_framework.Prelude.Text.{Text}
use openscraper_framework.Prelude.Dict
use openscraper_framework.Prelude.Dict.{Dict}

pub record ItemCh (Item : Type 0) : Type 0 where
  pub items : List Item
  pub size : ℕ

-- The maps factories, spiderItemCh and runningSpiders.
pub record Registry (Item Builder Factory : Type 0) : Type 0 where
  pub factories : Dict Builder
  pub spider_item_ch : Dict (ItemCh Item)
  pub running_spiders : Dict Factory

depth_of : {Item : Type 0} → Option (ItemCh Item) → ℤ
depth_of none = negsuc 0
depth_of (some ch) = pos (length ch.items)

module _ {Item Builder Factory : Type 0} where
  -- Register of an Anchor, and Register
  unfoldable pub register :
      Text → Builder → Registry Item Builder Factory → Registry Item Builder Factory
  register name creator s = record s { factories = Dict.put name creator s.factories }

  created :
      Text
      → ℕ
      → Registry Item Builder Factory
      → Option (ItemCh Item)
      → Registry Item Builder Factory × ItemCh Item
  created topic max_size s (some ch) = (s, ch)
  created topic max_size s none =
      let ch : ItemCh Item = record { items = []; size = max_size } in
      (record s { spider_item_ch = Dict.put topic ch s.spider_item_ch }, ch)

  unfoldable pub create_item_ch :
      Text → ℕ → Registry Item Builder Factory → Registry Item Builder Factory × ItemCh Item
  unfolding created
  create_item_ch topic max_size s = created topic max_size s (Dict.get topic s.spider_item_ch)

  abbrev pub put_items :
      Text → ItemCh Item → List Item → Registry Item Builder Factory → Registry Item Builder Factory
  put_items topic ch items s = record s {
    spider_item_ch = Dict.put topic (record ch { items = items }) s.spider_item_ch;
  }

  -- `case itemCh <- item` or `default`, on a channel with a buffer; `none` is the panic on a topic that is not found.
  sent :
      Text
      → Item
      → Registry Item Builder Factory
      → Option (ItemCh Item)
      → Registry Item Builder Factory × Option ℕ
  sent topic item s none = (s, none)
  sent topic item s (some ch) =
      if ltb (length ch.items) ch.size
      then (put_items topic ch (ch.items ++ item ∷ []) s, some 1)
      else (s, some 0)

  unfoldable pub add_item :
      Text → Item → Registry Item Builder Factory → Registry Item Builder Factory × Option ℕ
  unfolding sent
  add_item topic item s = sent topic item s (Dict.get topic s.spider_item_ch)

  front :
      Text
      → ItemCh Item
      → Registry Item Builder Factory
      → List Item
      → Registry Item Builder Factory × Option Item
  front topic ch s [] = (s, none)
  front topic ch s (item ∷ items) = (put_items topic ch items s, some item)

  -- A worker's receive, which waits at an empty channel.
  taken :
      Text
      → Registry Item Builder Factory
      → Option (ItemCh Item)
      → Registry Item Builder Factory × Option Item
  unfolding front
  taken topic s none = (s, none)
  taken topic s (some ch) = front topic ch s ch.items

  unfoldable pub receive :
      Text → Registry Item Builder Factory → Registry Item Builder Factory × Option Item
  unfolding taken
  receive topic s = taken topic s (Dict.get topic s.spider_item_ch)

  unfoldable pub depth : Text → Registry Item Builder Factory → ℤ
  unfolding depth_of
  depth topic s = depth_of (Dict.get topic s.spider_item_ch)

  marked :
      Text
      → Factory
      → Registry Item Builder Factory
      → Option Factory
      → Registry Item Builder Factory × Bool
  marked name f s (some g) = (s, false)
  marked name f s none = (record s { running_spiders = Dict.put name f s.running_spiders }, true)

  unfoldable pub mark_running :
      Text → Factory → Registry Item Builder Factory → Registry Item Builder Factory × Bool
  unfolding marked
  mark_running name f s = marked name f s (Dict.get name s.running_spiders)

  unfoldable pub get_spider_state : Text → Registry Item Builder Factory → Option Factory
  get_spider_state name s = Dict.get name s.running_spiders
