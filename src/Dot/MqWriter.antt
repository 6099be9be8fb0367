-- ===== src/Dot/MqWriter.antt =====
-- Mq.Put and MqWriter of dot/spider_mq.go: items are added to a channel, and a loop puts them to the queue
-- service in batches. What the service answers is a parameter.
pub mod Flushing
use openscraper_framework.Prelude.{
  ℕ, zero, suc, Bool, true, false, not, Option, none, some, List, [], ◌∷◌, ◌++◌, ◌||◌, ltb, leb,
  length, if◌then◌else◌,
}
use openscraper_framework.Prelude.Int.{ℤ, pos, ltb_ℤ}
use openscraper_framework.Prelude.Text.{Text}

pub data PutError (Err : Type 0) : Type 0 where
  illegal_topic illegal_priority too_many_items : PutError Err
  answered : Err → PutError Err

abbrev is_empty : {A : Type 0} → List A → Bool
is_empty [] = true
is_empty (x ∷ xs) = false

abbrev pub answer : {Err : Type 0} → Option Err → Option (PutError Err)
answer none = none
answer (some e) = some (answered e)

-- Put, where `post` is the request with what the service answers.
unfoldable pub put :
    {Item Err : Type 0} → (List Item → Option Err) → Text → ℤ → List Item → Option (PutError Err)
put post topic priority items =
    if is_empty topic
    then some illegal_topic
    else if ltb_ℤ priority (pos 0) || ltb_ℤ (pos 5) priority
    then some illegal_priority
    else if ltb 3000 (length items)
    then some too_many_items
    else answer (post items)

-- `puts` are the items of each call of Put, whose error the loop does not look at.
pub record MqWriter (Item : Type 0) : Type 0 where
  pub operations : List Item
  pub items : List Item
  pub puts : List (List Item)
  pub returned : Bool

abbrev pub new_mq_writer : {Item : Type 0} → MqWriter Item
new_mq_writer = record { operations = []; items = []; puts = []; returned = false }

-- An Add, which waits while the channel is full, and the three cases of the loop's select.
pub data Event (Item : Type 0) : Type 0 where
  adds : Item → Event Item
  receives ticks cancels : Event Item

module _ {Item : Type 0} where
  put_all : MqWriter Item → MqWriter Item
  put_all w = record w { items = []; puts = w.puts ++ w.items ∷ [] }

  flush : MqWriter Item → MqWriter Item
  unfolding put_all
  flush w = if ltb 0 (length w.items) then put_all w else w

  receive : MqWriter Item → List Item → MqWriter Item
  unfolding put_all
  receive w [] = w
  receive w (x ∷ operations) =
      let v = record w { operations = operations; items = w.items ++ x ∷ [] } in
      if leb 2000 (length v.items) then put_all v else v

  unfoldable pub step : Event Item → MqWriter Item → MqWriter Item
  unfolding flush receive
  step (adds x) w =
      if ltb (length w.operations) 3000 then record w { operations = w.operations ++ x ∷ [] } else w
  step receives w = if w.returned then w else receive w w.operations
  step ticks w = if w.returned then w else flush w
  step cancels w = if w.returned then w else record (flush w) { returned = true }

  unfoldable pub flush_loop : List (Event Item) → MqWriter Item → MqWriter Item
  unfolding step
  flush_loop [] w = w
  flush_loop (e ∷ es) w = flush_loop es (step e w)

  -- The items that Add put into the channel.
  unfoldable pub accepted : List (Event Item) → MqWriter Item → List Item
  unfolding step
  accepted [] w = []
  accepted (adds x ∷ es) w =
      let later = accepted es (step (adds x) w) in
      if ltb (length w.operations) 3000 then x ∷ later else later
  accepted (receives ∷ es) w = accepted es (step receives w)
  accepted (ticks ∷ es) w = accepted es (step ticks w)
  accepted (cancels ∷ es) w = accepted es (step cancels w)
