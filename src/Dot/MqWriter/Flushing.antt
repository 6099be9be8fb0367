-- ===== src/Dot/MqWriter/Flushing.antt =====
-- What the loop of an MqWriter puts to the service, and what it leaves behind.
use openscraper_framework.Prelude.{
  ◌≤◌, ◌<◌, Bool, true, false, Bool-cases, Option, List, [], ◌∷◌, ◌++◌, ltb, leb, length, All,
  if◌then◌else◌, ◌≡◌, refl, sym, ap, subst, ◌∙◌, arith, inl, inr, length-append,
}
use mathlib.Core.List.{append_assoc, append-nil}
use openscraper_framework.Prelude.Int.{ℤ, pos, ltb_ℤ}
use openscraper_framework.Prelude.Text.{Text}
use openscraper_framework.Prelude.Batches.{concat, concat-snoc, All-snoc}
use openscraper_framework.Dot.MqWriter.{
  is_empty, answer, put, MqWriter, new_mq_writer, Event, adds, receives, ticks, cancels, put_all,
  flush, receive, step, flush_loop, accepted,
}

-- What every call of Put is given.
abbrev pub IsBatch : {Item : Type 0} → List Item → Type 0
IsBatch xs = (0 < length xs) × (length xs ≤ 2000)

record IsWriter {Item : Type 0} (seen : List Item) (w : MqWriter Item) : Type 0 where
  kept : concat w.puts ++ (w.items ++ w.operations) ≡ seen
  below : length w.items < 2000
  batches : All IsBatch w.puts

module _ {Item : Type 0} where
  put_all-IsWriter :
      (seen : List Item) (w : MqWriter Item)
      → concat w.puts ++ (w.items ++ w.operations) ≡ seen
      → IsBatch w.items
      → All IsBatch w.puts
      → IsWriter seen (put_all w)
  unfolding put_all
  put_all-IsWriter seen w k b a = record {
    kept =
        ap (λ l. l ++ w.operations) (concat-snoc w.puts w.items)
        ∙ append_assoc (concat w.puts) w.items w.operations
        ∙ k;
    below = omega arith;
    batches = All-snoc IsBatch w.puts w.items a b;
  }

  flush-IsWriter :
      (seen : List Item) (w : MqWriter Item) → IsWriter seen w → IsWriter seen (flush w)
  unfolding flush
  flush-IsWriter seen w i = elim (Bool-cases (ltb 0 (length w.items))) [
    | inl t ↦ rw t (put_all-IsWriter seen w i.kept (ground arith, omega (arith, i.below)) i.batches)
    | inr t ↦ rw t i
  ]

  receive-IsWriter :
      (seen : List Item) (w : MqWriter Item) (queue : List Item)
      → w.operations ≡ queue
      → IsWriter seen w
      → IsWriter seen (receive w queue)
  unfolding receive
  receive-IsWriter seen w [] e i = i
  receive-IsWriter seen w (x ∷ queue) e i =
      let v = record w { operations = queue; items = w.items ++ x ∷ [] } in
      let k : concat v.puts ++ (v.items ++ v.operations) ≡ seen =
        ap (λ l. concat w.puts ++ l)
          (append_assoc w.items (x ∷ []) queue ∙ ap (λ l. w.items ++ l) (sym e))
        ∙ i.kept in
      let n = length-append w.items (x ∷ []) in
      elim (Bool-cases (leb 2000 (length v.items))) [
        | inl t ↦
            rw t (put_all-IsWriter seen v k (omega (arith, n), omega (arith, n, i.below)) i.batches)
        | inr t ↦ rw t (record { kept = k; below = ground (arith, n); batches = i.batches })
      ]

  -- What an event adds to the items that were seen.
  abbrev entering : Event Item → MqWriter Item → List Item
  entering (adds x) w = if ltb (length w.operations) 3000 then x ∷ [] else []
  entering _ w = []

  either :
      (seen : List Item) (b : Bool) (w v : MqWriter Item)
      → IsWriter seen w
      → IsWriter seen v
      → IsWriter (seen ++ []) (if b then w else v)
  either seen true w v i j = rw (append-nil seen) i
  either seen false w v i j = rw (append-nil seen) j

  step-IsWriter :
      (e : Event Item) (seen : List Item) (w : MqWriter Item)
      → IsWriter seen w
      → IsWriter (seen ++ entering e w) (step e w)
  unfolding step
  step-IsWriter (adds x) seen w i = elim (Bool-cases (ltb (length w.operations) 3000)) [
    | inl t ↦ rw t (record {
      kept =
          ap (λ l. concat w.puts ++ l) (sym (append_assoc w.items w.operations (x ∷ [])))
          ∙ sym (append_assoc (concat w.puts) (w.items ++ w.operations) (x ∷ []))
          ∙ ap (λ l. l ++ x ∷ []) i.kept;
      below = i.below;
      batches = i.batches;
    })
    | inr t ↦ rw (t, append-nil seen) i
  ]
  step-IsWriter receives seen w i =
      either seen w.returned w (receive w w.operations) i
        (receive-IsWriter seen w w.operations refl i)
  step-IsWriter ticks seen w i = either seen w.returned w (flush w) i (flush-IsWriter seen w i)
  step-IsWriter cancels seen w i =
      let j = flush-IsWriter seen w i in
      either seen w.returned w (record (flush w) { returned = true }) i
        (record { kept = j.kept; below = j.below; batches = j.batches })

  flush_loop-IsWriter :
      (es : List (Event Item)) (seen : List Item) (w : MqWriter Item)
      → IsWriter seen w
      → IsWriter (seen ++ accepted es w) (flush_loop es w)
  unfolding flush_loop accepted
  flush_loop-IsWriter [] seen w i = rw (append-nil seen) i
  flush_loop-IsWriter (e ∷ es) seen w i =
      subst (λ l. IsWriter l (flush_loop es (step e w)))
        (append_assoc seen (entering e w) (accepted es (step e w))
          ∙ ap (λ l. seen ++ l) (entered e))
        (flush_loop-IsWriter es (seen ++ entering e w) (step e w) (step-IsWriter e seen w i))
    where
      entered : (e : Event Item) → entering e w ++ accepted es (step e w) ≡ accepted (e ∷ es) w
      entered (adds x) = elim (Bool-cases (ltb (length w.operations) 3000)) [
        | inl t ↦ rw t
        | inr t ↦ rw t
      ]
      entered receives = refl
      entered ticks = refl
      entered cancels = refl

  stopped :
      (es : List (Event Item)) (w : MqWriter Item)
      → w.returned ≡ true
      → (flush_loop es w).puts ≡ w.puts
  unfolding flush_loop step
  stopped [] w r = refl
  stopped (adds x ∷ es) w r = stopped es (step (adds x) w) (ground (arith, r)) ∙ ground arith
  stopped (receives ∷ es) w r = stopped es (step receives w) (ground (arith, r)) ∙ ground (arith, r)
  stopped (ticks ∷ es) w r = stopped es (step ticks w) (ground (arith, r)) ∙ ground (arith, r)
  stopped (cancels ∷ es) w r = stopped es (step cancels w) (ground (arith, r)) ∙ ground (arith, r)

-- Whatever is added, received and ticks, also behind the end of the process: the items that Put was called
-- with, then those that the loop holds and those in the channel are exactly the items that Add put into the
-- channel, in order. Every call has at least one item, and with a topic and a priority from 0 to 5 returns
-- what the service answers: the loop never runs into the limit of 3000 items.
pub flush_loop_lem :
    {Item Err : Type 0} (post : List Item → Option Err) (topic : Text) (priority : ℤ)
    (es : List (Event Item))
    → is_empty topic ≡ false
    → ltb_ℤ priority (pos 0) ≡ false
    → ltb_ℤ (pos 5) priority ≡ false
    → let w = flush_loop es new_mq_writer in
      (concat w.puts ++ (w.items ++ w.operations) ≡ accepted es new_mq_writer)
      × All (λ b. (0 < length b) × (put post topic priority b ≡ answer (post b))) w.puts
flush_loop_lem {Item = Item} post topic priority es t low high =
    let i =
      flush_loop-IsWriter es [] new_mq_writer
        (record { kept = refl; below = omega arith; batches = tt }) in
    (i.kept, answered_all (flush_loop es new_mq_writer).puts i.batches)
  where
    answered_all :
        (bs : List (List Item))
        → All IsBatch bs
        → All (λ b. (0 < length b) × (put post topic priority b ≡ answer (post b))) bs
    answered_all [] a = tt
    answered_all (b ∷ bs) a =
        let few : ltb 3000 (length b) ≡ false = ground (arith, a.0) in
        ((a.0.0, unfold put in rw (t, low, high, few)), answered_all bs a.1)

-- Once the process is cancelled, the loop puts what it holds and returns: whatever is added and happens
-- then, the items in the channel are never put, neither those that Add had put there before.
pub flush_loop-cancels :
    {Item : Type 0} (es : List (Event Item)) (w : MqWriter Item)
    → w.returned ≡ false
    → (flush_loop (cancels ∷ es) w).puts
      ≡ (if ltb 0 (length w.items) then w.puts ++ w.items ∷ [] else w.puts)
flush_loop-cancels es w r =
    let v = record (flush w) { returned = true } in
    let s : step cancels w ≡ v = unfold step in ap (λ b. if b then w else v) r in
    unfold flush_loop in
    ap (λ u. (flush_loop es u).puts) s ∙ stopped es v refl ∙ unfold flush put_all in ground arith
