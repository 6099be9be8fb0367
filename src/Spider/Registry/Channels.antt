-- ===== src/Spider/Registry/Channels.antt =====
-- The channel of a topic as a queue, and what each call on the registry does to it.
use openscraper_framework.Prelude.{
  ℕ, ◌≤◌, false, Bool-cases, Option, Option-cases, none, some, List, [], ◌∷◌, ◌++◌, ltb, length,
  if◌then◌else◌, ◌≡◌, refl, sym, ap, ◌∙◌, arith, inl, inr, length-append,
}
use mathlib.Core.List.{append_assoc}
use openscraper_framework.Prelude.Text.{Text, eqb, eqb_iff, eqb_refl}
use openscraper_framework.Prelude.Dict
use openscraper_framework.Prelude.Dict.{Dict, get-put}
use openscraper_framework.Spider.Registry.Runs.{Log, accept, receive_log, with_context_of}
use openscraper_framework.Spider.Registry.{
  ItemCh, Registry, create_item_ch, created, add_item, sent, receive, taken, front, put_items,
  mark_running, marked,
}

module _ {Item Builder Factory : Type 0} (topic : Text) where
  -- The topic has a channel of that size, which holds what was accepted and not yet received, in order.
  pub record IsQueue (size : ℕ) (s : Registry Item Builder Factory) (l : Log Item) : Type 0 where
    pub items : List Item
    pub found : Dict.get topic s.spider_item_ch ≡ some (record { items = items; size = size })
    pub in_order : l.accepted ≡ l.received ++ items
    pub bounded : length items ≤ size

module _ {Item Builder Factory : Type 0} (topic : Text) (size : ℕ)
    (s : Registry Item Builder Factory) (l : Log Item) (q : IsQueue topic size s l) where
  -- A change of the channel of another topic.
  other-IsQueue :
      (t : Text) (ch : ItemCh Item)
      → eqb t topic ≡ false
      → IsQueue topic size (record s { spider_item_ch = Dict.put t ch s.spider_item_ch }) l
  other-IsQueue t ch h = record {
    items = q.items;
    found = rw (get-put t topic ch s.spider_item_ch, h) q.found;
    in_order = q.in_order;
    bounded = q.bounded;
  }

  changed-IsQueue :
      (items : List Item) (l' : Log Item)
      → l'.accepted ≡ l'.received ++ items
      → length items ≤ size
      → IsQueue topic size (put_items topic (record { items = q.items; size = size }) items s) l'
  changed-IsQueue items l' e h = record {
    items = items;
    found = rw (
      get-put topic topic (record { items = items; size = size }) s.spider_item_ch,
      eqb_refl topic,
    );
    in_order = e;
    bounded = h;
  }

  sent_other :
      (t : Text) (item : Item) (o : Option (ItemCh Item))
      → eqb t topic ≡ false
      → IsQueue topic size (sent t item s o).0 l
  unfolding sent
  sent_other t item none e = q
  sent_other t item (some ch) e = elim (Bool-cases (ltb (length ch.items) ch.size)) [
    | inl h ↦ rw h (other-IsQueue t (record ch { items = ch.items ++ item ∷ [] }) e)
    | inr h ↦ rw h q
  ]

  sent_here :
      (item : Item)
      → let r = sent topic item s (some (record { items = q.items; size = size })) in
        IsQueue topic size r.0 (accept item r.1 l)
  unfolding sent
  sent_here item = elim (Bool-cases (ltb (length q.items) size)) [
    | inl h ↦ rw h (
        changed-IsQueue (q.items ++ item ∷ []) (record l { accepted = l.accepted ++ item ∷ [] })
          (ap (λ x. x ++ item ∷ []) q.in_order ∙ append_assoc l.received q.items (item ∷ []))
          (let long = length-append q.items (item ∷ []) in ground (arith, long)))
    | inr h ↦ rw h q
  ]

  pub add_item-IsQueue :
      (t : Text) (item : Item)
      → let (s', r) = add_item t item s in
        IsQueue topic size s' (if eqb t topic then accept item r l else l)
  unfolding add_item
  add_item-IsQueue t item = elim (Bool-cases (eqb t topic)) [
    | inl e ↦
        let same = (eqb_iff t topic).0 e in rw (same, eqb_refl topic, q.found) (sent_here item)
    | inr e ↦ rw e (sent_other t item (Dict.get t s.spider_item_ch) e)
  ]

  front_other :
      (t : Text) (ch : ItemCh Item) (items : List Item)
      → eqb t topic ≡ false
      → IsQueue topic size (front t ch s items).0 l
  unfolding front
  front_other t ch [] e = q
  front_other t ch (item ∷ items) e = other-IsQueue t (record ch { items = items }) e

  taken_other :
      (t : Text) (o : Option (ItemCh Item))
      → eqb t topic ≡ false
      → IsQueue topic size (taken t s o).0 l
  unfolding taken
  taken_other t none e = q
  taken_other t (some ch) e = front_other t ch ch.items e

  front_here :
      (items : List Item)
      → q.items ≡ items
      → let r = front topic (record { items = q.items; size = size }) s items in
        IsQueue topic size r.0 (receive_log r.1 l)
  unfolding front
  front_here [] e = q
  front_here (item ∷ items) e =
      changed-IsQueue items (record l { received = l.received ++ item ∷ [] })
        (q.in_order ∙ ap (λ x. l.received ++ x) e ∙ sym (append_assoc l.received (item ∷ []) items))
        (let long = ap length e in omega (arith, q.bounded, long))

  pub receive-IsQueue :
      (t : Text)
      → let (s', r) = receive t s in
        IsQueue topic size s' (if eqb t topic then receive_log r l else l)
  unfolding receive taken
  receive-IsQueue t = elim (Bool-cases (eqb t topic)) [
    | inl e ↦
        let same = (eqb_iff t topic).0 e in
        rw (same, eqb_refl topic, q.found) (front_here q.items refl)
    | inr e ↦ rw e (taken_other t (Dict.get t s.spider_item_ch) e)
  ]

  pub creates-IsQueue : (t : Text) (n : ℕ) → IsQueue topic size (create_item_ch t n s).0 l
  unfolding create_item_ch created
  creates-IsQueue t n = elim (Bool-cases (eqb t topic)) [
    | inl e ↦ let same = (eqb_iff t topic).0 e in rw (same, q.found) q
    | inr e ↦ elim (Option-cases (Dict.get t s.spider_item_ch)) [
      | inl g ↦ rw g (other-IsQueue t (record { items = []; size = n }) e)
      | inr (ch, g) ↦ rw g q
    ]
  ]

  pub kept-IsQueue :
      (s' : Registry Item Builder Factory)
      → s'.spider_item_ch ≡ s.spider_item_ch
      → IsQueue topic size s' l
  kept-IsQueue s' e = record {
    items = q.items;
    found = ap (Dict.get topic) e ∙ q.found;
    in_order = q.in_order;
    bounded = q.bounded;
  }

  pub mark_running-IsQueue :
      (name : Text) (f : Factory) → IsQueue topic size (mark_running name f s).0 l
  unfolding mark_running marked
  mark_running-IsQueue name f =
      kept-IsQueue (mark_running name f s).0 (marked_channels (Dict.get name s.running_spiders))
    where
      marked_channels :
          (o : Option Factory) → (marked name f s o).0.spider_item_ch ≡ s.spider_item_ch
      marked_channels none = refl
      marked_channels (some g) = refl

  -- The contexts that are logged do not matter here.
  pub contexts-IsQueue : (ref : ℕ) → IsQueue topic size s (with_context_of ref l)
  contexts-IsQueue ref = record {
    items = q.items;
    found = q.found;
    in_order = q.in_order;
    bounded = q.bounded;
  }
