-- ===== src/KvScan/Draining.antt =====
-- What a loop over an iterator collects.
use openscraper_framework.Prelude.{
  ℕ, zero, suc, ◌-◌, ◌<◌, Bool, true, false, Option, none, some, List, [], ◌∷◌, ◌++◌, ltb, leb,
  length, ◌≡◌, refl, sym, ap, ◌∙◌, ◌⊎◌, arith, inl, inr, length-append,
}
use mathlib.Core.List.{append_assoc}
use openscraper_framework.Prelude.Text.{Text, bytes, eqb}
use openscraper_framework.Prelude.Batches.{concat}
use openscraper_framework.KvScan.{
  text, elements, Cmd, slice, is_failed, to_strings, prepended, val_parts, val, KvScanIterator,
  iterator, request, fetch, next, key_at, iterator_val, collected, drain,
}

abbrev pub strings : List Text → List (Option Text)
strings [] = []
strings (key ∷ keys) = some key ∷ strings keys

-- The reply of a server with a page and the cursor behind it.
abbrev pub page_of : {Err : Type 0} → Text → List Text → Cmd Err
page_of cursor page = slice (text cursor ∷ elements (strings page) ∷ [])

-- From the n-th request on, the server answers the cursor that it gave before with these pages, of which the
-- last alone has the cursor 0.
abbrev pub Serves : {Err : Type 0} → (ℕ → Text → Cmd Err) → ℕ → Text → List (List Text) → Type 0
Serves process n cursor [] = eqb cursor (bytes "0") ≡ true
Serves process n cursor (page ∷ pages) =
    (eqb cursor (bytes "0") ≡ false)
    × ((c : Text) × (process n cursor ≡ page_of c page) × Serves process (suc n) c pages)

to_strings-strings : (page : List Text) → to_strings (strings page) ≡ some page
unfolding to_strings
to_strings-strings [] = refl
to_strings-strings (key ∷ page) = rw (to_strings-strings page)

key_at-append :
    (pre : List Text) (x : Text) (suf : List Text) → key_at (pre ++ x ∷ suf) (length pre) ≡ x
key_at-append [] x suf = refl
key_at-append (y ∷ pre) x suf = key_at-append pre x suf

module _ {Err : Type 0} where
  val-page_of :
      (cursor : Text) (page : List Text)
      → val {Err = Err} (page_of cursor page) ≡ (page, cursor, none)
  unfolding val val_parts
  val-page_of cursor page = rw (to_strings-strings page)

  -- The iterator stands behind `seen` and before `left`.
  record IsAt (seen left : List Text) (it : KvScanIterator Err) : Type 0 where
    unfailed : is_failed it.base_cmd ≡ false
    split : it.page ≡ seen ++ left
    position : it.pos ≡ length seen

  request_lem :
      (process : ℕ → Text → Cmd Err) (it : KvScanIterator Err) (c : Text) (page : List Text)
      → process it.sent it.cursor ≡ page_of c page
      → request process it
        ≡ record { base_cmd = page_of c page; page = page; cursor = c; pos = 1; sent = suc it.sent }
  unfolding request
  request_lem process it c page e = rw (e, val-page_of c page)

  iterator_val-behind :
      (seen left : List Text) (x : Text) (it : KvScanIterator Err)
      → is_failed it.base_cmd ≡ false
      → it.page ≡ seen ++ x ∷ left
      → it.pos ≡ suc (length seen)
      → iterator_val it ≡ x
  unfolding iterator_val
  iterator_val-behind seen left x it u e p =
      let positive : ltb 0 it.pos ≡ true = ground (arith, p) in
      let within : leb it.pos (length it.page) ≡ true =
        rw e (ground (arith, p, length-append seen (x ∷ left))) in
      let o : it.pos - 1 ≡ length seen = omega (arith, p) in
      rw (u, positive, within, o, e) (key_at-append seen x left)

  -- A loop from inside a page
  drain_inside :
      (process : ℕ → Text → Cmd Err) (fuel n : ℕ) (x : Text) (seen left : List Text)
      (it : KvScanIterator Err)
      → IsAt seen (x ∷ left) it
      → drain process fuel (suc n) it
        ≡ prepended x (drain process fuel n (record it { pos = suc it.pos }))
  unfolding drain next
  drain_inside process fuel n x seen left it a =
      let p = a.position in
      let inside : ltb it.pos (length it.page) ≡ true =
        rw a.split (ground (arith, length-append seen (x ∷ left), p)) in
      let v =
        iterator_val-behind seen left x (record it { pos = suc it.pos }) a.unfailed a.split
          (ap suc p) in
      rw (a.unfailed, inside) (rw v)

  -- What fetch comes to from a cursor that the server answers with `pages`: the end, where they are empty, or
  -- the first page that is not.
  abbrev Fetched :
      (process : ℕ → Text → Cmd Err) (pages : List (List Text))
      (r : Option (KvScanIterator Err × Bool))
      → Type 0
  Fetched process pages r =
      ((it : KvScanIterator Err) × (r ≡ some (it, false)) × (concat pages ≡ []))
      ⊎ ((it : KvScanIterator Err) × (x : Text) × (page : List Text) × (later : List (List Text))
          × (r ≡ some (it, true))
          × IsAt (x ∷ []) page it
          × Serves process it.sent it.cursor later
          × (concat pages ≡ x ∷ page ++ concat later)
          × (length later < length pages)
          × (it.page ≡ x ∷ page))

  fetch_lem :
      (process : ℕ → Text → Cmd Err) (fuel : ℕ) (pages : List (List Text)) (it : KvScanIterator Err)
      → length pages < fuel
      → Serves process it.sent it.cursor pages
      → Fetched process pages (fetch process fuel it)
  unfolding fetch
  fetch_lem process zero pages it h s = elim h [ ]
  fetch_lem process (suc fuel) [] it h s = inl (it, rw s, refl)
  fetch_lem process (suc fuel) ([] ∷ pages) it h (s, (c, e, later)) =
      let v : KvScanIterator Err = record {
        base_cmd = page_of c [];
        page = [];
        cursor = c;
        pos = 1;
        sent = suc it.sent;
      } in
      let r : request process it ≡ v = request_lem process it c [] e in
      elim (fetch_lem process fuel pages v (omega (arith, h)) later) [
        | inl (w, q, z) ↦ inl (w, rw (s, r) q, z)
        | inr (w, x, page, rest, q, a, b, z, n, m) ↦
            inr (w, x, page, rest, rw (s, r) q, a, b, z, omega (arith, n), m)
      ]
  fetch_lem process (suc fuel) ((x ∷ page) ∷ pages) it h (s, (c, e, later)) =
      let v : KvScanIterator Err = record {
        base_cmd = page_of c (x ∷ page);
        page = x ∷ page;
        cursor = c;
        pos = 1;
        sent = suc it.sent;
      } in
      let r : request process it ≡ v = request_lem process it c (x ∷ page) e in
      let positive : ltb 0 (length (x ∷ page)) ≡ true = ground arith in
      inr (
        v,
        x,
        page,
        pages,
        rw (s, r, positive),
        record { unfailed = refl; split = refl; position = refl },
        later,
        refl,
        omega arith,
        refl,
      )

  drain-next :
      (process : ℕ → Text → Cmd Err) (fuel n : ℕ) (it : KvScanIterator Err)
      (r : Option (KvScanIterator Err × Bool))
      → next process fuel it ≡ r
      → drain process fuel (suc n) it ≡ collected r (drain process fuel n)
  unfolding drain
  drain-next process fuel n it r e = ap (λ s. collected s (drain process fuel n)) e

  drain-IsAt :
      (process : ℕ → Text → Cmd Err) (fuel n : ℕ) (seen left : List Text) (pages : List (List Text))
      (it : KvScanIterator Err)
      → IsAt seen left it
      → Serves process it.sent it.cursor pages
      → length pages < fuel
      → length (left ++ concat pages) < n
      → drain process fuel n it ≡ some (left ++ concat pages)
  drain-IsAt process fuel zero seen left pages it a s h k = elim k [ ]
  drain-IsAt process fuel (suc n) seen (x ∷ left) pages it a s h k =
      let b : IsAt (seen ++ x ∷ []) left (record it { pos = suc it.pos }) = record {
        unfailed = a.unfailed;
        split = a.split ∙ sym (append_assoc seen (x ∷ []) left);
        position = omega (arith, a.position, length-append seen (x ∷ []));
      } in
      drain_inside process fuel n x seen left it a
      ∙ ap (prepended x) (
          drain-IsAt process fuel n (seen ++ x ∷ []) left pages (record it { pos = suc it.pos }) b s
            h (omega (arith, k)))
  drain-IsAt process fuel (suc n) seen [] pages it a s h k =
      let l = length-append seen [] in
      let outside : ltb it.pos (length it.page) ≡ false =
        rw a.split (ground (arith, l, a.position)) in
      let to_fetch : next process fuel it ≡ fetch process fuel it =
        unfold next in rw (a.unfailed, outside) in
      elim (fetch_lem process fuel pages it h s) [
        | inl (w, q, z) ↦
            drain-next process fuel n it (some (w, false)) (to_fetch ∙ q) ∙ ap some (sym z)
        | inr (w, x, page, later, q, b, t, z, m, p) ↦
            let v = iterator_val-behind [] page x w b.unfailed p b.position in
            let rest =
              drain-IsAt process fuel n (x ∷ []) page later w b t (omega (arith, h, m))
                (omega (arith, k, ap length z)) in
            drain-next process fuel n it (some (w, true)) (to_fetch ∙ q) ∙ rw (v, rest, z)
      ]

-- A loop over the iterator of a scan, `for it.Next(ctx)` with Val, ends and collects the keys of every page,
-- in order and each once, whatever the pages are, empty ones too, when the server answers each cursor
-- with the next page and gives the cursor 0 with the last page alone. The loop takes a turn per key and one
-- more, and no Next asks for more than the pages there are.
pub drain-iterator :
    {Err : Type 0} (process : ℕ → Text → Cmd Err) (cursor : Text) (page : List Text)
    (pages : List (List Text))
    → Serves process 0 cursor pages
    → drain process
        (suc (length pages))
        (suc (length (page ++ concat pages)))
        (iterator (page_of cursor page))
      ≡ some (page ++ concat pages)
drain-iterator {Err = Err} process cursor page pages s =
    let start : KvScanIterator Err = record {
      base_cmd = page_of cursor page;
      page = page;
      cursor = cursor;
      pos = 0;
      sent = 0;
    } in
    let e : iterator (page_of cursor page) ≡ start =
      unfold iterator in rw (val-page_of {Err = Err} cursor page) in
    rw e (
      drain-IsAt process (suc (length pages)) (suc (length (page ++ concat pages))) [] page pages
        start (record { unfailed = refl; split = refl; position = refl }) s (omega arith)
        (omega arith))
