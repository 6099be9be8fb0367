-- ===== src/KvScan.antt =====
-- The scan of util/redis_ext/kvscan.go and the conversions of replies in util/redis_ext/ext.go: the reply to
-- one command, and the iterator that asks for page after page. What the server answers to its n-th request,
-- given the cursor, is a parameter. Next runs on fuel, the number of pages that it may ask for.
pub mod Draining
pub mod Malformed
use openscraper_framework.Prelude.{
  ℕ, zero, suc, ◌+◌, ◌-◌, Bool, true, false, Option, none, some, List, [], ◌∷◌, ◌++◌, ◌&&◌, ltb,
  leb, length, if◌then◌else◌,
}
use openscraper_framework.Prelude.Text.{Text, bytes, eqb}

-- An element of the second part that is no string is none.
pub data Part : Type 0 where
  text : Text → Part
  elements : List (Option Text) → Part
  other : Part

-- A command behind its processing: with an error, with a slice, or with a reply that is no slice.
pub data Cmd (Err : Type 0) : Type 0 where
  failed : Err → Cmd Err
  slice : List Part → Cmd Err
  no_slice : Cmd Err

pub data ScanError (Err : Type 0) : Type 0 where
  of_cmd : Err → ScanError Err
  unexpected_type : ScanError Err
  unexpected_length : ℕ → ScanError Err

-- `sent` is the number of requests that the iterator has sent.
pub record KvScanIterator (Err : Type 0) : Type 0 where
  pub base_cmd : Cmd Err
  pub page : List Text
  pub cursor : Text
  pub pos : ℕ
  pub sent : ℕ

abbrev pub prepended : Text → Option (List Text) → Option (List Text)
prepended key none = none
prepended key (some keys) = some (key ∷ keys)

unfoldable pub to_strings : List (Option Text) → Option (List Text)
to_strings [] = some []
to_strings (none ∷ replies) = none
to_strings (some key ∷ replies) = prepended key (to_strings replies)

abbrev pub key_at : List Text → ℕ → Text
key_at [] n = []
key_at (key ∷ page) zero = key
key_at (key ∷ page) (suc n) = key_at page n

module _ {Err : Type 0} where
  abbrev pub is_failed : Cmd Err → Bool
  is_failed (failed e) = true
  is_failed (slice ps) = false
  is_failed no_slice = false

  -- Keys, cursor and error
  abbrev pub val_keys : Text → Option (List Text) → List Text × Text × Option (ScanError Err)
  val_keys cursor none = ([], [], some unexpected_type)
  val_keys cursor (some keys) = (keys, cursor, none)

  unfoldable pub val_parts : List Part → List Text × Text × Option (ScanError Err)
  val_parts (text cursor ∷ elements replies ∷ []) = val_keys cursor (to_strings replies)
  val_parts (p ∷ q ∷ []) = ([], [], some unexpected_type)
  val_parts parts = ([], [], some (unexpected_length (length parts)))

  unfoldable pub val : Cmd Err → List Text × Text × Option (ScanError Err)
  unfolding val_parts
  val (failed e) = ([], [], some (of_cmd e))
  val no_slice = ([], [], some unexpected_type)
  val (slice parts) = val_parts parts

  -- The error of readReply is not looked at.
  unfoldable pub iterator : Cmd Err → KvScanIterator Err
  iterator cmd =
      let (page, cursor, err) = val cmd in
      record { base_cmd = cmd; page = page; cursor = cursor; pos = 0; sent = 0 }

  unfoldable pub request : (ℕ → Text → Cmd Err) → KvScanIterator Err → KvScanIterator Err
  request process it =
      let cmd = process it.sent it.cursor in
      let (page, cursor, err) = val cmd in
      if is_failed cmd
      then record it { base_cmd = cmd; sent = suc it.sent }
      else record { base_cmd = cmd; page = page; cursor = cursor; pos = 1; sent = suc it.sent }

  unfoldable pub fetch :
      (ℕ → Text → Cmd Err) → ℕ → KvScanIterator Err → Option (KvScanIterator Err × Bool)
  fetch process zero it = none
  fetch process (suc fuel) it =
      let next_page = request process it in
      let rest = fetch process fuel next_page in
      if eqb it.cursor (bytes "0")
      then some (it, false)
      else if is_failed next_page.base_cmd
      then some (next_page, false)
      else if ltb 0 (length next_page.page)
      then some (next_page, true)
      else rest

  -- None is a Next that has not returned after `fuel` pages.
  unfoldable pub next :
      (ℕ → Text → Cmd Err) → ℕ → KvScanIterator Err → Option (KvScanIterator Err × Bool)
  next process fuel it =
      if is_failed it.base_cmd
      then some (it, false)
      else if ltb it.pos (length it.page)
      then some (record it { pos = suc it.pos }, true)
      else fetch process fuel it

  unfoldable pub iterator_val : KvScanIterator Err → Text
  iterator_val it =
      if is_failed it.base_cmd
      then []
      else if ltb 0 it.pos && leb it.pos (length it.page)
      then key_at it.page (it.pos - 1)
      else []

  abbrev pub collected :
      Option (KvScanIterator Err × Bool)
      → (KvScanIterator Err → Option (List Text))
      → Option (List Text)
  collected none rest = none
  collected (some (it, false)) rest = some []
  collected (some (it, true)) rest = prepended (iterator_val it) (rest it)

  -- A loop `for it.Next(ctx)` that keeps what Val returns
  unfoldable pub drain : (ℕ → Text → Cmd Err) → ℕ → ℕ → KvScanIterator Err → Option (List Text)
  drain process fuel zero it = none
  drain process fuel (suc n) it = collected (next process fuel it) (drain process fuel n)
