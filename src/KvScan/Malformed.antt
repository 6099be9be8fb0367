-- ===== src/KvScan/Malformed.antt =====
-- What Next does where the server answers with replies that are not pages.
use openscraper_framework.Prelude.{ℕ, zero, suc, false, none, some, [], ◌≡◌, refl}
use openscraper_framework.Prelude.Text.{Text, bytes, eqb}
use openscraper_framework.KvScan.{Cmd, ScanError, is_failed, val, KvScanIterator, request, fetch}

-- Where the server answers every request without an error of the command, but with a reply that Val refuses,
-- Next, behind the page it has, never returns, whatever its fuel: the error of readReply is not looked at, and
-- the cursor that it leaves is not 0.
pub fetch-malformed :
    {Err : Type 0} (process : ℕ → Text → Cmd Err) (it : KvScanIterator Err) (fuel : ℕ)
    → ((n : ℕ) (cursor : Text)
        → (is_failed (process n cursor) ≡ false)
          × ((e : ScanError Err) × (val (process n cursor) ≡ ([], [], some e))))
    → eqb it.cursor (bytes "0") ≡ false
    → fetch process fuel it ≡ none
unfolding fetch eqb
fetch-malformed process it zero m c = refl
fetch-malformed {Err = Err} process it (suc fuel) m c =
    let (u, (e, v)) = m it.sent it.cursor in
    let w : KvScanIterator Err = record {
      base_cmd = process it.sent it.cursor;
      page = [];
      cursor = [];
      pos = 1;
      sent = suc it.sent;
    } in
    let r : request process it ≡ w = unfold request in rw (u, v) in
    rw (c, r, u) (fetch-malformed process w fuel m refl)
