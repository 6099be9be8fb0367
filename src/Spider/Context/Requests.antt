-- ===== src/Spider/Context/Requests.antt =====
-- Every request of a task is closed once: NewRequest closes the one before, and close the last.
use openscraper_framework.Prelude.{
  ℕ, suc, Option, none, some, List, [], ◌∷◌, ◌≡◌, refl, arith, ap, ◌∙◌, ltb, length, sym,
  Bool-cases, inl, inr,
}
use openscraper_framework.Prelude.Int.{pos}
use openscraper_framework.Prelude.Text.{Text}
use openscraper_framework.Spider.Context.{
  Context, LogValue, began, handler, note, close_request, stop_execution, new_request,
  add_log_field, set_ok, fail, skip, init, Action, ok_action, stop_action, new_request_action,
  fail_action, skip_action, log_action, perform, Script, handler_index,
}
use openscraper_framework.Spider.Context.Chain.{countdown}

-- Of the requests made so far all but the current one are closed, each once.
abbrev pub Owned : Option ℕ → ℕ → List ℕ → Type 0
Owned none made closed = (made ≡ 0) × (closed ≡ [])
Owned (some r) made closed = (made ≡ suc r) × (closed ≡ countdown r)

abbrev pub RequestsOwned : Context → Type 0
RequestsOwned c = Owned c.request c.made c.closed

made_requests :
    (r : Option ℕ) (c : Context)
    → c.request ≡ r
    → Owned r c.made c.closed
    → (close_request c).closed ≡ countdown c.made
unfolding close_request
made_requests none c e o = rw (e, o.0) o.1
made_requests (some r) c e o = rw (e, o.0) (ap (λ l. r ∷ l) o.1)

-- close leaves every request that was made closed, each once.
pub closed-close_request :
    (c : Context) → RequestsOwned c → (close_request c).closed ≡ countdown c.made
closed-close_request c o = made_requests c.request c refl o

pub made-close_request : (c : Context) → (close_request c).made ≡ c.made
unfolding close_request
made-close_request c = ground arith

new_request-RequestsOwned : (c : Context) → RequestsOwned c → RequestsOwned (new_request c)
unfolding new_request
new_request-RequestsOwned c o =
    (refl, closed-close_request c o ∙ ap countdown (sym (made-close_request c)))

-- The other calls do not touch the requests.
abbrev SameRequests : Context → Context → Type 0
SameRequests c d = (d.request ≡ c.request) × (d.made ≡ c.made) × (d.closed ≡ c.closed)

owned_same : (c d : Context) → SameRequests c d → RequestsOwned c → RequestsOwned d
owned_same c d (r, m, l) o = rw (r, m, l) o

add_log_field-requests :
    (key : Text) (v : LogValue) (c : Context) → SameRequests c (add_log_field key v c)
unfolding add_log_field
add_log_field-requests key v c = ground arith

fail-requests : (errs : Option Text) (c : Context) → SameRequests c (fail errs c)
unfolding fail
fail-requests errs c = ground arith

skip-requests : (errs : Option Text) (c : Context) → SameRequests c (skip errs c)
unfolding skip
skip-requests errs c = ground arith

pub perform-RequestsOwned :
    (a : Action) (c : Context) → RequestsOwned c → RequestsOwned (perform a c)
unfolding stop_execution set_ok
perform-RequestsOwned ok_action c o = o
perform-RequestsOwned stop_action c o = o
perform-RequestsOwned new_request_action c o = new_request-RequestsOwned c o
perform-RequestsOwned (fail_action errs) c o = owned_same c (fail errs c) (fail-requests errs c) o
perform-RequestsOwned (skip_action errs) c o = owned_same c (skip errs c) (skip-requests errs c) o
perform-RequestsOwned (log_action key v) c o =
    owned_same c (add_log_field key v c) (add_log_field-requests key v c) o

pub enter-RequestsOwned :
    (handlers : List Script) (n : ℕ) (c : Context)
    → RequestsOwned c
    → RequestsOwned (note (handler n) (handler_index handlers (pos n) c))
unfolding handler_index
enter-RequestsOwned handlers n c o = elim (Bool-cases (ltb n (length handlers))) [
  | inl e ↦ rw e o
  | inr e ↦ rw e o
]

pub init-RequestsOwned : (c : Context) → RequestsOwned c → RequestsOwned (note began (init c))
unfolding init
init-RequestsOwned c o = o
