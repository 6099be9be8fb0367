-- ===== src/Spider/Context.antt =====
-- spider/context.go and the pre-checks of spider/app.go: the state of one task, and the chain of
-- handlers that runs over it. User code (handlers, Start, …) is a script of calls on the context,
-- which may look at the whole state between two calls. The chain is the spider's middleware and
-- does not change during a task.
pub mod Rules
mod Steps
pub mod Depth
pub mod Chain
pub mod Requests
pub mod Quiet
use openscraper_framework.Prelude.{
  ℕ, zero, suc, Bool, true, false, Option, none, some, List, [], ◌∷◌, get_elem?, length,
  if◌then◌else◌, ltb, ◌==◌,
}
use openscraper_framework.Prelude.Int.{ℤ, pos, negsuc}
use openscraper_framework.Prelude.Text.{Text, bytes, eqb}

-- spider/types.go; the codes 0 to 4
pub data StatusCode : Type 0 where
  failed_code ok_code skip_code on_retry_code uninit_code : StatusCode

-- A log field: a string, or another value, which the code only passes on.
pub data LogValue : Type 0 where
  text : Text → LogValue
  other : ℕ → LogValue

-- What happens to a task, for the statements about it.
pub data Event : Type 0 where
  began : Event
  handler : ℕ → Event
  retried failed finished : Event

-- `contextImpl`. A request is the number of requests that were made before it. The last three
-- fields are observations: the requests made and closed so far, and the events, newest first.
pub record Context : Type 0 where
  pub current_handler_index : ℤ
  pub try_times : ℕ
  pub max_retry_times : ℕ
  pub request : Option ℕ
  pub status_code : StatusCode
  pub log_fields : Text → Option LogValue
  pub err : Option Text
  pub has_new_request : Bool
  pub made : ℕ
  pub closed : List ℕ
  pub trace : List Event

-- AcquireContext, as far as the fields go.
unfoldable pub acquire_context : ℕ → Context
acquire_context max = record {
  current_handler_index = pos 0;
  try_times = 0;
  max_retry_times = max;
  request = none;
  status_code = uninit_code;
  log_fields = λ key. none;
  err = none;
  has_new_request = false;
  made = 0;
  closed = [];
  trace = [];
}

abbrev pub note : Event → Context → Context
note e ctx = record ctx { trace = e ∷ ctx.trace }

abbrev is_minus_one : ℤ → Bool
is_minus_one (negsuc zero) = true
is_minus_one _ = false

abbrev pub is_stopped : Context → Bool
is_stopped ctx = is_minus_one ctx.current_handler_index

unfoldable pub stop_execution : Context → Context
stop_execution ctx = record ctx { current_handler_index = negsuc 0 }

-- `if ctx.request != nil { ctx.request.Close() }`
unfoldable pub close_request : Context → Context
close_request ctx = elim ctx.request [
  | none ↦ ctx
  | some r ↦ record ctx { closed = r ∷ ctx.closed }
]

unfoldable pub new_request : Context → Context
unfolding close_request
new_request ctx =
    let ctx = close_request ctx in
    record ctx { request = some ctx.made; has_new_request = true; made = suc ctx.made }

abbrev delete_field : Text
delete_field = bytes "__DELETE_FIELD"

abbrev update : Text → Option LogValue → (Text → Option LogValue) → Text → Option LogValue
update key v fields j = if eqb key j then v else fields j

abbrev is_deletion : LogValue → Bool
is_deletion (text v) = eqb v delete_field
is_deletion (other n) = false

unfoldable pub add_log_field : Text → LogValue → Context → Context
unfolding eqb
add_log_field key v ctx =
    if is_deletion v
    then record ctx { log_fields = update key none ctx.log_fields }
    else record ctx { log_fields = update key (some v) ctx.log_fields }

unfoldable pub set_ok : Context → Context
set_ok ctx = record ctx { status_code = ok_code }

with_err : Option Text → Context → Context
unfolding add_log_field
with_err none ctx = ctx
with_err (some e) ctx = add_log_field (bytes "err") (text e) (record ctx { err = some e })

-- `errs` is the first of the variadic errors.
unfoldable pub fail : Option Text → Context → Context
unfolding with_err
fail errs ctx = with_err errs (record ctx { status_code = failed_code })

-- Skip keeps the error only where there is a request.
unfoldable pub skip : Option Text → Context → Context
unfolding with_err
skip errs ctx =
    let ctx = record ctx { status_code = skip_code } in
    elim ctx.request [ none ↦ ctx | some r ↦ with_err errs ctx ]

unfoldable pub init : Context → Context
init ctx = record ctx {
  has_new_request = false;
  status_code = failed_code;
  err = none;
  log_fields = update (bytes "err") none ctx.log_fields;
}

unfoldable pub is_max_retry : Context → Bool
is_max_retry ctx = ctx.try_times == ctx.max_retry_times

-- The calls that user code makes on a context.
pub data Action : Type 0 where
  ok_action stop_action new_request_action : Action
  fail_action skip_action : Option Text → Action
  log_action : Text → LogValue → Action

abbrev pub perform : Action → Context → Context
perform ok_action ctx = set_ok ctx
perform stop_action ctx = stop_execution ctx
perform new_request_action ctx = new_request ctx
perform (fail_action errs) ctx = fail errs ctx
perform (skip_action errs) ctx = skip errs ctx
perform (log_action key v) ctx = add_log_field key v ctx

pub data Script : Type 0 where
  return : Script
  look : (Context → Script) → Script
  act : Action → Script → Script
  -- ctx.Next()
  call_next : Script → Script

-- What a script does, given what Next does.
unfoldable pub run_script : (Context → Context) → Script → Context → Context
run_script next return ctx = ctx
run_script next (look k) ctx = run_script next (k ctx) ctx
run_script next (act a s) ctx = run_script next s (perform a ctx)
run_script next (call_next s) ctx = run_script next s (next ctx)

-- handlerIndex: a number out of range changes nothing.
unfoldable pub handler_index : List Script → ℤ → Context → Context
handler_index handlers (negsuc n) ctx = ctx
handler_index handlers (pos n) ctx =
    if ltb n (length handlers) then record ctx { current_handler_index = pos n } else ctx

abbrev succ_index : ℤ → ℕ
succ_index (pos n) = suc n
succ_index (negsuc n) = 0

-- `ctx.handlers[n](ctx)`, behind the test of the index.
enter_found : (Context → Context) → List Script → ℕ → Option Script → Context → Context
unfolding handler_index
enter_found next handlers n none ctx = ctx
enter_found next handlers n (some h) ctx =
    run_script next h (note (handler n) (handler_index handlers (pos n) ctx))

enter : (Context → Context) → List Script → ℕ → Context → Context
unfolding enter_found
enter next handlers n ctx = enter_found next handlers n (get_elem? handlers n) ctx

-- Next. The fuel bounds how deep the calls nest; as many rounds as there are handlers are enough.
unfoldable pub next_from : ℕ → List Script → Context → Context
unfolding enter
next_from zero handlers ctx = ctx
next_from (suc fuel) handlers ctx =
    if is_stopped ctx
    then ctx
    else enter (next_from fuel handlers) handlers (succ_index ctx.current_handler_index) ctx

abbrev pub next : List Script → Context → Context
next handlers ctx = next_from (length handlers) handlers ctx

-- NextHandler
unfoldable pub next_handler : List Script → Context → Option Script
next_handler handlers ctx =
    if is_stopped ctx then none else get_elem? handlers (succ_index ctx.current_handler_index)

-- do: the first handler, on an initialised context.
unfoldable pub do_chain : List Script → Context → Context
unfolding init enter
do_chain handlers ctx = enter (next handlers) handlers 0 (note began (init ctx))

-- PreCheck of spider/app.go: it ends at the first checker that stops the task.
unfoldable pub pre_check : List Script → List Script → Context → Context
pre_check handlers [] ctx = ctx
pre_check handlers (checker ∷ checkers) ctx =
    let ctx' = run_script (next handlers) checker ctx in
    let rest = pre_check handlers checkers ctx' in if is_stopped ctx' then ctx' else rest
