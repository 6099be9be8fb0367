-- ===== src/Spider/Context/Steps.antt =====
-- What the single calls do to the index of the current handler and to the trace.
use openscraper_framework.Prelude.{
  ℕ, get_elem?, get_elem?-lt, some, List, ◌≡◌, refl, arith, inl, inr, ◌⊎◌,
}
use openscraper_framework.Prelude.Int.{pos, negsuc}
use openscraper_framework.Spider.Context.{
  Context, stop_execution, new_request, add_log_field, set_ok, fail, skip, Action, ok_action,
  stop_action, new_request_action, fail_action, skip_action, log_action, perform, Script,
  handler_index,
}

-- What a call on the context does to the index: nothing, or it stops the task.
pub index-perform :
    (a : Action) (c : Context)
    → ((perform a c).current_handler_index ≡ c.current_handler_index)
      ⊎ ((perform a c).current_handler_index ≡ negsuc 0)
unfolding stop_execution new_request add_log_field set_ok fail skip
index-perform ok_action c = inl refl
index-perform stop_action c = inr refl
index-perform new_request_action c = inl (ground arith)
index-perform (fail_action errs) c = inl (ground arith)
index-perform (skip_action errs) c = inl (ground arith)
index-perform (log_action key v) c = inl (ground arith)

pub trace-perform : (a : Action) (c : Context) → (perform a c).trace ≡ c.trace
unfolding stop_execution new_request add_log_field set_ok fail skip
trace-perform ok_action c = refl
trace-perform stop_action c = refl
trace-perform new_request_action c = ground arith
trace-perform (fail_action errs) c = ground arith
trace-perform (skip_action errs) c = ground arith
trace-perform (log_action key v) c = ground arith

-- A handler that is entered runs at its own number.
pub index-handler_index :
    (handlers : List Script) (n : ℕ) (h : Script) (c : Context)
    → get_elem? handlers n ≡ some h
    → (handler_index handlers (pos n) c).current_handler_index ≡ pos n
unfolding handler_index
index-handler_index handlers n h c e = ground (arith, get_elem?-lt handlers n h e)

pub trace-handler_index :
    (handlers : List Script) (n : ℕ) (c : Context)
    → (handler_index handlers (pos n) c).trace ≡ c.trace
unfolding handler_index
trace-handler_index handlers n c = ground arith
