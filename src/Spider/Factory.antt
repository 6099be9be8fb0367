-- ===== src/Spider/Factory.antt =====
-- spider/factory.go: the configuration of a factory, and how a worker runs one task.
-- `quits n` tells whether the n-th look at spider.IsStop and at the two Done channels says to leave.
-- The delays between attempts are not modelled.
pub mod Setup
pub mod Rules
pub mod Counts
pub mod Retries
pub mod Closing
pub mod Finishing
pub mod Ending
use openscraper_framework.Prelude.{
  ℕ, zero, suc, ◌+◌, Bool, true, false, not, ◌||◌, List, [], ◌∷◌, ltb, if◌then◌else◌,
}
use openscraper_framework.Spider.Context.{
  Context, StatusCode, failed_code, ok_code, skip_code, on_retry_code, uninit_code, retried, failed,
  finished, note, is_stopped, close_request, acquire_context, Script, run_script, next, do_chain,
  pre_check,
}

-- The callbacks of a spider, with the default PreCheck of spider/app.go over its checkers.
pub record Spider : Type 0 where
  pub middleware : List Script
  pub pre_checkers : List Script
  pub pre_start : Script
  pub start : Script
  pub on_retry : Script
  pub on_failed : Script
  pub on_finished : Script

pub record Task : Type 0 where
  pub ctx : Context
  pub polls : ℕ

abbrev pub is_failed : StatusCode → Bool
is_failed failed_code = true
is_failed _ = false

module _ (spider : Spider) where
  abbrev pub call : Script → Context → Context
  call s ctx = run_script (next spider.middleware) s ctx

  abbrev pub check : Context → Context
  check ctx = pre_check spider.middleware spider.pre_checkers ctx

  -- contextImpl.onRetry(spider.Start)
  unfoldable pub restart : Context → Context
  restart ctx =
      let ctx = call spider.start (
        note retried (record ctx { try_times = suc ctx.try_times; status_code = on_retry_code })) in
      record ctx { status_code = failed_code }

module _ (quits : ℕ → Bool) (spider : Spider) where
  -- doRetry. The fuel bounds the attempts; one more than the retries that are left is enough.
  unfoldable pub do_retry : ℕ → ℕ → Task → Task
  unfolding restart
  do_retry zero max t = t
  do_retry (suc fuel) max t =
      let ctx = do_chain spider.middleware t.ctx in
      let checked = check spider (call spider spider.on_retry ctx) in
      let again =
        do_retry fuel max (record { ctx = restart spider checked; polls = suc t.polls }) in
      if is_stopped ctx
      then record t { ctx = ctx }
      else if is_failed ctx.status_code
      then (if ltb max (ctx.try_times + 1)
          then record t { ctx = ctx }
          else if quits t.polls
          then record { ctx = ctx; polls = suc t.polls }
          else if is_stopped checked
          then record { ctx = checked; polls = suc t.polls }
          else again)
      else record t { ctx = ctx }

  -- `if f.MaxRetryTimes > 0 { doRetry } else { ctx.do() }`
  pub attempt : ℕ → Task → Task
  attempt zero t = record t { ctx = do_chain spider.middleware t.ctx }
  attempt (suc max) t = do_retry (suc (suc max)) (suc max) t

  finish : Context → Context
  finish ctx = call spider spider.on_finished (note finished ctx)

  after_failure : Context → Context
  after_failure ctx =
      if is_failed ctx.status_code then call spider spider.on_failed (note failed ctx) else ctx

  abbrev leaves : Context → Bool
  leaves ctx = not ctx.has_new_request || is_stopped ctx

  -- The part of the loop behind Start. `again` is the next round; the Boolean tells that the loop
  -- came to its end.
  round : ℕ → (Task → Task × Bool) → Task → Task × Bool
  unfolding attempt finish after_failure
  round max again t =
      let t' = attempt max t in
      let ctx = after_failure t'.ctx in
      if leaves ctx
      then (record t' { ctx = finish ctx }, true)
      else again (record t' { ctx = record ctx { try_times = 0 } })

  -- `if !start { … }`: the first round checks and starts the task.
  opening : Bool → (Task → Task × Bool) → Task → Task × Bool
  unfolding finish
  opening true body t = body t
  opening false body t =
      let ready = call spider spider.pre_start (check spider t.ctx) in
      let started = call spider spider.start ready in
      if is_stopped ready
      then (record t { ctx = finish ready }, true)
      else if leaves started
      then (record t { ctx = finish started }, true)
      else body (record t { ctx = started })

  -- The loop of do, by rounds: a spider may go on making requests for ever.
  task_loop : ℕ → ℕ → Bool → Task → Task × Bool
  unfolding round opening
  task_loop zero max started t = (t, false)
  task_loop (suc fuel) max started t =
      let t' : Task = record t { polls = suc t.polls } in
      if quits t.polls then (t', true) else opening started (round max (task_loop fuel max true)) t'

  -- Factory.do, with the deferred close; the Boolean tells that the task came to its end.
  unfoldable pub do_item : ℕ → ℕ → Context × Bool
  unfolding task_loop acquire_context close_request
  do_item fuel max =
      let (t, ended) = task_loop fuel max false (record { ctx = acquire_context max; polls = 0 }) in
      (close_request t.ctx, ended)
