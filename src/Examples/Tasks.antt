-- ===== src/Examples/Tasks.antt =====
-- A spider of two handlers. It makes a request at the start, its first attempt fails, and the second
-- one succeeds.
use openscraper_framework.Prelude.{
  ℕ, ◌+◌, Bool, true, false, none, [], ◌∷◌, length, ◌≡◌, refl, arith, ◌⊎◌, if◌then◌else◌, ltb,
}
use openscraper_framework.Prelude.Int.{pos}
use openscraper_framework.Spider.Context.{
  acquire_context, pre_check, new_request, run_script, fail, set_ok, Script, return, look, act,
  call_next, ok_action, fail_action, new_request_action, next_from, next, do_chain,
}
use openscraper_framework.Spider.Context.Depth.{next_depth}
use openscraper_framework.Spider.Context.Chain.{InChain, countdown, do_chain-InChain}
use openscraper_framework.Spider.Factory.{Spider, Task, do_retry, do_item}
use openscraper_framework.Spider.Factory.Retries.{Settled, do_retry-Settled}
use openscraper_framework.Spider.Context.Quiet.{IsQuiet}
use openscraper_framework.Spider.Factory.Ending.{IsQuietSpider, do_item_ends}
use openscraper_framework.Spider.Factory.Closing.{do_item-closed}
use openscraper_framework.Spider.Factory.Finishing.{finishes, do_item-finishes}
use openscraper_framework.Spider.Factory.Setup.{Settings}

abbrev logging : Script
logging = call_next return

abbrev fetching : Script
fetching =
    look
      (λ ctx. if ltb 0 ctx.try_times then act ok_action return else act (fail_action none) return)

abbrev retrying_spider : Spider
retrying_spider = record {
  middleware = logging ∷ fetching ∷ [];
  pre_checkers = [];
  pre_start = return;
  start = act new_request_action return;
  on_retry = return;
  on_failed = return;
  on_finished = return;
}

abbrev never : ℕ → Bool
never n = false

abbrev fresh : Task
fresh = record { ctx = acquire_context 3; polls = 0 }

do_item-closed_example :
    (do_item never retrying_spider 5 3).0.closed
    ≡ countdown (do_item never retrying_spider 5 3).0.made
do_item-closed_example = do_item-closed never retrying_spider 5 3

do_item-finishes_example :
    ((finishes (do_item never retrying_spider 5 3).0.trace ≡ 1)
      × ((do_item never retrying_spider 5 3).1 ≡ true))
    ⊎ ((finishes (do_item never retrying_spider 5 3).0.trace ≡ 0)
        × (((do_item never retrying_spider 5 3).1 ≡ false) ⊎ ((j : ℕ) × (never j ≡ true))))
do_item-finishes_example = do_item-finishes never retrying_spider 5 3

do_chain-InChain_example :
    InChain (logging ∷ fetching ∷ []) (do_chain (logging ∷ fetching ∷ []) (acquire_context 3))
do_chain-InChain_example = do_chain-InChain logging (fetching ∷ []) (acquire_context 3)

next_depth_example :
    next_from (5 + length (logging ∷ fetching ∷ [])) (logging ∷ fetching ∷ []) (acquire_context 3)
    ≡ next (logging ∷ fetching ∷ []) (acquire_context 3)
unfolding acquire_context
next_depth_example = next_depth 5 (logging ∷ fetching ∷ []) (acquire_context 3) (omega arith)

do_retry-Settled_example :
    Settled never retrying_spider 4 0 (do_retry never retrying_spider 9 3 fresh)
unfolding acquire_context
do_retry-Settled_example = do_retry-Settled never retrying_spider 9 3 fresh (omega arith) refl

IsQuiet-if : (b : Bool) (s t : Script) → IsQuiet s → IsQuiet t → IsQuiet (if b then s else t)
IsQuiet-if true s t p q = p
IsQuiet-if false s t p q = q

retrying_spider-IsQuietSpider : IsQuietSpider retrying_spider
retrying_spider-IsQuietSpider = record {
  handlers = (
    tt,
    (
      (λ c.
          IsQuiet-if (ltb 0 c.try_times) (act ok_action return) (act (fail_action none) return) tt
            tt),
      tt,
    ),
  );
  checkers = tt;
  retrying = tt;
  failing = tt;
}

do_item_ends_example :
    ((do_item never retrying_spider 1 3).1 ≡ true)
    × (finishes (do_item never retrying_spider 1 3).0.trace ≡ 1)
do_item_ends_example =
    do_item_ends never retrying_spider retrying_spider-IsQuietSpider 0 3 (λ n. refl)

abbrev from_file : Settings
from_file = record {
  worker_num = pos 4;
  back_log = pos 0;
  max_retry_times = pos 2;
  delay = pos 0;
  random_delay = pos 0;
}

abbrev from_code : Settings
from_code = record {
  worker_num = pos 2;
  back_log = pos 0;
  max_retry_times = pos 5;
  delay = pos 10;
  random_delay = pos 0;
}

-- The request is closed although the first attempt failed, and the task came to its end.
retrying_spider_runs : (do_item never retrying_spider 5 3).1 ≡ true
unfolding do_item run_script pre_check new_request do_retry do_chain next_from fail set_ok
retrying_spider_runs = refl
