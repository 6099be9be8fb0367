-- ===== src/Spider/Factory/Setup.antt =====
-- Factory.setupFromConfig: the configuration of a factory, joined with that of the file.
use openscraper_framework.Prelude.{ℕ, suc, Bool, true, false, zero, ◌≡◌, arith, if◌then◌else◌}
use openscraper_framework.Prelude.Int.{ℤ, pos, ltb_ℤ, ◌≤ℤ◌, ◌<ℤ◌}

-- The fields of a Factory, and of dot.SpiderConfig, that are numbers; a duration counts nanoseconds.
pub record Settings : Type 0 where
  pub worker_num : ℤ
  pub back_log : ℤ
  pub max_retry_times : ℤ
  pub delay : ℤ
  pub random_delay : ℤ

-- `if cfg.X > f.X { f.X = cfg.X }`
abbrev larger : ℤ → ℤ → ℤ
larger cfg own = if ltb_ℤ own cfg then cfg else own

-- `if f.X == 0 { f.X = … }`
abbrev or_default : ℤ → ℤ → ℤ
or_default (pos zero) default = default
or_default v default = v

pub setup_from_config : Bool → Settings → Settings → Settings
setup_from_config debug cfg f =
    let g : Settings = record {
      worker_num = or_default (larger cfg.worker_num f.worker_num) (pos 1);
      back_log = or_default (larger cfg.back_log f.back_log) (pos 3000);
      max_retry_times = larger cfg.max_retry_times f.max_retry_times;
      delay = larger cfg.delay f.delay;
      random_delay = larger cfg.random_delay f.random_delay;
    } in
    if debug
    then record g {
      max_retry_times = cfg.max_retry_times;
      worker_num = cfg.worker_num;
      delay = cfg.delay;
    }
    else g

-- Without debugging, for a factory with non-negative numbers of workers and slots, these numbers
-- come out positive, and neither they nor the number of retries fall below the factory's own or the
-- file's.
pub setup_from_config-bounds :
    (cfg f : Settings)
    → pos 0 ≤ℤ f.worker_num
    → pos 0 ≤ℤ f.back_log
    → let g = setup_from_config false cfg f in
      (cfg.worker_num ≤ℤ g.worker_num)
      × (f.worker_num ≤ℤ g.worker_num)
      × (pos 0 <ℤ g.worker_num)
      × (cfg.back_log ≤ℤ g.back_log)
      × (f.back_log ≤ℤ g.back_log)
      × (pos 0 <ℤ g.back_log)
      × (cfg.max_retry_times ≤ℤ g.max_retry_times)
      × (f.max_retry_times ≤ℤ g.max_retry_times)
unfolding setup_from_config
setup_from_config-bounds cfg f w b = (
  ground arith,
  ground arith,
  ground arith,
  ground arith,
  ground arith,
  ground arith,
  ground arith,
  ground arith,
)

larger_again : (cfg own : ℤ) → larger cfg (larger cfg own) ≡ larger cfg own
larger_again cfg own = ground arith

or_default_again :
    (cfg own : ℤ) (d : ℕ)
    → or_default (larger cfg (or_default (larger cfg own) (pos (suc d)))) (pos (suc d))
      ≡ or_default (larger cfg own) (pos (suc d))
or_default_again cfg own d = ground arith

-- Setting a factory up twice from one configuration is setting it up once, with debugging too.
pub setup_from_config-idempotent :
    (debug : Bool) (cfg f : Settings)
    → setup_from_config debug cfg (setup_from_config debug cfg f) ≡ setup_from_config debug cfg f
unfolding setup_from_config
setup_from_config-idempotent false cfg f = rw (
  larger_again cfg.max_retry_times f.max_retry_times,
  larger_again cfg.delay f.delay,
  larger_again cfg.random_delay f.random_delay,
  or_default_again cfg.worker_num f.worker_num 0,
  or_default_again cfg.back_log f.back_log 2999,
)
setup_from_config-idempotent true cfg f =
    rw (larger_again cfg.random_delay f.random_delay, or_default_again cfg.back_log f.back_log 2999)
