-- ===== src/Runner.antt =====
-- infra/container/dockerRunnerStatus.service.ts and dockerRunnerConnectivity.monitor.ts: the probes of
-- the Docker runner and the status that they leave. `E` is the form in which the status keeps an error.
-- The timer is the time at which it fires, and is gone once it has fired.
pub mod Consistent
pub mod Delays
pub mod Tests
use agynio.Prelude.{
  ℕ, ◌+◌, ◌-◌, ◌*◌, ◌^◌, min, String, Bool, true, false, not, ◌&&◌, ◌||◌, Option, none, some, ltb,
  leb, if◌then◌else◌,
}

pub data RunnerStatus : Type 0 where
  unknown up down : RunnerStatus

pub record RunnerSnapshot {ℓ} (E : Type ℓ) : Type ℓ where
  pub status : RunnerStatus
  pub optional : Bool
  pub endpoint : Option String
  pub last_checked_at : Option ℕ
  pub last_success_at : Option ℕ
  pub last_failure_at : Option ℕ
  pub last_duration_ms : Option ℕ
  pub consecutive_failures : ℕ
  pub next_retry_at : Option ℕ
  pub error : Option E

pub record RunnerConfig : Type 0 where
  pub optional : Bool
  pub endpoint : String
  pub probe_interval_ms : ℕ
  pub max_retries : ℕ
  pub base_delay_ms : ℕ
  pub max_delay_ms : ℕ
  pub jitter_ms : ℕ

pub record Monitor {ℓ} (E : Type ℓ) : Type ℓ where
  pub timer : Option ℕ
  pub stopped : Bool
  pub retries_exhausted : Bool
  pub failure_count : ℕ
  pub snapshot : RunnerSnapshot E

-- A check that ends at `now`: its start, its error if it fails, and the rounded draw of the jitter.
pub record Check {ℓ} (E : Type ℓ) : Type ℓ where
  pub started_at : ℕ
  pub now : ℕ
  pub failure : Option E
  pub draw : ℕ

-- `failure_count` counts the failure that is being handled.
pub calculate_retry_delay : RunnerConfig → ℕ → ℕ → ℕ
calculate_retry_delay c failure_count draw =
    min (c.base_delay_ms * 2 ^ (failure_count - 1)) c.max_delay_ms
    + (if ltb 0 c.jitter_ms then draw else 0)

abbrev pub is_exhausted : RunnerConfig → ℕ → Bool
is_exhausted c failures = ltb 0 c.max_retries && leb c.max_retries failures

module _ {ℓ} {E : Type ℓ} where
  pub initial_snapshot : RunnerConfig → RunnerSnapshot E
  initial_snapshot c = record {
    status = unknown;
    optional = c.optional;
    endpoint = some c.endpoint;
    last_checked_at = none;
    last_success_at = none;
    last_failure_at = none;
    last_duration_ms = none;
    consecutive_failures = 0;
    next_retry_at = none;
    error = none;
  }

  pub set_endpoint : String → RunnerSnapshot E → RunnerSnapshot E
  set_endpoint endpoint s = record s { endpoint = some endpoint }

  pub set_optional : Bool → RunnerSnapshot E → RunnerSnapshot E
  set_optional optional s = record s { optional = optional }

  pub mark_unknown : RunnerSnapshot E → RunnerSnapshot E
  mark_unknown s = record s { status = unknown; next_retry_at = none }

  pub mark_up : ℕ → ℕ → ℕ → RunnerSnapshot E → RunnerSnapshot E
  mark_up checked_at duration_ms now s = record s {
    status = up;
    last_checked_at = some checked_at;
    last_success_at = some now;
    last_duration_ms = some duration_ms;
    consecutive_failures = 0;
    next_retry_at = none;
    error = none;
  }

  pub mark_down : ℕ → E → Option ℕ → ℕ → RunnerSnapshot E → RunnerSnapshot E
  mark_down checked_at error next_retry_at now s = record s {
    status = down;
    last_checked_at = some checked_at;
    last_failure_at = some now;
    consecutive_failures = s.consecutive_failures + 1;
    next_retry_at = next_retry_at;
    error = some error;
  }

  pub schedule_probe : ℕ → ℕ → Monitor E → Monitor E
  schedule_probe delay_ms now m =
      if m.stopped || m.retries_exhausted then m else record m { timer = some (now + delay_ms) }

  pub probe_ok : RunnerConfig → Check E → Monitor E → Monitor E
  unfolding schedule_probe mark_up
  probe_ok c k m = schedule_probe c.probe_interval_ms k.now (record m {
    failure_count = 0;
    retries_exhausted = false;
    snapshot = mark_up k.started_at (k.now - k.started_at) k.now m.snapshot;
  })

  pub probe_failed : RunnerConfig → Check E → E → Monitor E → Monitor E
  unfolding schedule_probe mark_down
  probe_failed c k error m =
      let failures = m.failure_count + 1 in
      let delay = calculate_retry_delay c failures k.draw in
      let counted = record m { failure_count = failures } in
      if is_exhausted c failures
      then record counted {
        retries_exhausted = true;
        snapshot = mark_down k.started_at error none k.now m.snapshot;
      }
      else schedule_probe delay k.now (record counted {
        snapshot = mark_down k.started_at error (some (k.now + delay)) k.now m.snapshot;
      })

  abbrev pub probe_checked : RunnerConfig → Check E → Monitor E → Option E → Monitor E
  probe_checked c k m none = probe_ok c k m
  probe_checked c k m (some error) = probe_failed c k error m

  -- The timer fires, and `runProbe` checks the runner.
  pub run_probe : RunnerConfig → Check E → Monitor E → Monitor E
  run_probe c k m =
      if m.stopped || m.retries_exhausted
      then record m { timer = none }
      else probe_checked c k (record m { timer = none }) k.failure

  pub on_module_destroy : Monitor E → Monitor E
  on_module_destroy m = record m { stopped = true; timer = none }

  pub fresh : RunnerConfig → Monitor E
  unfolding initial_snapshot set_endpoint set_optional
  fresh c = record {
    timer = none;
    stopped = false;
    retries_exhausted = false;
    failure_count = 0;
    snapshot = set_optional c.optional (set_endpoint c.endpoint (initial_snapshot c));
  }

  -- `verifyRequiredRunner`, which throws if the check fails, and the probe that follows it.
  pub verify_required : RunnerConfig → Check E → Monitor E → Option E → Bool × Monitor E
  unfolding mark_up mark_down
  verify_required c k m none = (
    true,
    schedule_probe c.probe_interval_ms k.now (record m {
      failure_count = 0;
      retries_exhausted = false;
      snapshot = mark_up k.started_at (k.now - k.started_at) k.now m.snapshot;
    }),
  )
  verify_required c k m (some error) =
      (false, record m { snapshot = mark_down k.started_at error none k.now m.snapshot })

  -- `onModuleInit`: whether it returns, and the monitor. Only a required runner is checked first.
  pub on_module_init : RunnerConfig → Check E → Bool × Monitor E
  on_module_init c k =
      if c.optional
      then (true, schedule_probe 0 k.now (fresh c))
      else verify_required c k (fresh c) k.failure
