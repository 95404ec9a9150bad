-- ===== src/Container/Cleanup.antt =====
-- infra/container/containerCleanup.job.ts: the sweeps that stop and remove containers. The Docker
-- client is an argument that answers each call. A sweep handles its containers one after another;
-- the source handles up to five at a time, each in steps that touch its own row only. `clock` is the
-- time of the writes, and `claim` gives the claim id that a sweep draws for a container.
pub mod Sweep
pub mod Purge
pub mod Tests
use agynio.Prelude.{
  ◌&&◌, ◌&&◌, ℕ, ◌+◌, ◌-◌, ◌*◌, String, Bool, true, false, not, ◌||◌, Option, none, some, List, [],
  ◌∷◌, ltb, ◌==◌, if◌then◌else◌, get_or,
}
use agynio.Prelude.Int.{ℤ, pos, negsuc}
use agynio.Prelude.Text.{codes, same_text, to_lower, parse_int}
use agynio.Container.{Row, Table}
use agynio.Container.Registry.{
  is_running, claim_for_termination, mark_stopped, record_termination_failure, get_expired,
  delete_historical, list_by_thread,
}

-- The answer of a Docker call: done, or an error with its status code, if it has one, and message.
pub data Reply : Type 0 where
  done : Reply
  fails : Option ℕ → String → Reply

pub record Docker : Type 0 where
  pub stop_container : String → ℕ → Reply
  pub remove_container : String → Bool → Bool → Reply

abbrev is_status : Option ℕ → ℕ → Bool
is_status none n = false
is_status (some code) n = code == n

-- The error that a call raises, if it is none of those that mean the work is done already.
abbrev stop_error : Reply → Option String
stop_error done = none
stop_error (fails code message) =
    if is_status code 304 || is_status code 404 || is_status code 409 then none else some message

abbrev remove_error : Reply → Option String
remove_error done = none
remove_error (fails code message) =
    if is_status code 404 || is_status code 409 then none else some message

-- `none` once the container is gone, or the message of the error.
pub stop_and_remove : Docker → String → ℕ → Bool → Option Bool → Option String
stop_and_remove docker id grace_seconds force remove_volumes =
    elim (stop_error (docker.stop_container id grace_seconds)) [
      | some message ↦ some message
      | none ↦ remove_error (docker.remove_container id force (get_or remove_volumes false))
    ]

finish : String → String → ℕ → Option String → Table → Table
finish id reason clock none t = mark_stopped id reason clock t
finish id reason clock (some message) t = record_termination_failure id message clock t

pub sweep_one : Docker → (String → String) → ℕ → Row → Table → Table
unfolding finish
sweep_one docker claim clock doc t =
    let id = doc.container_id in
    let error = stop_and_remove docker id 10 true none in
    if is_running doc
    then (let (won, t') = claim_for_termination id (claim id) clock t in
        if won then finish id "ttl_expired" clock error t' else t')
    else finish id "ttl_expired" clock error t

pub sweep_each : Docker → (String → String) → ℕ → List Row → Table → Table
sweep_each docker claim clock [] t = t
sweep_each docker claim clock (doc ∷ docs) t =
    sweep_each docker claim clock docs (sweep_one docker claim clock doc t)

pub record Settings : Type 0 where
  pub enabled : Bool
  pub retention_days : ℕ

-- The constructor, from the two environment variables.
settings : Option String → Option String → Settings
settings enabled retention = record {
  enabled = elim enabled [ none ↦ true | some s ↦ same_text (to_lower (codes s)) (codes "true") ];
  retention_days = elim retention [
    | none ↦ 14
    | some s ↦ elim (parse_int (codes s)) [
      | none ↦ 14
      | some n ↦ elim n [ pos days ↦ days | negsuc days ↦ 14 ]
    ]
  ];
}

-- The cutoff stops at 0, before every stored time, as a negative date would. A deletion that fails is
-- logged.
pub purge_historical_records : Settings → ℕ → Bool → Table → Table
purge_historical_records c now purge_fails t =
    if ltb 0 c.retention_days && not purge_fails
    then (delete_historical (now - c.retention_days * (24 * 60 * 60 * 1000)) t).1
    else t

-- `purge_fails` says whether the purge does.
pub sweep : Settings → Docker → (String → String) → ℕ → ℕ → Bool → Table → Table
unfolding purge_historical_records sweep_each
sweep c docker claim clock now purge_fails t =
    purge_historical_records c now purge_fails (sweep_each docker claim clock (get_expired now t) t)

pub record SweepSelectiveOptions : Type 0 where
  pub grace_seconds : ℕ
  pub force : Bool
  pub delete_ephemeral : Bool

selective_each : Docker → SweepSelectiveOptions → ℕ → List Row → Table → Table
unfolding finish
selective_each docker opts clock [] t = t
selective_each docker opts clock (r ∷ rs) t = selective_each docker opts clock rs (
    finish r.container_id "thread_closed" clock
      (stop_and_remove docker r.container_id opts.grace_seconds opts.force
        (some opts.delete_ephemeral))
      t)

pub sweep_selective : Docker → String → SweepSelectiveOptions → ℕ → Table → Table
unfolding selective_each
sweep_selective docker thread_id opts clock t =
    selective_each docker opts clock (list_by_thread thread_id t) t
