-- ===== src/Container/Processor.antt =====
-- infra/container/containerEvent.processor.ts: what a Docker event does to the stored containers.
-- The queue handles one event at a time; between the read and the writes of one event no other
-- service changes the tables. `validate_uuid` is the one of the package `uuid`, and `Faults` says
-- which database calls reject. An action or status named like a field that every JavaScript object
-- inherits (`constructor`, `__proto__`) is outside the model.
pub mod Events
pub mod Updates
pub mod Rows
pub mod Monotone
pub mod Statuses
pub mod Oom
mod Tests
unfoldable pub use Events.*
unfoldable pub use Updates.*
use agynio.Prelude.{
  ℕ, ◌+◌, ◌*◌, ◌/◌, String, Bool, true, false, not, ◌&&◌, ◌||◌, Option, none, some, List, [], ◌∷◌,
  ◌++◌, ltb, leb, ◌==◌, str_eq, if◌then◌else◌, find, or_else, is_some, get_or, truthy, Assoc,
  lookup, insert, remove,
}
use agynio.Prelude.Int.{ℤ}
use agynio.Prelude.Text.{codes, same_text, trim, to_lower, parse_int, before, between}
use agynio.Container.{
  ContainerStatus, running, stopped, terminating, failed, HealthStatus, healthy, unhealthy,
  starting, EventType, create, start, stop, die, kill, destroy, restart, oom, health_status,
  Metadata, Row, Table, update_where,
}
use agynio.Container.Reason.{
  Reason, reason_text, ReasonContext, map_container_event_reason, status_for_event,
}

module _ (validate_uuid : String → Bool) where
  valid : Option String → Option String
  valid o = elim (truthy o) [ none ↦ none | some s ↦ if validate_uuid s then some s else none ]

  resolve_thread_id : Option String → Assoc String → Option String
  unfolding valid
  resolve_thread_id stored attrs =
      or_else (valid stored) (valid (lookup "hautech.ai/thread_id" attrs))

  reason_of_event : DockerEvent → EventType → String → ℕ → Assoc ℕ → Reason
  unfolding parse_exit_code parse_signal parse_health_status has_recent_oom
  reason_of_event e t d time last_oom = map_container_event_reason (record {
    event_type = t;
    exit_code = parse_exit_code e.attributes;
    signal = parse_signal e.attributes;
    had_recent_oom = has_recent_oom last_oom d time;
    health = elim t [ health_status ↦ parse_health_status e.attributes e | _ ↦ none ];
  })

  stored_event : DockerEvent → EventType → Row → ℕ → Reason → StoredEvent
  unfolding parse_exit_code parse_signal parse_health_status build_message
  stored_event e t row time reason =
      let exit_code = parse_exit_code e.attributes in
      let signal = parse_signal e.attributes in
      let health : Option HealthStatus = elim t [
        | health_status ↦ parse_health_status e.attributes e
        | _ ↦ none
      ] in
      record {
        container_db_id = row.id;
        event_type = t;
        exit_code = exit_code;
        signal = signal;
        reason = reason;
        message = build_message e exit_code signal health;
        created_at = time;
        health = health;
      }

  -- The row as the update leaves it.
  pub new_row : DockerEvent → EventType → String → ℕ → Reason → Row → Row
  unfolding applied_status termination_update new_metadata resolve_thread_id parse_health_status
      parse_auto_removed
  new_row e t d time reason row =
      let applied = applied_status t reason row.status in
      let health : Option HealthStatus = elim t [
        | health_status ↦ parse_health_status e.attributes e
        | _ ↦ none
      ] in
      record row {
        status = get_or applied row.status;
        termination_reason =
            get_or (termination_update t reason (is_some applied)) row.termination_reason;
        docker_container_id = d;
        thread_id = or_else (resolve_thread_id row.thread_id e.attributes) row.thread_id;
        metadata = new_metadata t (parse_auto_removed e.attributes) health time row.metadata;
      }

  -- `Object.keys(updateData).length > 0`
  has_update : DockerEvent → EventType → String → ℕ → Reason → Row → Bool
  unfolding applied_status termination_update metadata_changed resolve_thread_id parse_health_status
      parse_auto_removed
  has_update e t d time reason row =
      let applied = applied_status t reason row.status in
      let health : Option HealthStatus = elim t [
        | health_status ↦ parse_health_status e.attributes e
        | _ ↦ none
      ] in
      is_some applied
      || is_some (termination_update t reason (is_some applied))
      || not (str_eq row.docker_container_id d)
      || elim (resolve_thread_id row.thread_id e.attributes) [
        | none ↦ false
        | some thread ↦ not (is_thread row.thread_id thread)
      ]
      || metadata_changed t (parse_auto_removed e.attributes) health time row.metadata

  -- After the event is stored: a stale event changes nothing more.
  apply_event : DockerEvent → EventType → String → ℕ → ℕ → Faults → Reason → Row → State → State
  apply_event e t d time now faults reason row s = if is_stale row time then s else record s {
    last_oom = remember_oom t d time s.last_oom;
    table =
        if has_update e t d time reason row && not faults.update_fails
        then update_where (λ (r : Row). r.id == row.id) now (λ r. new_row e t d time reason r)
            s.table
        else s.table;
  }

  handle_known : DockerEvent → EventType → String → ℕ → ℕ → Faults → Row → State → State
  handle_known e t d time now faults row s0 =
      let s = record s0 { missing_startup_log = remove d s0.missing_startup_log } in
      let reason = reason_of_event e t d time s.last_oom in
      if faults.create_fails
      then s
      else apply_event e t d time now faults reason row
          (record s { events = s.events ++ stored_event e t row time reason ∷ [] })

  handle_event : DockerEvent → EventType → String → ℕ → Faults → State → State
  handle_event e t d now faults s =
      let time = event_timestamp_ms e now in
      if faults.find_fails then s else elim (find_first d s.table) [
        | none ↦ handle_missing t d time now s
        | some row ↦ handle_known e t d time now faults row s
      ]

  -- `handle`, with `enqueue`, which logs a rejection and goes on.
  pub handle : DockerEvent → ℕ → Faults → State → State
  handle e now faults s = if is_foreign e then s else elim (resolve_event_type e) [
    | none ↦ s
    | some t ↦ elim (docker_id e) [ none ↦ s | some d ↦ handle_event e t d now faults s ]
  ]

  pub handle_all : List (DockerEvent × ℕ × Faults) → State → State
  handle_all [] s = s
  handle_all ((e, now, faults) ∷ rest) s = handle_all rest (handle e now faults s)
