-- ===== src/Container/Processor/Updates.antt =====
-- infra/container/containerEvent.processor.ts: the parts of the update of a row.
use agynio.Prelude.{
  ℕ, ◌+◌, String, Bool, true, false, not, ◌&&◌, ◌||◌, Option, none, some, ltb, leb, ◌==◌, str_eq,
  if◌then◌else◌, find, Assoc, lookup, insert, remove,
}
use agynio.Container.{
  ContainerStatus, running, stopped, terminating, failed, HealthStatus, healthy, unhealthy,
  starting, EventType, create, start, stop, die, kill, destroy, restart, oom, health_status,
  Metadata, Row, Table,
}
use agynio.Container.Reason.{Reason, reason_text, status_for_event}
use agynio.Container.Processor.Events.{recent_oom_window_ms, missing_startup_suppress_ms, State}

unfoldable pub has_recent_oom : Assoc ℕ → String → ℕ → Bool
has_recent_oom last_oom d time = elim (lookup d last_oom) [
  | none ↦ false
  | some last ↦ leb time (last + recent_oom_window_ms)
]

unfoldable pub is_stale : Row → ℕ → Bool
is_stale row time = elim row.metadata.last_event_at [ none ↦ false | some last ↦ ltb time last ]

-- `findFirst` by either of the two container ids.
abbrev pub find_first : String → Table → Option Row
find_first d = find λ (r : Row). str_eq r.docker_container_id d || str_eq r.container_id d

unfoldable pub is_startup : EventType → Bool
is_startup create = true
is_startup start = true
is_startup restart = true
is_startup _ = false

-- The container is not registered: an `oom` is remembered all the same.
unfoldable pub handle_missing : EventType → String → ℕ → ℕ → State → State
unfolding is_startup
handle_missing t d time now s =
    let last_oom : Assoc ℕ = elim t [ oom ↦ insert d time s.last_oom | _ ↦ s.last_oom ] in
    let noted = insert d now s.missing_startup_log in
    let log : Assoc ℕ = elim (lookup d s.missing_startup_log) [
      | none ↦ noted
      | some last ↦
          if last == 0 || leb (last + missing_startup_suppress_ms) now
          then noted
          else s.missing_startup_log
    ] in
    record s {
      last_oom = last_oom;
      missing_startup_log = if is_startup t then log else s.missing_startup_log;
    }

abbrev pub is_running : ContainerStatus → Bool
is_running running = true
is_running _ = false

abbrev pub is_terminating : ContainerStatus → Bool
is_terminating terminating = true
is_terminating _ = false

abbrev pub is_stopped : ContainerStatus → Bool
is_stopped stopped = true
is_stopped _ = false

abbrev pub is_failed : ContainerStatus → Bool
is_failed failed = true
is_failed _ = false

abbrev pub is_stop : EventType → Bool
is_stop stop = true
is_stop _ = false

-- `canTransition`, for the status that the event asks for.
unfoldable pub can_transition : EventType → ContainerStatus → ContainerStatus → Bool
can_transition t current next = not (
    is_terminating next && (not (is_running current) && not (is_terminating current))
    || is_stopped next && (is_failed current && is_stop t))

abbrev pub guarded : EventType → ContainerStatus → ContainerStatus → Option ContainerStatus
guarded t current next = if can_transition t current next then some next else none

-- The status that the update writes, if any.
unfoldable pub applied_status : EventType → Reason → ContainerStatus → Option ContainerStatus
unfolding can_transition
applied_status t reason current = elim (status_for_event t reason) [
  | none ↦ none
  | some next ↦ guarded t current next
]

-- What the update writes to `terminationReason`: nothing, null or a reason.
unfoldable pub termination_update : EventType → Reason → Bool → Option (Option String)
termination_update create reason applied = some none
termination_update start reason applied = some none
termination_update restart reason applied = some none
termination_update kill reason applied = some (some (reason_text reason))
termination_update die reason applied = some (some (reason_text reason))
termination_update oom reason applied = some (some (reason_text reason))
termination_update stop reason applied = if applied then some (some (reason_text reason)) else none
termination_update _ reason applied = none

unfoldable pub set_auto_removed : EventType → Bool → Option Bool → Option Bool
set_auto_removed destroy true old = some true
set_auto_removed _ auto_removed old = old

unfoldable pub set_health :
    EventType → Option HealthStatus → Option HealthStatus → Option HealthStatus
set_health health_status (some h) old = some h
set_health _ health old = old

unfoldable pub new_metadata : EventType → Bool → Option HealthStatus → ℕ → Metadata → Metadata
unfolding set_auto_removed set_health
new_metadata t auto_removed health time m = record m {
  last_event_at = some time;
  auto_removed = set_auto_removed t auto_removed m.auto_removed;
  health = set_health t health m.health;
}

unfoldable pub same_health : Option HealthStatus → Option HealthStatus → Bool
same_health none none = true
same_health (some healthy) (some healthy) = true
same_health (some unhealthy) (some unhealthy) = true
same_health (some starting) (some starting) = true
same_health _ _ = false

abbrev pub is_at : Option ℕ → ℕ → Bool
is_at none time = false
is_at (some last) time = last == time

abbrev pub is_true : Option Bool → Bool
is_true none = false
is_true (some b) = b

abbrev pub is_thread : Option String → String → Bool
is_thread none thread = false
is_thread (some t) thread = str_eq t thread

unfoldable pub metadata_changed : EventType → Bool → Option HealthStatus → ℕ → Metadata → Bool
unfolding set_health same_health
metadata_changed t auto_removed health time m =
    not (is_at m.last_event_at time)
    || elim t [ destroy ↦ auto_removed && not (is_true m.auto_removed) | _ ↦ false ]
    || not (same_health (set_health t health m.health) m.health)

unfoldable pub remember_oom : EventType → String → ℕ → Assoc ℕ → Assoc ℕ
remember_oom oom d time last_oom = insert d time last_oom
remember_oom die d time last_oom = remove d last_oom
remember_oom _ d time last_oom = last_oom
