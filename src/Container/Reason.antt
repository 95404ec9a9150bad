-- ===== src/Container/Reason.antt =====
-- infra/container/containerEvent.reason.ts: why a container event happened, and the status that it
-- asks for.
use agynio.Prelude.{
  refl, inr, inr, inl, inl, ◌⊎◌, ◌⊎◌, ◌≡◌, ◌==◌, ℕ, String, Bool, false, ◌||◌, Option, none, some,
  List, if◌then◌else◌, get_or, truthy,
}
use agynio.Prelude.Int.{ℤ, pos, negsuc}
use agynio.Prelude.Text.{codes, same_text, trim, to_upper}
use agynio.Container.{
  ContainerStatus, running, stopped, terminating, failed, HealthStatus, healthy, unhealthy,
  starting, EventType, create, start, stop, die, kill, destroy, restart, oom, health_status,
}

pub data Reason : Type 0 where
  container_created container_started container_restarted container_stopped : Reason
  container_destroyed : Reason
  health_status_healthy health_status_unhealthy health_status_starting : Reason
  health_status_unknown : Reason
  oom_killed sigterm sigkill sigint exited_normally exited_with_error : Reason

-- The text of a reason, as it is stored.
abbrev pub reason_text : Reason → String
reason_text container_created = "ContainerCreated"
reason_text container_started = "ContainerStarted"
reason_text container_restarted = "ContainerRestarted"
reason_text container_stopped = "ContainerStopped"
reason_text container_destroyed = "ContainerDestroyed"
reason_text health_status_healthy = "HealthStatusHealthy"
reason_text health_status_unhealthy = "HealthStatusUnhealthy"
reason_text health_status_starting = "HealthStatusStarting"
reason_text health_status_unknown = "HealthStatusUnknown"
reason_text oom_killed = "OOMKilled"
reason_text sigterm = "SIGTERM"
reason_text sigkill = "SIGKILL"
reason_text sigint = "SIGINT"
reason_text exited_normally = "ExitedNormally"
reason_text exited_with_error = "ExitedWithError"

pub record ReasonContext : Type 0 where
  pub event_type : EventType
  pub exit_code : Option ℤ
  pub signal : Option String
  pub had_recent_oom : Bool
  pub health : Option HealthStatus

signal_to_reason : List ℕ → Option Reason
signal_to_reason s =
    if same_text s (codes "SIGTERM") || same_text s (codes "TERM") || same_text s (codes "15")
    then some sigterm
    else if same_text s (codes "SIGKILL") || same_text s (codes "KILL") || same_text s (codes "9")
    then some sigkill
    else if same_text s (codes "SIGINT") || same_text s (codes "INT") || same_text s (codes "2")
    then some sigint
    else none

-- An empty text is no signal, and neither is one that is empty once trimmed: no key is empty.
normalize_signal : Option String → Option (List ℕ)
normalize_signal signal = elim (truthy signal) [
  | none ↦ none
  | some s ↦ some (to_upper (trim (codes s)))
]

health_reason : Option HealthStatus → Reason
health_reason (some healthy) = health_status_healthy
health_reason (some unhealthy) = health_status_unhealthy
health_reason (some starting) = health_status_starting
health_reason none = health_status_unknown

kill_reason : Option String → Reason
unfolding signal_to_reason normalize_signal
kill_reason signal = elim (normalize_signal signal) [
  | none ↦ exited_with_error
  | some s ↦ get_or (signal_to_reason s) exited_with_error
]

abbrev is_code : Option ℤ → ℕ → Bool
is_code none n = false
is_code (some (negsuc m)) n = false
is_code (some (pos m)) n = m == n

die_reason : Option ℤ → Bool → Reason
die_reason code had_recent_oom =
    if is_code code 0
    then exited_normally
    else if is_code code 137
    then (if had_recent_oom then oom_killed else sigkill)
    else if is_code code 143
    then sigterm
    else if is_code code 130
    then sigint
    else exited_with_error

reason_for : EventType → ReasonContext → Reason
unfolding health_reason
reason_for create c = container_created
reason_for start c = container_started
reason_for restart c = container_restarted
reason_for stop c = container_stopped
reason_for destroy c = container_destroyed
reason_for health_status c = health_reason c.health
reason_for oom c = oom_killed
reason_for kill c = kill_reason c.signal
reason_for die c = die_reason c.exit_code c.had_recent_oom

unfoldable pub map_container_event_reason : ReasonContext → Reason
unfolding reason_for die_reason kill_reason
map_container_event_reason c = reason_for c.event_type c

pub die_status : Reason → ContainerStatus
die_status exited_normally = stopped
die_status sigterm = stopped
die_status _ = failed

pub die_status-cases :
    (reason : Reason) → (die_status reason ≡ stopped) ⊎ (die_status reason ≡ failed)
unfolding die_status
die_status-cases exited_normally = inl refl
die_status-cases sigterm = inl refl
die_status-cases _ = inr refl

unfoldable pub status_for_event : EventType → Reason → Option ContainerStatus
status_for_event create reason = some running
status_for_event start reason = some running
status_for_event restart reason = some running
status_for_event stop reason = some stopped
status_for_event oom reason = some failed
status_for_event kill reason = some terminating
status_for_event die reason = some (die_status reason)
status_for_event destroy reason = none
status_for_event health_status reason = none
