-- ===== src/Container/Processor/Events.antt =====
-- infra/container/containerEvent.processor.ts: the Docker events and what is read from their fields.
use agynio.Prelude.{
  ℕ, ◌*◌, ◌/◌, String, Bool, false, not, ◌||◌, Option, none, some, List, [], ltb, if◌then◌else◌,
  or_else, truthy, Assoc, lookup,
}
use agynio.Prelude.Int.{ℤ}
use agynio.Prelude.Text.{codes, same_text, trim, to_lower, parse_int, before, between}
use agynio.Container.{
  HealthStatus, healthy, unhealthy, starting, EventType, create, start, stop, die, kill, destroy,
  restart, oom, health_status, Table,
}
use agynio.Container.Reason.{Reason}

pub record DockerEvent : Type 0 where
  pub status : Option String
  pub action : Option String
  pub kind : Option String
  pub id : Option String
  pub upper_id : Option String
  pub actor_id : Option String
  pub time : Option ℕ
  pub time_nano : Option ℕ
  pub attributes : Assoc String

-- What `buildMessage` stores; the last three are rendered with their prefix.
pub data Message : Type 0 where
  text : String → Message
  exit_code_message : ℤ → Message
  signal_message : String → Message
  health_message : HealthStatus → Message

pub record StoredEvent : Type 0 where
  pub container_db_id : ℕ
  pub event_type : EventType
  pub exit_code : Option ℤ
  pub signal : Option String
  pub reason : Reason
  pub message : Option Message
  pub created_at : ℕ
  pub health : Option HealthStatus

pub record State : Type 0 where
  pub last_oom : Assoc ℕ
  pub missing_startup_log : Assoc ℕ
  pub table : Table
  pub events : List StoredEvent

pub record Faults : Type 0 where
  pub find_fails : Bool
  pub create_fails : Bool
  pub update_fails : Bool

abbrev pub recent_oom_window_ms : ℕ
recent_oom_window_ms = 15000

abbrev pub missing_startup_suppress_ms : ℕ
missing_startup_suppress_ms = 10000

unfoldable pub action_to_event_type : List ℕ → Option EventType
action_to_event_type a =
    if same_text a (codes "create")
    then some create
    else if same_text a (codes "start")
    then some start
    else if same_text a (codes "stop")
    then some stop
    else if same_text a (codes "die")
    then some die
    else if same_text a (codes "kill")
    then some kill
    else if same_text a (codes "destroy")
    then some destroy
    else if same_text a (codes "restart")
    then some restart
    else if same_text a (codes "oom")
    then some oom
    else if same_text a (codes "health_status")
    then some health_status
    else none

abbrev pub text_or_empty : Option String → List ℕ
text_or_empty none = []
text_or_empty (some s) = codes s

-- The empty text is no key of the table, so the guards against it need no branch of their own.
unfoldable pub resolve_event_type : DockerEvent → Option EventType
unfolding action_to_event_type
resolve_event_type e =
    or_else (action_to_event_type (to_lower (text_or_empty e.action)))
      (action_to_event_type (trim (before b':' (to_lower (text_or_empty e.status)))))

unfoldable pub docker_id : DockerEvent → Option String
docker_id e = truthy (or_else e.id (or_else e.upper_id e.actor_id))

unfoldable pub is_foreign : DockerEvent → Bool
is_foreign e = elim (truthy e.kind) [
  | none ↦ false
  | some k ↦ not (same_text (to_lower (codes k)) (codes "container"))
]

unfoldable pub parse_exit_code : Assoc String → Option ℤ
parse_exit_code attrs = elim (or_else (lookup "exitCode" attrs) (lookup "ExitCode" attrs)) [
  | none ↦ none
  | some candidate ↦ parse_int (codes candidate)
]

unfoldable pub parse_signal : Assoc String → Option String
parse_signal attrs = truthy (or_else (lookup "signal" attrs) (lookup "Signal" attrs))

unfoldable pub normalize_health : Option (List ℕ) → Option HealthStatus
normalize_health none = none
normalize_health (some value) =
    let normalized = to_lower (trim value) in
    if same_text normalized (codes "healthy")
    then some healthy
    else if same_text normalized (codes "unhealthy")
    then some unhealthy
    else if same_text normalized (codes "starting")
    then some starting
    else none

abbrev pub codes_of : Option String → Option (List ℕ)
codes_of none = none
codes_of (some s) = some (codes s)

abbrev pub after_colon : Option String → Option (List ℕ)
after_colon none = none
after_colon (some s) = between b':' (codes s)

unfoldable pub parse_health_status : Assoc String → DockerEvent → Option HealthStatus
unfolding normalize_health
parse_health_status attrs e =
    or_else
      (normalize_health (
        codes_of (
          or_else (lookup "health_status" attrs)
            (or_else (lookup "Health_status" attrs) (lookup "healthStatus" attrs)))))
      (normalize_health (after_colon e.status))

unfoldable pub parse_auto_removed : Assoc String → Bool
parse_auto_removed attrs =
    elim (or_else (lookup "autoRemove" attrs) (
      or_else (lookup "AutoRemove" attrs)
        (or_else (lookup "autoremove" attrs) (lookup "auto_remove" attrs)))) [
          | none ↦ false
          | some candidate ↦
              let value = to_lower (trim (codes candidate)) in
              same_text value (codes "1")
              || same_text value (codes "true")
              || same_text value (codes "yes")
        ]

abbrev pub positive : Option ℕ → Option ℕ
positive none = none
positive (some n) = if ltb 0 n then some n else none

unfoldable pub event_timestamp_ms : DockerEvent → ℕ → ℕ
event_timestamp_ms e now = elim (positive e.time_nano) [
  | some nano ↦ nano / 1000000
  | none ↦ elim (positive e.time) [ some t ↦ t * 1000 | none ↦ now ]
]

unfoldable pub build_message :
    DockerEvent → Option ℤ → Option String → Option HealthStatus → Option Message
build_message e exit_code signal health =
    elim (or_else (truthy (lookup "error" e.attributes))
      (or_else (truthy e.status) (truthy e.action))) [
        | some s ↦ some (text s)
        | none ↦ elim exit_code [
          | some code ↦ some (exit_code_message code)
          | none ↦ elim signal [
            | some s ↦ some (signal_message s)
            | none ↦ elim health [ some h ↦ some (health_message h) | none ↦ none ]
          ]
        ]
      ]
