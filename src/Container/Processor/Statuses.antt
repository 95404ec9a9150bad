-- ===== src/Container/Processor/Statuses.antt =====
-- The moves of a container's status that Docker events can make.
use agynio.Prelude.{ℕ, String, ◌≡◌, refl, ◌≢◌, ◌⊎◌, inl, inr, Option, some, get_or}
use agynio.Container.{
  Bool, ContainerStatus, running, stopped, terminating, failed, Row, EventType, create, start, stop,
  die, kill, destroy, restart, oom, health_status,
}
use agynio.Container.Reason.{die_status, die_status-cases, Reason, status_for_event}
use agynio.Container.Processor.{
  DockerEvent, State, Faults, resolve_event_type, new_row, handle, guarded, can_transition,
  applied_status,
}
use agynio.Container.Processor.Rows.{Distinct, Pointwise, handle-Pointwise}

-- The moves, event by event: start-ups run a container in any state; `stop` stops it unless it has
-- failed; `kill` marks it only while it runs or is terminating already; `oom` fails it; `die` stops
-- or fails it.
pub data Moves : EventType → ContainerStatus → ContainerStatus → Type 0 where
  stays : {t : EventType} {s : ContainerStatus} → Moves t s s
  creates : {s : ContainerStatus} → Moves create s running
  starts : {s : ContainerStatus} → Moves start s running
  restarts : {s : ContainerStatus} → Moves restart s running
  stops : {s : ContainerStatus} → s ≢ failed → Moves stop s stopped
  kills : Moves kill running terminating
  ooms : {s : ContainerStatus} → Moves oom s failed
  exits : {s : ContainerStatus} → Moves die s stopped
  crashes : {s : ContainerStatus} → Moves die s failed

die-Moves :
    (s n : ContainerStatus)
    → (n ≡ stopped) ⊎ (n ≡ failed)
    → Moves die s (get_or (guarded die s n) s)
unfolding can_transition
die-Moves running n (inl e) = rw e exits
die-Moves stopped n (inl e) = rw e exits
die-Moves terminating n (inl e) = rw e exits
die-Moves failed n (inl e) = rw e exits
die-Moves s n (inr e) = rw e crashes

applied_status-Moves :
    (t : EventType) (s : ContainerStatus) (reason : Reason)
    → Moves t s (get_or (applied_status t reason s) s)
unfolding applied_status status_for_event
applied_status-Moves create s reason = creates
applied_status-Moves start s reason = starts
applied_status-Moves restart s reason = restarts
applied_status-Moves stop running reason = stops (λ e. cc)
applied_status-Moves stop stopped reason = stays
applied_status-Moves stop terminating reason = stops (λ e. cc)
applied_status-Moves stop failed reason = stays
applied_status-Moves kill running reason = kills
applied_status-Moves kill stopped reason = stays
applied_status-Moves kill terminating reason = stays
applied_status-Moves kill failed reason = stays
applied_status-Moves oom s reason = ooms
applied_status-Moves die s reason = die-Moves s (die_status reason) (die_status-cases reason)
applied_status-Moves destroy s reason = stays
applied_status-Moves health_status s reason = stays

-- What an event of a type may do to a row: nothing, or one of the moves above.
abbrev pub Judged : Option EventType → Row → Row → Type 0
Judged o r r' = (r' ≡ r) ⊎ ((t : EventType) × (o ≡ some t) × Moves t r.status r'.status)

-- For every event, with any database calls failing, over a table with distinct ids: a row that
-- changes at all changes its status along one of the moves of the event's type. So a stopped or
-- failed container is never marked terminating, and `stop` never hides a failure.
pub handle-Judged :
    (validate_uuid : String → Bool) (e : DockerEvent) (now : ℕ) (faults : Faults) (s : State)
    → Distinct s.table
    → Pointwise (Judged (resolve_event_type e)) s.table (handle validate_uuid e now faults s).table
unfolding new_row
handle-Judged validate_uuid e now faults s distinct =
    handle-Pointwise validate_uuid (Judged (resolve_event_type e)) (λ r. inl refl) e now faults s
      distinct
      λ t d reason row known fresh. inr (t, known, applied_status-Moves t row.status reason)
