-- ===== src/Container/Processor/Oom.antt =====
-- An exit with code 137 is blamed on the memory limit when an `oom` event of the container came at
-- most 15 seconds earlier, and on SIGKILL otherwise.
use agynio.Prelude.{
  Bool, ℕ, ◌+◌, String, ◌≡◌, false, some, [], ◌∷◌, ◌++◌, arith, leb, eq_iff, if◌then◌else◌, lookup,
  lookup-insert, Option-cases, Bool-cases, inl, inr,
}
use agynio.Prelude.Int.{pos}
use agynio.Container.{Bool, Row, EventType, oom, die}
use agynio.Container.Reason.{Reason, oom_killed, sigkill, map_container_event_reason}
use agynio.Container.Processor.{
  DockerEvent, State, Faults, StoredEvent, is_foreign, resolve_event_type, docker_id, find_first,
  event_timestamp_ms, is_stale, has_recent_oom, parse_exit_code, remember_oom, reason_of_event,
  stored_event, apply_event, handle_missing, handle_known, handle_event, handle, handle_all,
}

-- The event is a container's, of type `t`, about the container `d`, and the lookup of `d` works.
pub record Reaches (e : DockerEvent) (t : EventType) (d : String) (faults : Faults) : Type 0 where
  pub container : is_foreign e ≡ false
  pub kind : resolve_event_type e ≡ some t
  pub named : docker_id e ≡ some d
  pub read : faults.find_fails ≡ false

module _ (validate_uuid : String → Bool) (e : DockerEvent) (d : String) (now : ℕ) (faults : Faults)
    (s : State) where
  handle-reached :
      (t : EventType)
      → Reaches e t d faults
      → handle validate_uuid e now faults s ≡ handle_event validate_uuid e t d now faults s
  unfolding handle
  handle-reached t h = rw (h.container, h.kind, h.named)

  -- An `oom` event is remembered under its time, whether its container is registered or not, unless
  -- the row has seen a later event or the event could not be stored.
  lookup-last_oom :
      Reaches e oom d faults
      → ((row : Row)
          → find_first d s.table ≡ some row
          → (faults.create_fails ≡ false) × (is_stale row (event_timestamp_ms e now) ≡ false))
      → lookup d (handle validate_uuid e now faults s).last_oom ≡ some (event_timestamp_ms e now)
  unfolding handle_event handle_missing handle_known apply_event remember_oom
  lookup-last_oom h kept = rw (handle-reached oom h) (elim (Option-cases (find_first d s.table)) [
    | inl absent ↦
        simp (h.read, absent)
          (ground (arith, lookup-insert d d (event_timestamp_ms e now) s.last_oom, eq_iff d d))
    | inr (row, found) ↦
        let (stored, fresh) = kept row found in
        simp (h.read, found, stored, fresh)
          (ground (arith, lookup-insert d d (event_timestamp_ms e now) s.last_oom, eq_iff d d))
  ])

  events-apply_event :
      (t : EventType) (time : ℕ) (reason : Reason) (row : Row) (s' : State)
      → (apply_event validate_uuid e t d time now faults reason row s').events ≡ s'.events
  unfolding apply_event
  events-apply_event t time reason row s' = elim (Bool-cases (is_stale row time)) [
    | inl stale ↦ rw stale
    | inr fresh ↦ rw fresh
  ]

  events-handle_known :
      (t : EventType) (row : Row)
      → Reaches e t d faults
      → faults.create_fails ≡ false
      → find_first d s.table ≡ some row
      → (handle validate_uuid e now faults s).events
        ≡ s.events
          ++ stored_event validate_uuid e t row
              (event_timestamp_ms e now)
              (reason_of_event validate_uuid e t d (event_timestamp_ms e now) s.last_oom)
            ∷ []
  unfolding handle_event handle_known
  events-handle_known t row h stored found =
      rw (handle-reached t h)
        (simp (h.read, found, stored) (events-apply_event t (event_timestamp_ms e now) _ row _))

  die_reason-137 :
      (row : Row) (time : ℕ)
      → parse_exit_code e.attributes ≡ some (pos 137)
      → (stored_event validate_uuid e die row time
          (reason_of_event validate_uuid e die d time s.last_oom)).reason
        ≡ (if has_recent_oom s.last_oom d time then oom_killed else sigkill)
  unfolding reason_of_event stored_event map_container_event_reason
  die_reason-137 row time code = simp code

-- For two events in a row about one container: first an `oom` event that is kept (its container is
-- not registered yet, or its row has seen no later event and the event is stored), then a `die` event
-- with exit code 137 that is stored. The reason stored for the second is `OOMKilled` if its time is at
-- most 15000 ms after that of the first, and `SIGKILL` otherwise.
pub die-oom_window :
    (validate_uuid : String → Bool) (e e' : DockerEvent) (d : String) (now now' : ℕ)
    (faults faults' : Faults) (s : State) (row' : Row)
    → Reaches e oom d faults
    → ((row : Row)
        → find_first d s.table ≡ some row
        → (faults.create_fails ≡ false) × (is_stale row (event_timestamp_ms e now) ≡ false))
    → Reaches e' die d faults'
    → faults'.create_fails ≡ false
    → find_first d (handle validate_uuid e now faults s).table ≡ some row'
    → parse_exit_code e'.attributes ≡ some (pos 137)
    → (ev : StoredEvent) × ((handle_all validate_uuid
          ((e, now, faults) ∷ (e', now', faults') ∷ [])
          s).events
        ≡ (handle validate_uuid e now faults s).events ++ ev ∷ [])
      × (ev.reason ≡ (
          if leb (event_timestamp_ms e' now') (event_timestamp_ms e now + 15000)
          then oom_killed
          else sigkill))
unfolding handle_all has_recent_oom
die-oom_window validate_uuid e e' d now now' faults faults' s row' h kept h' stored found code =
    let s' = handle validate_uuid e now faults s in
    let time' = event_timestamp_ms e' now' in
    let last = lookup-last_oom validate_uuid e d now faults s h kept in
    let reason = die_reason-137 validate_uuid e' d now' faults' s' row' time' code in
    (
      stored_event validate_uuid e' die row' time'
          (reason_of_event validate_uuid e' die d time' s'.last_oom),
      events-handle_known validate_uuid e' d now' faults' s' die row' h' stored found,
      ground (arith, reason, last),
    )
