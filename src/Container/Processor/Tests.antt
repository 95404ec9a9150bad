-- ===== src/Container/Processor/Tests.antt =====
-- The event processor on concrete inputs.
use agynio.Prelude.{
  arith, ℕ, String, ◌≡◌, ◌≢◌, refl, Bool, true, false, some, none, List, [], ◌∷◌, ◌++◌, ◌+◌, leb,
  if◌then◌else◌,
}
use agynio.Prelude.Int.{pos}
use agynio.Container.{arith, Row, Table, Metadata, running, oom, die, failed}
use agynio.Container.Reason.{oom_killed, sigkill}
use agynio.Container.Processor.{
  DockerEvent, State, Faults, StoredEvent, resolve_event_type, event_timestamp_ms, handle,
  handle_all, find_first, is_stale, parse_exit_code,
}
use agynio.Container.Processor.Rows.{Distinct, Pointwise}
use agynio.Container.Processor.Monotone.{Advances, handle_all-Advances}
use agynio.Container.Processor.Statuses.{Judged, handle-Judged}
use agynio.Container.Processor.Oom.{Reaches, die-oom_window}

abbrev all_valid : String → Bool
all_valid s = true

abbrev no_faults : Faults
no_faults = record { find_fails = false; create_fails = false; update_fails = false }

abbrev blank : Metadata
blank = record {
  labels = [];
  platform = none;
  ttl_seconds = none;
  last_error = none;
  retry_after = none;
  termination_attempts = none;
  claim_id = none;
  mounts = [];
  auto_removed = none;
  health = none;
  last_event_at = none;
}

abbrev web : Row
web = record {
  id = 1;
  container_id = "web";
  docker_container_id = "web";
  node_id = "node";
  thread_id = none;
  image = "image";
  name = [];
  status = running;
  updated_at = 0;
  last_used_at = 0;
  kill_after_at = none;
  termination_reason = none;
  deleted_at = none;
  metadata = blank;
}

abbrev before_events : State
before_events = record { last_oom = []; missing_startup_log = []; table = web ∷ []; events = [] }

abbrev oom_event : DockerEvent
oom_event = record {
  status = none;
  action = some "OOM";
  kind = some "container";
  id = some "web";
  upper_id = none;
  actor_id = none;
  time = some 100;
  time_nano = none;
  attributes = [];
}

abbrev die_event : DockerEvent
die_event = record {
  status = some "die";
  action = none;
  kind = none;
  id = none;
  upper_id = none;
  actor_id = some "web";
  time = some 110;
  time_nano = none;
  attributes = ("exitCode", "137") ∷ [];
}

before_events-Distinct : Distinct before_events.table
before_events-Distinct = (tt, tt)

handle_all-Advances_example :
    Pointwise Advances before_events.table
      (handle_all all_valid
        ((die_event, 0, no_faults) ∷ (oom_event, 0, no_faults) ∷ [])
        before_events).table
handle_all-Advances_example =
    handle_all-Advances all_valid ((die_event, 0, no_faults) ∷ (oom_event, 0, no_faults) ∷ [])
      before_events before_events-Distinct

handle-Judged_example :
    Pointwise
      (Judged (resolve_event_type die_event))
      before_events.table
      (handle all_valid die_event 0 no_faults before_events).table
handle-Judged_example =
    handle-Judged all_valid die_event 0 no_faults before_events before_events-Distinct

-- The row as the `oom` event leaves it.
abbrev web_failed : Row
web_failed = record web {
  status = failed;
  termination_reason = some "OOMKilled";
  metadata = record blank { last_event_at = some 100000 };
}

find_first-web :
    find_first "web" (handle all_valid oom_event 0 no_faults before_events).table ≡ some web_failed
unfolding handle agynio.Container.Processor.is_foreign resolve_event_type
    agynio.Container.Processor.docker_id agynio.Container.Processor.handle_event
    agynio.Container.Processor.handle_known agynio.Container.Processor.apply_event is_stale
    agynio.Container.Processor.has_update agynio.Container.Reason.status_for_event
    agynio.Container.update_where agynio.Container.Processor.new_row agynio.Prelude.lookup
    agynio.Container.Processor.reason_of_event event_timestamp_ms
    agynio.Container.Reason.map_container_event_reason
find_first-web = refl

oom_event-Reaches : Reaches oom_event oom "web" no_faults
unfolding resolve_event_type agynio.Container.Processor.is_foreign
    agynio.Container.Processor.docker_id
oom_event-Reaches = record { container = refl; kind = refl; named = refl; read = refl }

die_event-Reaches : Reaches die_event die "web" no_faults
unfolding resolve_event_type agynio.Container.Processor.is_foreign
    agynio.Container.Processor.docker_id
die_event-Reaches = record { container = refl; kind = refl; named = refl; read = refl }

oom_event-kept :
    (row : Row)
    → find_first "web" before_events.table ≡ some row
    → (no_faults.create_fails ≡ false) × (is_stale row (event_timestamp_ms oom_event 0) ≡ false)
unfolding is_stale
oom_event-kept row found = (refl, ground arith)

die_event-code : parse_exit_code die_event.attributes ≡ some (pos 137)
unfolding parse_exit_code agynio.Prelude.lookup
die_event-code = refl

die-oom_window_example :
    (ev : StoredEvent) × ((handle_all all_valid
        ((oom_event, 0, no_faults) ∷ (die_event, 0, no_faults) ∷ [])
        before_events).events
      ≡ (handle all_valid oom_event 0 no_faults before_events).events ++ ev ∷ [])
    × (ev.reason ≡ (
        if leb (event_timestamp_ms die_event 0) (event_timestamp_ms oom_event 0 + 15000)
        then oom_killed
        else sigkill))
die-oom_window_example =
    die-oom_window all_valid oom_event die_event "web" 0 0 no_faults no_faults before_events
      web_failed oom_event-Reaches oom_event-kept die_event-Reaches refl find_first-web
      die_event-code
