-- ===== src/Container/Cleanup/Tests.antt =====
-- The cleanup sweeps on concrete inputs.
use agynio.Prelude.{
  String, ◌≡◌, refl, true, false, none, some, List, [], ◌∷◌, map, str_eq, if◌then◌else◌,
}
use agynio.Container.{Row, Table, ContainerStatus, running, terminating, stopped, find_unique}
use agynio.Container.Examples.{runs_until}
use agynio.Container.Registry.{get_expired}
use agynio.Container.Cleanup.{
  Docker, Reply, done, fails, Settings, SweepSelectiveOptions, settings, sweep, sweep_each,
  sweep_selective,
}

-- A Docker that cannot remove the container "db", and has stopped "web" already.
abbrev docker : Docker
docker = record {
  stop_container = λ id grace. if str_eq id "web" then fails (some 304) "not modified" else done;
  remove_container = λ id force volumes. if str_eq id "db" then fails (some 500) "busy" else done;
}

abbrev three : Table
three = runs_until "web" 100 ∷ runs_until "db" 100 ∷ runs_until "cache" 900 ∷ []

abbrev claim : String → String
claim id = "claim"

abbrev kept_days : Settings
kept_days = settings (some "TRUE") none

abbrev statuses : Table → List ContainerStatus
statuses = map λ (r : Row). r.status

sweep-three :
    statuses (sweep kept_days docker claim 201 200 false three)
    ≡ stopped ∷ terminating ∷ running ∷ []
unfolding sweep settings agynio.Container.Registry.delete_historical get_expired
    agynio.Container.Cleanup.sweep_one agynio.Container.Registry.claim_for_termination
    agynio.Container.Registry.claim_write agynio.Container.Cleanup.stop_and_remove
    agynio.Container.Registry.mark_stopped agynio.Container.update_where
    agynio.Container.Registry.record_termination_failure
sweep-three = refl

sweep_selective-three :
    statuses (
      sweep_selective docker "thread"
        (record { grace_seconds = 5; force = false; delete_ephemeral = true })
        201
        three)
    ≡ stopped ∷ running ∷ stopped ∷ []
unfolding sweep_selective agynio.Container.Registry.list_by_thread
    agynio.Container.Cleanup.stop_and_remove agynio.Container.Registry.mark_stopped
    agynio.Container.Registry.record_termination_failure agynio.Container.update_where
sweep_selective-three = refl
