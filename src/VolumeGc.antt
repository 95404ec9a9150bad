-- ===== src/VolumeGc.antt =====
-- infra/container/volumeGc.job.ts: removing the workspace volumes of closed threads. A sweep handles its
-- threads one after another; the source handles a few at a time, each with its own entry of
-- `lastAttempt`. What Docker answers and the closed threads, newest first, are arguments. `calls` is the
-- trace of the threads for whose volumes Docker was asked, with the times of the sweeps, latest first.
pub mod Cooldown
pub mod Starvation
pub mod Tests
use agynio.Prelude.{
  ℕ, zero, suc, ◌+◌, ◌*◌, String, Bool, true, false, not, ◌||◌, Option, none, some, List, [], ◌∷◌,
  ltb, leb, ◌==◌, take, if◌then◌else◌, Assoc, lookup, insert,
}
use agynio.Prelude.Int.{ℤ, pos, negsuc}
use agynio.Prelude.Text.{codes, same_text, trim, to_lower, parse_int}
use agynio.Runner.{RunnerStatus, unknown, up, down}

pub data SweepOutcome : Type 0 where
  removed referenced cooldown error not_found : SweepOutcome

pub record VolumeGcSettings : Type 0 where
  pub enabled : Bool
  pub max_per_sweep : ℕ
  pub cooldown_ms : ℕ

pub resolve_boolean : Option (List ℕ) → Bool → Bool
resolve_boolean none default_value = default_value
resolve_boolean (some input) default_value =
    let normalized = to_lower (trim input) in
    if same_text normalized (codes "true")
    then true
    else if same_text normalized (codes "false")
    then false
    else default_value

abbrev at_least : ℕ → ℕ → Option ℤ → ℕ
at_least default_value low none = default_value
at_least default_value low (some (negsuc n)) = default_value
at_least default_value low (some (pos n)) = if leb low n then n else default_value

-- An absent text is read as the empty one.
pub resolve_integer : Option (List ℕ) → ℕ → ℕ → ℕ
resolve_integer none default_value low = default_value
resolve_integer (some input) default_value low = at_least default_value low (parse_int (trim input))

pub resolve_settings : Option (List ℕ) → Option (List ℕ) → Option (List ℕ) → VolumeGcSettings
unfolding resolve_boolean resolve_integer
resolve_settings enabled max_per_sweep cooldown_ms = record {
  enabled = resolve_boolean enabled true;
  max_per_sweep = resolve_integer max_per_sweep 100 1;
  cooldown_ms = resolve_integer cooldown_ms (10 * 60 * 1000) 0;
}

-- The answer to the removal of a volume: done, or an error with its status code, if it has one.
pub data RemoveReply : Type 0 where
  done : RemoveReply
  fails : Option ℕ → RemoveReply

-- How many containers use the volume of a thread, `none` if the call fails, and its removal.
pub record VolumeDocker : Type 0 where
  pub list_containers : String → Option ℕ
  pub remove_volume : String → RemoveReply

pub record VolumeGcState : Type 0 where
  pub last_attempt : Assoc ℕ
  pub calls : List (String × ℕ)

abbrev pub removal_outcome : RemoveReply → SweepOutcome
removal_outcome done = removed
removal_outcome (fails none) = error
removal_outcome (fails (some code)) = if code == 404 then not_found else error

abbrev pub volume_outcome : VolumeDocker → String → Option ℕ → SweepOutcome
volume_outcome docker thread none = error
volume_outcome docker thread (some zero) = removal_outcome (docker.remove_volume thread)
volume_outcome docker thread (some (suc n)) = referenced

-- The cooldown guard, for the time of the last attempt.
abbrev pub is_cooling : VolumeGcSettings → ℕ → Option ℕ → Bool
is_cooling c now none = false
is_cooling c now (some last) = ltb now (last + c.cooldown_ms)

pub handle_thread :
    VolumeGcSettings → VolumeDocker → ℕ → String → VolumeGcState → SweepOutcome × VolumeGcState
handle_thread c docker now thread s =
    if is_cooling c now (lookup thread s.last_attempt) then (cooldown, s) else (
      volume_outcome docker thread (docker.list_containers thread),
      record { last_attempt = insert thread now s.last_attempt; calls = (thread, now) ∷ s.calls },
    )

pub handle_threads :
    VolumeGcSettings
    → VolumeDocker
    → ℕ
    → List String
    → VolumeGcState
    → List SweepOutcome × VolumeGcState
handle_threads c docker now [] s = ([], s)
handle_threads c docker now (thread ∷ threads) s =
    let (outcome, s') = handle_thread c docker now thread s in
    let (outcomes, s'') = handle_threads c docker now threads s' in (outcome ∷ outcomes, s'')

abbrev is_up : RunnerStatus → Bool
is_up s = elim s [ up ↦ true | _ ↦ false ]

-- `sweep`: the outcomes that it counts, and the state.
pub sweep :
    VolumeGcSettings
    → RunnerStatus
    → VolumeDocker
    → ℕ
    → List String
    → VolumeGcState
    → List SweepOutcome × VolumeGcState
sweep c runner docker now closed s =
    if not c.enabled || not (is_up runner)
    then ([], s)
    else handle_threads c docker now (take c.max_per_sweep closed) s

-- One sweep with all that it meets.
pub record Round : Type 0 where
  pub runner : RunnerStatus
  pub docker : VolumeDocker
  pub now : ℕ
  pub closed : List String

pub run : VolumeGcSettings → List Round → VolumeGcState → VolumeGcState
run c [] s = s
run c (r ∷ rounds) s = run c rounds (sweep c r.runner r.docker r.now r.closed s).1
