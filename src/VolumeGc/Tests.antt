-- ===== src/VolumeGc/Tests.antt =====
-- The volume collection on concrete inputs.
use agynio.Prelude.{
  eq_iff, arith, ◌≢◌, ℕ, String, ◌≡◌, refl, Bool, true, false, Option, none, some, List, [], ◌∷◌,
  str_eq, if◌then◌else◌,
}
use agynio.Prelude.Text.{codes}
use agynio.Runner.{up, down}
use agynio.VolumeGc.{
  VolumeGcSettings, resolve_settings, VolumeDocker, VolumeGcState, done, fails, SweepOutcome,
  removed, referenced, cooldown, not_found, sweep, Round, run,
}
use agynio.VolumeGc.Cooldown.{Spaced, run-Spaced}
use agynio.VolumeGc.Starvation.{IsBehind, times_of, run-times_of}

abbrev two_each : VolumeGcSettings
two_each = record { enabled = true; max_per_sweep = 2; cooldown_ms = 1000 }

-- The volume of "a" is in use, that of "b" is gone.
abbrev docker : VolumeDocker
docker = record {
  list_containers = λ thread. if str_eq thread "a" then some 1 else some 0;
  remove_volume = λ thread. if str_eq thread "b" then fails (some 404) else done;
}

abbrev at : ℕ → Round
at now = record { runner = up; docker = docker; now = now; closed = "a" ∷ "b" ∷ "c" ∷ [] }

abbrev rounds : List Round
rounds = at 5000 ∷ at 5500 ∷ at 6000 ∷ []

abbrev empty : VolumeGcState
empty = record { last_attempt = []; calls = [] }

run-Spaced_example :
    Spaced 1000 (run two_each rounds (record { last_attempt = []; calls = [] })).calls
run-Spaced_example = run-Spaced two_each rounds

behind : IsBehind 2 "c" ("a" ∷ "b" ∷ "c" ∷ [])
behind = record {
  newer = "a" ∷ "b" ∷ [];
  older = "c" ∷ [];
  split = refl;
  others = (other "a" refl, (other "b" refl, tt));
  many = omega arith;
}
  where
    other : (thread : String) → str_eq thread "c" ≡ false → thread ≢ "c"
    other thread h = ground (arith, eq_iff thread "c", h)

run-times_of_example : times_of "c" (run two_each rounds empty).calls ≡ []
run-times_of_example = run-times_of two_each "c" rounds empty (behind, (behind, (behind, tt)))

sweep-outcomes :
    (sweep two_each up docker 5000 ("a" ∷ "b" ∷ "c" ∷ []) empty).0 ≡ referenced ∷ not_found ∷ []
unfolding sweep agynio.VolumeGc.handle_threads agynio.VolumeGc.handle_thread agynio.Prelude.lookup
    agynio.Prelude.insert
sweep-outcomes = refl

sweep-down : (sweep two_each down docker 5000 ("a" ∷ []) empty).0 ≡ []
unfolding sweep
sweep-down = refl

resolve_settings-texts :
    resolve_settings (some (codes " FALSE ")) (some (codes "0")) (some (codes " 25x"))
    ≡ record { enabled = false; max_per_sweep = 100; cooldown_ms = 25 }
unfolding resolve_settings
resolve_settings-texts = refl
