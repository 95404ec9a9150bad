-- ===== src/Runner/Tests.antt =====
-- The runner monitor on concrete inputs.
use agynio.Prelude.{◌+◌, ℕ, String, ◌≡◌, refl, true, none, some, List, [], ◌∷◌, arith}
use agynio.Runner.{
  RunnerConfig, Monitor, Check, on_module_init, run_probe, mark_unknown, initial_snapshot,
  calculate_retry_delay, unknown,
}
use agynio.Runner.Consistent.{Step, probes, destroys, completes_late, run, Consistent}
use agynio.Runner.Delays.{Bounded, retry_delay-Bounded}

abbrev config : RunnerConfig
config = record {
  optional = true;
  endpoint = "runner:7070";
  probe_interval_ms = 30000;
  max_retries = 2;
  base_delay_ms = 500;
  max_delay_ms = 4000;
  jitter_ms = 250;
}

abbrev fails : ℕ → Check String
fails now = record { started_at = now; now = now; failure = some "refused"; draw = 100 }

abbrev succeeds : ℕ → Check String
succeeds now = record { started_at = now; now = now; failure = none; draw = 0 }

abbrev steps : List (Step String)
steps =
    probes (fails 10)
    ∷ probes (succeeds 700)
    ∷ probes (fails 40000)
    ∷ destroys
    ∷ completes_late (fails 40500)
    ∷ []

retry_delay-Bounded_example : Bounded config 3 250
retry_delay-Bounded_example = retry_delay-Bounded config 3 250 (omega arith)

run-exhausted :
    (run config
      (probes (fails 10) ∷ probes (fails 700) ∷ probes (succeeds 900) ∷ [])
      (on_module_init config (succeeds 0)).1).retries_exhausted
    ≡ true
unfolding run_probe on_module_init agynio.Runner.schedule_probe agynio.Runner.fresh
    agynio.Runner.probe_failed
run-exhausted = refl

delay-fourth : calculate_retry_delay config 4 100 ≡ 4000 + 100
unfolding calculate_retry_delay
delay-fourth = refl

mark_unknown-status : (mark_unknown {E = String} (initial_snapshot config)).status ≡ unknown
unfolding mark_unknown
mark_unknown-status = refl
