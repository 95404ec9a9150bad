-- ===== src/Runner/Consistent.antt =====
-- The monitor keeps probing until it is stopped or has used up its retries, and the status tells so.
use agynio.Prelude.{
  ◌+◌, ◌≡◌, refl, Bool, true, false, not, ◌||◌, Option, none, some, List, [], ◌∷◌, arith, is_some,
  ltb, leb, ◌&&◌, if◌then◌else◌, Bool-cases, inl, inr,
}
use agynio.Runner.{
  RunnerStatus, down, RunnerConfig, Monitor, Check, is_exhausted, probe_ok, probe_failed,
  probe_checked, run_probe, on_module_destroy,
}

-- A probe; the end of the module; a check that was in flight at that end.
pub data Step {ℓ} (E : Type ℓ) : Type ℓ where
  probes : Check E → Step E
  destroys : Step E
  completes_late : Check E → Step E

abbrev pub is_down : RunnerStatus → Bool
is_down s = elim s [ down ↦ true | _ ↦ false ]

-- What holds of both branches holds of the conditional.
branches {ℓ κ} :
    {A : Type ℓ} (P : A → Type κ) (b : Bool) (x y : A)
    → (b ≡ true → P x)
    → (b ≡ false → P y)
    → P (if b then x else y)
branches P true x y f g = f refl
branches P false x y f g = g refl

module _ {ℓ} {E : Type ℓ} (c : RunnerConfig) where
  abbrev pub step : Step E → Monitor E → Monitor E
  step (probes k) m = run_probe c k m
  step destroys m = on_module_destroy m
  step (completes_late k) m =
      if m.stopped then probe_checked c k (record m { timer = none }) k.failure else m

  abbrev pub run : List (Step E) → Monitor E → Monitor E
  run [] m = m
  run (s ∷ steps) m = run steps (step s m)

  pub record Consistent (m : Monitor E) : Type ℓ where
    pub counted : m.snapshot.consecutive_failures ≡ m.failure_count
    pub told : is_down m.snapshot.status ≡ ltb 0 m.failure_count
    pub limit : m.retries_exhausted ≡ (ltb 0 c.max_retries && leb c.max_retries m.failure_count)
    pub pending : is_some m.timer ≡ not (m.stopped || m.retries_exhausted)

  ok-Consistent :
      (k : Check E) (m : Monitor E)
      → Consistent m
      → Consistent (probe_ok c k (record m { timer = none }))
  unfolding probe_ok
  ok-Consistent k m h = elim (Bool-cases m.stopped) [
    | inl y ↦
        rw y (record {
          counted = refl;
          told = refl;
          limit = ground arith;
          pending = ground (arith, y);
        })
    | inr n ↦
        rw n (record {
          counted = refl;
          told = refl;
          limit = ground arith;
          pending = ground (arith, n);
        })
  ]

  failed-Consistent :
      (k : Check E) (e : E) (m : Monitor E)
      → Consistent m
      → Consistent (probe_failed c k e (record m { timer = none }))
  unfolding probe_failed
  failed-Consistent k e m h = elim (Bool-cases (is_exhausted c (m.failure_count + 1))) [
    | inl y ↦ rw y (record {
      counted = omega (arith, h.counted);
      told = ground arith;
      limit = ground (arith, y);
      pending = ground arith;
    })
    | inr n ↦ rw n (elim (Bool-cases (m.stopped || m.retries_exhausted)) [
      | inl still ↦ rw still (record {
        counted = omega (arith, h.counted);
        told = ground arith;
        limit = ground (arith, n, h.limit);
        pending = ground (arith, still);
      })
      | inr alive ↦ rw alive (record {
        counted = omega (arith, h.counted);
        told = ground arith;
        limit = ground (arith, n, h.limit);
        pending = ground (arith, alive);
      })
    ])
  ]

  checked-Consistent :
      (k : Check E) (m : Monitor E) (failure : Option E)
      → Consistent m
      → Consistent (probe_checked c k (record m { timer = none }) failure)
  checked-Consistent k m none h = ok-Consistent k m h
  checked-Consistent k m (some e) h = failed-Consistent k e m h

  step-Consistent : (s : Step E) (m : Monitor E) → Consistent m → Consistent (step s m)
  unfolding run_probe on_module_destroy
  step-Consistent (probes k) m h = elim (Bool-cases (m.stopped || m.retries_exhausted)) [
    | inl still ↦ rw still (record {
      counted = h.counted;
      told = h.told;
      limit = h.limit;
      pending = ground (arith, still);
    })
    | inr alive ↦ rw alive (checked-Consistent k m k.failure h)
  ]
  step-Consistent destroys m h = record {
    counted = h.counted;
    told = h.told;
    limit = h.limit;
    pending = refl;
  }
  step-Consistent (completes_late k) m h =
      branches Consistent m.stopped (probe_checked c k (record m { timer = none }) k.failure) m
        (λ e. checked-Consistent k m k.failure h) (λ e. h)

  pub run-Consistent :
      (steps : List (Step E)) (m : Monitor E) → Consistent m → Consistent (run steps m)
  run-Consistent [] m h = h
  run-Consistent (s ∷ steps) m h = run-Consistent steps (step s m) (step-Consistent s m h)
