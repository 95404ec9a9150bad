-- ===== src/VolumeGc/Cooldown.antt =====
-- Docker is not asked again for the volume of a thread before the cooldown is over.
use agynio.Prelude.{
  ℕ, ◌+◌, ◌≤◌, String, ◌≡◌, refl, false, not, ◌||◌, Option, none, some, List, [], ◌∷◌, arith,
  str_eq, take, if◌then◌else◌, Bool-cases, inl, inr, lookup, lookup-insert,
}
use agynio.VolumeGc.{
  VolumeGcSettings, VolumeDocker, VolumeGcState, is_cooling, is_up, handle_thread, handle_threads,
  sweep, Round, run,
}

-- The time of the latest call for a thread.
abbrev pub latest : String → List (String × ℕ) → Option ℕ
latest j [] = none
latest j ((thread, time) ∷ calls) = if str_eq thread j then some time else latest j calls

abbrev pub Waits : ℕ → Option ℕ → ℕ → Type 0
Waits cooldown none time = Unit
Waits cooldown (some last) time = last + cooldown ≤ time

-- Each call comes at least the cooldown after the one before it for the same thread.
abbrev pub Spaced : ℕ → List (String × ℕ) → Type 0
Spaced cooldown [] = Unit
Spaced cooldown ((thread, time) ∷ calls) =
    Waits cooldown (latest thread calls) time × Spaced cooldown calls

record Kept (c : VolumeGcSettings) (s : VolumeGcState) : Type 0 where
  spaced : Spaced c.cooldown_ms s.calls
  known : (j : String) → lookup j s.last_attempt ≡ latest j s.calls

module _ (c : VolumeGcSettings) where
  not_cooling : (now : ℕ) (o : Option ℕ) → is_cooling c now o ≡ false → Waits c.cooldown_ms o now
  not_cooling now none h = tt
  not_cooling now (some last) h = ground arith

  thread-Kept :
      (docker : VolumeDocker) (now : ℕ) (thread : String) (s : VolumeGcState)
      → Kept c s
      → Kept c (handle_thread c docker now thread s).1
  unfolding handle_thread
  thread-Kept docker now thread s h =
      elim (Bool-cases (is_cooling c now (lookup thread s.last_attempt))) [
        | inl wait ↦ rw wait h
        | inr go ↦ rw go (record {
          spaced = (not_cooling now (latest thread s.calls) (rw⁻¹ (h.known thread) go), h.spaced);
          known = λ j. ground (arith, lookup-insert thread j now s.last_attempt, h.known j);
        })
      ]

  threads-Kept :
      (docker : VolumeDocker) (now : ℕ) (threads : List String) (s : VolumeGcState)
      → Kept c s
      → Kept c (handle_threads c docker now threads s).1
  unfolding handle_threads
  threads-Kept docker now [] s h = h
  threads-Kept docker now (thread ∷ threads) s h =
      threads-Kept docker now threads (handle_thread c docker now thread s).1
        (thread-Kept docker now thread s h)

  sweep-Kept :
      (r : Round) (s : VolumeGcState)
      → Kept c s
      → Kept c (sweep c r.runner r.docker r.now r.closed s).1
  unfolding sweep
  sweep-Kept r s h = elim (Bool-cases (not c.enabled || not (is_up r.runner))) [
    | inl off ↦ rw off h
    | inr on ↦ rw on (threads-Kept r.docker r.now (take c.max_per_sweep r.closed) s h)
  ]

  rounds-Kept : (rounds : List Round) (s : VolumeGcState) → Kept c s → Kept c (run c rounds s)
  unfolding run
  rounds-Kept [] s h = h
  rounds-Kept (r ∷ rounds) s h =
      rounds-Kept rounds (sweep c r.runner r.docker r.now r.closed s).1 (sweep-Kept r s h)

-- However the sweeps of a new service come, at any times, even if the clock is set back, and whatever
-- Docker answers: it is asked for the volume of a thread at least the cooldown after it was asked for
-- the same volume before.
pub run-Spaced :
    (c : VolumeGcSettings) (rounds : List Round)
    → Spaced c.cooldown_ms (run c rounds (record { last_attempt = []; calls = [] })).calls
unfolding lookup
run-Spaced c rounds =
    (rounds-Kept c rounds (record { last_attempt = []; calls = [] })
      (record { spaced = tt; known = λ j. refl })).spaced
