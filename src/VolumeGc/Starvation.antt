-- ===== src/VolumeGc/Starvation.antt =====
-- A thread that stays behind the newest closed ones is not handled.
use agynio.Prelude.{
  zero, suc, ap, ◌≤◌, ◌≢◌, ◌++◌, length, eq_iff, if◌then◌else◌, ℕ, String, ◌≡◌, refl, false, not,
  ◌||◌, List, [], ◌∷◌, ◌∙◌, arith, has, take, str_eq, All, Bool-cases, inl, inr, lookup,
}
use agynio.VolumeGc.{
  VolumeGcSettings, VolumeDocker, VolumeGcState, is_cooling, is_up, handle_thread, handle_threads,
  sweep, Round, run,
}

-- The times of the calls for a thread.
abbrev pub times_of : String → List (String × ℕ) → List ℕ
times_of j [] = []
times_of j ((thread, time) ∷ calls) =
    let rest = times_of j calls in if str_eq thread j then time ∷ rest else rest

-- A thread with a number of closed threads before it, all of them others.
pub record IsBehind (n : ℕ) (j : String) (closed : List String) : Type 0 where
  pub newer : List String
  pub older : List String
  pub split : closed ≡ newer ++ older
  pub others : All (λ thread. thread ≢ j) newer
  pub many : n ≤ length newer

take-behind :
    (n : ℕ) (j : String) (newer older : List String)
    → All (λ thread. thread ≢ j) newer
    → n ≤ length newer
    → has (take n (newer ++ older)) j ≡ false
take-behind zero j newer older h many = refl
take-behind (suc n) j [] older h many = absurd (omega (arith, many))
take-behind (suc n) j (thread ∷ newer) older h many =
    ground (arith, h.0, eq_iff thread j, take-behind n j newer older h.1 (omega (arith, many)))

behind-has :
    (n : ℕ) (j : String) (closed : List String)
    → IsBehind n j closed
    → has (take n closed) j ≡ false
behind-has n j closed b =
    ap (λ l. has (take n l) j) b.split ∙ take-behind n j b.newer b.older b.others b.many

module _ (c : VolumeGcSettings) (j : String) where
  thread-other :
      (docker : VolumeDocker) (now : ℕ) (thread : String) (s : VolumeGcState)
      → str_eq thread j ≡ false
      → times_of j (handle_thread c docker now thread s).1.calls ≡ times_of j s.calls
  unfolding handle_thread
  thread-other docker now thread s ne =
      elim (Bool-cases (is_cooling c now (lookup thread s.last_attempt))) [
        | inl wait ↦ rw wait refl
        | inr go ↦ rw go (rw ne refl)
      ]

  threads-other :
      (docker : VolumeDocker) (now : ℕ) (threads : List String) (s : VolumeGcState)
      → has threads j ≡ false
      → times_of j (handle_threads c docker now threads s).1.calls ≡ times_of j s.calls
  unfolding handle_threads
  threads-other docker now [] s h = refl
  threads-other docker now (thread ∷ threads) s h =
      threads-other docker now threads (handle_thread c docker now thread s).1 (ground (arith, h))
      ∙ thread-other docker now thread s (ground (arith, h))

  sweep-other :
      (r : Round) (s : VolumeGcState)
      → has (take c.max_per_sweep r.closed) j ≡ false
      → times_of j (sweep c r.runner r.docker r.now r.closed s).1.calls ≡ times_of j s.calls
  unfolding sweep
  sweep-other r s h = elim (Bool-cases (not c.enabled || not (is_up r.runner))) [
    | inl off ↦ rw off refl
    | inr on ↦ rw on (threads-other r.docker r.now (take c.max_per_sweep r.closed) s h)
  ]

  -- Over any sweeps in each of which at least max_per_sweep other closed threads, newest first, stand
  -- before the thread: Docker is not asked once more for its volume.
  pub run-times_of :
      (rounds : List Round) (s : VolumeGcState)
      → All (λ (r : Round). IsBehind c.max_per_sweep j r.closed) rounds
      → times_of j (run c rounds s).calls ≡ times_of j s.calls
  unfolding run
  run-times_of [] s h = refl
  run-times_of (r ∷ rounds) s h =
      run-times_of rounds (sweep c r.runner r.docker r.now r.closed s).1 h.1
      ∙ sweep-other r s (behind-has c.max_per_sweep j r.closed h.0)
