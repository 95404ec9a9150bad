-- ===== src/Container/Cleanup/Sweep.antt =====
-- What a sweep does to each of its containers, before the purge, and that it leaves the others alone.
use agynio.Prelude.{
  [], ◌∷◌, eq_iff, arith, ◌≢◌, ◌≢◌, All, All, List, ◌∙◌, ◌∙◌, inr, Bool-cases, inl, ◌⊎◌, ◌⊎◌, true,
  ℕ, ◌+◌, String, ◌≡◌, refl, false, Option, none, some, str_eq, get_or,
}
use agynio.Container.{eq_iff, arith, ◌∷◌, List, true, Row, Table, terminating, stopped, find_unique}
use agynio.Container.Registry.{
  normalize_metadata, mark_stopped, record_termination_failure, retry_delay_ms,
}
use agynio.Container.Registry.Lookup.{
  Keyed-update_existing, Keyed, update_existing-has, find_unique-existing_other,
}
use agynio.Container.Registry.Claims.{claimed, claim-wins, claim-other, Keyed-claim}
use agynio.Container.Registry.Expired.{get_expired-Keyed, get_expired-found}
use agynio.Container.Registry.{get_expired}
use agynio.Container.Cleanup.{
  sweep_each, sweep_one, stop_and_remove, Docker, is_running, claim_for_termination, finish,
}

-- How a container is left: stopped, or, if its removal failed, terminating with a retry scheduled.
abbrev pub Ended : Option String → ℕ → ℕ → Option Row → Type 0
Ended error clock attempts none = ⊥
Ended none clock attempts (some r) =
    (r.status ≡ stopped)
    × (r.termination_reason ≡ some "ttl_expired")
    × (r.deleted_at ≡ none)
    × (r.updated_at ≡ clock)
Ended (some message) clock attempts (some r) =
    (r.status ≡ terminating)
    × (r.metadata.last_error ≡ some message)
    × (r.metadata.retry_after ≡ some (clock + retry_delay_ms attempts))

finish-Ended :
    (error : Option String) (id : String) (clock : ℕ) (t : Table) (r : Row)
    → find_unique id t ≡ some r
    → r.status ≡ terminating
    → Ended error clock
        (get_or r.metadata.termination_attempts 0)
        (find_unique id (finish id "ttl_expired" clock error t))
unfolding finish mark_stopped record_termination_failure
finish-Ended none id clock t r found s =
    update_existing-has (Ended none clock (get_or r.metadata.termination_attempts 0)) id clock _ t r
      found (λ a b. refl) (refl, refl, refl, refl)
finish-Ended (some message) id clock t r found s =
    update_existing-has (Ended (some message) clock (get_or r.metadata.termination_attempts 0)) id
      clock _ t r found (λ a b. refl) (s, refl, refl)

finish-other :
    (error : Option String) (id j : String) (clock : ℕ) (t : Table)
    → str_eq id j ≡ false
    → find_unique j (finish id "ttl_expired" clock error t) ≡ find_unique j t
unfolding finish mark_stopped record_termination_failure
finish-other none id j clock t ne = find_unique-existing_other id j clock _ t ne (λ a b. refl)
finish-other (some m) id j clock t ne = find_unique-existing_other id j clock _ t ne (λ a b. refl)

finish-Keyed :
    (error : Option String) (id : String) (clock : ℕ) (t : Table)
    → Keyed t
    → Keyed (finish id "ttl_expired" clock error t)
unfolding finish mark_stopped record_termination_failure
finish-Keyed none id clock t k = Keyed-update_existing id clock _ t (λ a b. refl) k
finish-Keyed (some m) id clock t k = Keyed-update_existing id clock _ t (λ a b. refl) k

module _ (docker : Docker) (claim : String → String) (clock : ℕ) where
  -- How a sweep leaves the container of one row.
  abbrev pub Swept : Row → Option Row → Type 0
  Swept d =
      Ended (stop_and_remove docker d.container_id 10 true none) clock
        (get_or d.metadata.termination_attempts 0)

  sweep_one-Swept :
      (d : Row) (t : Table)
      → Keyed t
      → find_unique d.container_id t ≡ some d
      → (is_running d ≡ true) ⊎ (d.status ≡ terminating)
      → Swept d (find_unique d.container_id (sweep_one docker claim clock d t))
  unfolding sweep_one normalize_metadata
  sweep_one-Swept d t k found (inl runs) =
      let (won, left) = claim-wins d.container_id (claim d.container_id) clock t d k found runs in
      simp (runs, won)
        (finish-Ended (stop_and_remove docker d.container_id 10 true none) d.container_id clock _
          (claimed (claim d.container_id) clock d) left refl)
  sweep_one-Swept d t k found (inr s) = rw s (
      finish-Ended (stop_and_remove docker d.container_id 10 true none) d.container_id clock t d
        found s)

  sweep_one-other :
      (d : Row) (j : String) (t : Table)
      → str_eq d.container_id j ≡ false
      → find_unique j (sweep_one docker claim clock d t) ≡ find_unique j t
  unfolding sweep_one
  sweep_one-other d j t ne =
      let error = stop_and_remove docker d.container_id 10 true none in
      let id = d.container_id in
      let (won, t') = claim_for_termination id (claim id) clock t in
      let back : find_unique j t' ≡ find_unique j t = claim-other id j (claim id) clock t ne in
      elim (Bool-cases (is_running d)) [
        | inr off ↦ rw off (finish-other error id j clock t ne)
        | inl runs ↦ elim (Bool-cases won) [
          | inl w ↦ simp (runs, w) (finish-other error id j clock t' ne ∙ back)
          | inr l ↦ simp (runs, l) back
        ]
      ]

  -- The containers of a sweep's list as the table has them, each once.
  abbrev pub Due : Table → List Row → Type 0
  Due t docs =
      Keyed docs
      × All
          (λ (d : Row).
            (find_unique d.container_id t ≡ some d)
            × ((is_running d ≡ true) ⊎ (d.status ≡ terminating)))
          docs

  sweep_each-other :
      (docs : List Row) (j : String) (t : Table)
      → All (λ (d : Row). str_eq d.container_id j ≡ false) docs
      → find_unique j (sweep_each docker claim clock docs t) ≡ find_unique j t
  unfolding sweep_each
  sweep_each-other [] j t h = refl
  sweep_each-other (d ∷ docs) j t h =
      sweep_each-other docs j (sweep_one docker claim clock d t) h.1 ∙ sweep_one-other d j t h.0

  off-head :
      (id : String) (docs : List Row)
      → All (λ (d : Row). d.container_id ≢ id) docs
      → All (λ (d : Row). str_eq d.container_id id ≡ false) docs
  off-head id [] h = tt
  off-head id (d ∷ docs) h = (ground (arith, h.0, eq_iff d.container_id id), off-head id docs h.1)

  later-Due :
      (docs : List Row) (d : Row) (t : Table)
      → All (λ (d' : Row). d'.container_id ≢ d.container_id) docs
      → All
          (λ (d' : Row).
            (find_unique d'.container_id t ≡ some d')
            × ((is_running d' ≡ true) ⊎ (d'.status ≡ terminating)))
          docs
      → All
          (λ (d' : Row).
            (find_unique d'.container_id (sweep_one docker claim clock d t) ≡ some d')
            × ((is_running d' ≡ true) ⊎ (d'.status ≡ terminating)))
          docs
  later-Due [] d t ne h = tt
  later-Due (d' ∷ docs) d t ne h =
      let off : str_eq d.container_id d'.container_id ≡ false =
        ground (arith, ne.0, eq_iff d.container_id d'.container_id) in
      ((sweep_one-other d d'.container_id t off ∙ h.0.0, h.0.1), later-Due docs d t ne.1 h.1)

  sweep_one-Keyed : (d : Row) (t : Table) → Keyed t → Keyed (sweep_one docker claim clock d t)
  unfolding sweep_one
  sweep_one-Keyed d t k =
      let error = stop_and_remove docker d.container_id 10 true none in
      let id = d.container_id in
      let (won, t') = claim_for_termination id (claim id) clock t in
      let k' : Keyed t' = Keyed-claim id (claim id) clock t k in
      elim (Bool-cases (is_running d)) [
        | inr off ↦ rw off (finish-Keyed error id clock t k)
        | inl runs ↦ elim (Bool-cases won) [
          | inl w ↦ simp (runs, w) (finish-Keyed error id clock t' k')
          | inr l ↦ simp (runs, l) k'
        ]
      ]

  sweep_each-Keyed :
      (docs : List Row) (t : Table) → Keyed t → Keyed (sweep_each docker claim clock docs t)
  unfolding sweep_each
  sweep_each-Keyed [] t k = k
  sweep_each-Keyed (d ∷ docs) t k =
      sweep_each-Keyed docs (sweep_one docker claim clock d t) (sweep_one-Keyed d t k)

  sweep_each-Swept :
      (docs : List Row) (t : Table)
      → Keyed t
      → Due t docs
      → All
          (λ (d : Row). Swept d (find_unique d.container_id (sweep_each docker claim clock docs t)))
          docs
  unfolding sweep_each
  sweep_each-Swept [] t k h = tt
  sweep_each-Swept (d ∷ docs) t k h = (
    rw
        (sweep_each-other docs d.container_id (sweep_one docker claim clock d t)
          (off-head d.container_id docs h.0.0))
        (sweep_one-Swept d t k h.1.0.0 h.1.0.1),
    sweep_each-Swept docs (sweep_one docker claim clock d t) (sweep_one-Keyed d t k)
        (h.0.1, later-Due docs d t h.0.0 h.1.1),
  )

-- The containers that a sweep handles, and all others, before the purge.
pub each-expired :
    (docker : Docker) (claim : String → String) (clock now : ℕ) (t : Table)
    → Keyed t
    → (let docs = get_expired now t in
        let t' = sweep_each docker claim clock docs t in
        Keyed t'
        × All (λ (d : Row). Swept docker claim clock d (find_unique d.container_id t')) docs
        × ((j : String)
            → All (λ (d : Row). d.container_id ≢ j) docs
            → find_unique j t' ≡ find_unique j t))
each-expired docker claim clock now t k =
    let docs = get_expired now t in
    (
      sweep_each-Keyed docker claim clock docs t k,
      sweep_each-Swept docker claim clock docs t k
          (get_expired-Keyed now t k, get_expired-found now t k),
      λ j h. sweep_each-other docker claim clock docs j t (off-head docker claim clock j docs h),
    )
