-- ===== src/Container/Termination/Marks.antt =====
-- What a closed thread's containers are left with.
use mathlib.Core.Path.{subst}
use agynio.Prelude.{
  ℕ, String, ◌≡◌, refl, Bool, true, false, not, ◌&&◌, Option, none, some, List, [], ◌∷◌, ◌∙◌, arith,
  has, leb, str_eq, eq_iff, if◌then◌else◌, Assoc, lookup, Bool-cases, inl, inr,
}
use agynio.Container.{ContainerStatus, Metadata, Row, Table, terminating, find_unique}
use agynio.Container.Registry.{claim_for_termination, claim_write, is_claimable, is_expired}
use agynio.Container.Registry.Lookup.{
  IsThere, update_where-IsThere, update_row-has, find_unique-update_other,
}
use agynio.Container.Registry.Claims.{claim-other}
use agynio.Container.Termination.{
  or_stored, Cached, Draws, try_claim, is_running_status, mark_row, process_found,
  process_container, process_each, ensure_registry_record,
}

-- A container that a sweep takes from `now` on, and whose metadata has lost its mounts and the time of
-- its last event.
abbrev pub Marked : ℕ → Option Row → Type 0
Marked now none = ⊥
Marked now (some r) =
    (r.status ≡ terminating)
    × (r.termination_reason ≡ some "thread_closed")
    × ((time : ℕ) → is_expired time r ≡ leb now time)
    × (r.metadata.mounts ≡ [])
    × (r.metadata.last_event_at ≡ none)

abbrev IsSome : Option Cached → Type 0
IsSome none = ⊥
IsSome (some c) = Unit {0}

mark-Marked :
    (draws : Draws) (id : String) (won : Bool) (m : Metadata) (now : ℕ) (t : Table)
    → draws.update_throws id ≡ false
    → IsThere (find_unique id t)
    → Marked now (find_unique id (mark_row draws id won m now t))
unfolding mark_row is_expired
mark-Marked draws id true m now t works there = rw works (
    update_row-has (Marked now) id now _ t (λ r. refl) (λ r. (refl, refl, λ time. refl, refl, refl))
      there)
mark-Marked draws id false m now t works there = rw works (
    update_row-has (Marked now) id now _ t (λ r. refl) (λ r. (refl, refl, λ time. refl, refl, refl))
      there)

claimed-IsThere :
    (id claim : String) (now : ℕ) (t : Table)
    → IsThere (find_unique id t)
    → IsThere (find_unique id (claim_for_termination id claim now t).1)
unfolding claim_for_termination claim_write
claimed-IsThere id claim now t there =
    update_where-IsThere (is_claimable id) now _ id t (λ r. refl) there

module _ (draws : Draws) (now : ℕ) where
  claim-IsThere :
      (id : String) (t : Table) (status : ContainerStatus)
      → IsThere (find_unique id t)
      → IsThere (find_unique id (try_claim draws id now t status).1)
  claim-IsThere id t status there =
      elim (Bool-cases (is_running_status status && not (draws.claim_throws id))) [
        | inl y ↦ rw y (claimed-IsThere id (draws.candidate id) now t there)
        | inr n ↦ rw n there
      ]

  try_claim-other :
      (id j : String) (t : Table) (status : ContainerStatus)
      → str_eq id j ≡ false
      → find_unique j (try_claim draws id now t status).1 ≡ find_unique j t
  try_claim-other id j t status ne =
      elim (Bool-cases (is_running_status status && not (draws.claim_throws id))) [
        | inl y ↦ rw y (claim-other id j (draws.candidate id) now t ne)
        | inr n ↦ rw n refl
      ]

  mark-other :
      (id j : String) (won : Bool) (m : Metadata) (t : Table)
      → str_eq id j ≡ false
      → find_unique j (mark_row draws id won m now t) ≡ find_unique j t
  unfolding mark_row
  mark-other id j won m t ne = elim (Bool-cases (draws.update_throws id)) [
    | inl throws ↦ rw throws refl
    | inr works ↦ rw works (
        find_unique-update_other id j (λ (x : Row). str_eq x.container_id id) now _ t ne (λ r. refl)
          (λ r off. off))
  ]

  found-other :
      (id j : String) (t : Table) (o : Option Cached)
      → str_eq id j ≡ false
      → find_unique j (process_found draws id now t o) ≡ find_unique j t
  found-other id j t none ne = refl
  found-other id j t (some (status, m)) ne =
      mark-other id j _ _ (try_claim draws id now t status).1 ne ∙ try_claim-other id j t status ne

  found-Marked :
      (id : String) (t : Table) (o : Option Cached)
      → draws.update_throws id ≡ false
      → IsSome o
      → IsThere (find_unique id t)
      → Marked now (find_unique id (process_found draws id now t o))
  found-Marked id t none works h there = absurd h
  found-Marked id t (some (status, m)) works h there =
      mark-Marked draws id _ _ now (try_claim draws id now t status).1 works
        (claim-IsThere id t status there)

  module _ (cache : Assoc Cached) where
    record-IsSome :
        (id : String) (t : Table)
        → IsThere (find_unique id t)
        → IsSome (ensure_registry_record id cache t)
    unfolding ensure_registry_record
    record-IsSome id t there = go (lookup id cache) (find_unique id t) there
      where
        go : (c : Option Cached) (o : Option Row) → IsThere o → IsSome (or_stored c o)
        go (some c) o h = tt
        go none none h = absurd h
        go none (some r) h = tt

    process-Marked :
        (id : String) (t : Table)
        → draws.update_throws id ≡ false
        → IsThere (find_unique id t)
        → Marked now (find_unique id (process_container draws cache now id t))
    unfolding process_container
    process-Marked id t works there =
        found-Marked id t (ensure_registry_record id cache t) works (record-IsSome id t there) there

    process-other :
        (id j : String) (t : Table)
        → str_eq id j ≡ false
        → find_unique j (process_container draws cache now id t) ≡ find_unique j t
    unfolding process_container
    process-other id j t ne = found-other id j t (ensure_registry_record id cache t) ne

    -- One round, for a container that is marked before or has this id.
    Marked-IsThere : (o : Option Row) → Marked now o → IsThere o
    Marked-IsThere none h = h
    Marked-IsThere (some r) h = tt

    abbrev pub round : String → Table → Table
    round id t = if str_eq id "" then t else process_container draws cache now id t

    pub round-other :
        (id j : String) (t : Table)
        → str_eq id j ≡ false
        → find_unique j (round id t) ≡ find_unique j t
    round-other id j t ne = elim (Bool-cases (str_eq id "")) [
      | inl blank ↦ rw blank refl
      | inr named ↦ rw named (process-other id j t ne)
    ]

    round-Marked :
        (id : String) (t : Table)
        → str_eq id "" ≡ false
        → draws.update_throws id ≡ false
        → IsThere (find_unique id t)
        → Marked now (find_unique id (round id t))
    round-Marked id t named works there = rw named (process-Marked id t works there)

    round-stays :
        (id j : String) (t : Table)
        → draws.update_throws j ≡ false
        → Marked now (find_unique j t)
        → Marked now (find_unique j (round id t))
    round-stays id j t works m = elim (Bool-cases (str_eq id "")) [
      | inl blank ↦ rw blank m
      | inr named ↦ elim (Bool-cases (str_eq id j)) [
        | inr off ↦ rw named (rw (process-other id j t off) m)
        | inl at ↦
            subst
              (λ k.
                draws.update_throws k ≡ false
                → Marked now (find_unique k t)
                → Marked now (find_unique k (round id t)))
              ((eq_iff id j).0 at)
              (λ w m'. round-Marked id t named w (Marked-IsThere (find_unique id t) m')) works m
      ]
    ]

    pub each-other :
        (ids : List String) (j : String) (t : Table)
        → has ids j ≡ false
        → find_unique j (process_each draws cache now ids t) ≡ find_unique j t
    unfolding process_each
    each-other [] j t h = refl
    each-other (id ∷ ids) j t h =
        each-other ids j (round id t) (ground (arith, h)) ∙ round-other id j t (ground (arith, h))

    each-stays :
        (ids : List String) (j : String) (t : Table)
        → draws.update_throws j ≡ false
        → Marked now (find_unique j t)
        → Marked now (find_unique j (process_each draws cache now ids t))
    unfolding process_each
    each-stays [] j t works m = m
    each-stays (id ∷ ids) j t works m =
        each-stays ids j (round id t) works (round-stays id j t works m)

    pub each-Marked :
        (ids : List String) (j : String) (t : Table)
        → draws.update_throws j ≡ false
        → has ids j ≡ true
        → str_eq j "" ≡ false
        → IsThere (find_unique j t)
        → Marked now (find_unique j (process_each draws cache now ids t))
    unfolding process_each
    each-Marked [] j t works h ne there = cc
    each-Marked (id ∷ ids) j t works h ne there = elim (Bool-cases (str_eq id j)) [
      | inl at ↦
          let same : id ≡ j = (eq_iff id j).0 at in
          each-stays ids j (round id t) works (
            subst
              (λ k.
                str_eq k "" ≡ false
                → draws.update_throws k ≡ false
                → IsThere (find_unique k t)
                → Marked now (find_unique k (round id t)))
              same (λ named w here. round-Marked id t named w here) ne works there)
      | inr off ↦
          each-Marked ids j (round id t) works (ground (arith, h, off)) ne
            (rw (round-other id j t off) there)
    ]
