-- ===== src/Container/Registry/Claims.antt =====
-- Competing sweepers: of all the compare-and-sets on one container, one wins.
use agynio.Prelude.{
  ◌∙◌, ◌∙◌, true, Bool-cases, Bool-cases, ℕ, String, ◌≡◌, ◌≢◌, refl, inl, inr, Bool-cases, Bool,
  false, Option, none, some, List, [], ◌∷◌, arith, ◌==◌, str_eq, eq_iff, All,
}
use agynio.Container.{true, terminating, Metadata, Row, Table, find_unique}
use agynio.Container.Registry.{
  get_metadata, normalize_metadata, claim_for_termination, is_running, is_claimable, count_where,
  claim_write,
}
use agynio.Container.Registry.Lookup.{
  find_unique-update_other, Keyed, find_unique-key, Keyed-update_where, updated,
  find_unique-update_where,
}

count-other :
    (id : String) (rows : Table)
    → All (λ (r : Row). r.container_id ≢ id) rows
    → count_where (is_claimable id) rows ≡ 0
unfolding count_where
count-other id [] h = refl
count-other id (r ∷ rows) h = ground (arith, count-other id rows h.1, eq_iff r.container_id id, h.0)

abbrev pub claims : Option Row → Bool
claims none = false
claims (some r) = is_running r

-- The count that the compare-and-set tests is 1 exactly when the container is there and runs.
count-claimable :
    (id : String) (rows : Table)
    → Keyed rows
    → (count_where (is_claimable id) rows == 1) ≡ claims (find_unique id rows)
unfolding count_where
count-claimable id [] k = refl
count-claimable id (r ∷ rows) k = elim (Bool-cases (str_eq r.container_id id)) [
  | inl at ↦
      let e : r.container_id ≡ id = (eq_iff r.container_id id).0 at in
      ground (arith, at, count-other id rows (rw e at k.0))
  | inr off ↦ ground (arith, off, count-claimable id rows k.1)
]

-- One attempt: the claim, the metadata that its worker read, however long ago, and the time.
abbrev pub Attempt : Type 0
Attempt = String × Metadata × ℕ

-- The outcomes of attempts on one container, in the order in which their writes reach the database.
pub attempt_all : String → List Attempt → Table → List Bool × Table
attempt_all id [] t = ([], t)
attempt_all id ((claim, current, now) ∷ rest) t =
    let (won, t') = claim_write id claim current now t in
    let (outcomes, t'') = attempt_all id rest t' in (won ∷ outcomes, t'')

module _ (id : String) where
  pub lookup-claim_write :
      (claim : String) (current : Metadata) (now : ℕ) (t : Table)
      → find_unique id (claim_write id claim current now t).1
        ≡ updated
            (is_claimable id)
            now
            (λ (r : Row). record r {
              status = terminating;
              metadata = record current { claim_id = some claim };
            })
            (find_unique id t)
  unfolding claim_write
  lookup-claim_write claim current now t =
      find_unique-update_where (is_claimable id) now _ id t (λ r. refl)

  claims-updated :
      (claim : String) (current : Metadata) (now : ℕ) (t : Table) (o : Option Row)
      → find_unique id t ≡ o
      → claims (
          updated
            (is_claimable id)
            now
            (λ (r : Row). record r {
              status = terminating;
              metadata = record current { claim_id = some claim };
            })
            o)
        ≡ false
  claims-updated claim current now t none e = refl
  claims-updated claim current now t (some r) e = ground (arith, find_unique-key id t r e)

  -- After an attempt, won or lost, the container does not run.
  claims-claim_write :
      (claim : String) (current : Metadata) (now : ℕ) (t : Table)
      → claims (find_unique id (claim_write id claim current now t).1) ≡ false
  claims-claim_write claim current now t =
      rw (lookup-claim_write claim current now t)
        (claims-updated claim current now t (find_unique id t) refl)

  pub Keyed-claim_write :
      (claim : String) (current : Metadata) (now : ℕ) (t : Table)
      → Keyed t
      → Keyed (claim_write id claim current now t).1
  unfolding claim_write
  Keyed-claim_write claim current now t = Keyed-update_where (is_claimable id) now _ (λ r. refl) t

  pub won-claim_write :
      (claim : String) (current : Metadata) (now : ℕ) (t : Table)
      → Keyed t
      → (claim_write id claim current now t).0 ≡ claims (find_unique id t)
  unfolding claim_write
  won-claim_write claim current now t k = count-claimable id t k

-- The first attempt has the given outcome, every later one fails.
abbrev pub only_first : Bool → List Attempt → List Bool
only_first b [] = []
only_first b (a ∷ rest) = b ∷ only_first false rest

-- For any number of workers that try to claim one container, each with metadata that it read at any
-- earlier time, over a table with distinct container ids: the first write to arrive wins exactly when
-- the container is registered and runs, and every other attempt fails.
pub attempt_all-one_wins :
    (id : String) (attempts : List Attempt) (t : Table)
    → Keyed t
    → (attempt_all id attempts t).0 ≡ only_first (claims (find_unique id t)) attempts
unfolding attempt_all
attempt_all-one_wins id [] t k = refl
attempt_all-one_wins id ((claim, current, now) ∷ rest) t k =
    let t' = (claim_write id claim current now t).1 in
    let later = attempt_all-one_wins id rest t' (Keyed-claim_write id claim current now t k) in
    rw (won-claim_write id claim current now t k, later, claims-claim_write id claim current now t)

-- The row that the claim of a running container leaves.
abbrev pub claimed : String → ℕ → Row → Row
claimed claim clock d = record d {
  status = terminating;
  updated_at = clock;
  metadata = record (normalize_metadata d.metadata) { claim_id = some claim };
}

pub get_metadata-found :
    (id : String) (t : Table) (d : Row)
    → find_unique id t ≡ some d
    → get_metadata id t ≡ normalize_metadata d.metadata
unfolding get_metadata
get_metadata-found id t d found = rw (get_metadata, found) refl

pub claim-wins :
    (id claim : String) (clock : ℕ) (t : Table) (d : Row)
    → Keyed t
    → find_unique id t ≡ some d
    → is_running d ≡ true
    → ((claim_for_termination id claim clock t).0 ≡ true)
      × (find_unique id (claim_for_termination id claim clock t).1 ≡ some (claimed claim clock d))
unfolding claim_for_termination
claim-wins id claim clock t d k found runs =
    let m = get_metadata id t in
    (
      won-claim_write id claim m clock t k ∙ rw found runs,
      lookup-claim_write id claim m clock t
          ∙ simp (found, get_metadata-found id t d found, find_unique-key id t d found, runs),
    )

pub claim-other :
    (id j claim : String) (clock : ℕ) (t : Table)
    → str_eq id j ≡ false
    → find_unique j (claim_for_termination id claim clock t).1 ≡ find_unique j t
unfolding claim_for_termination claim_write
claim-other id j claim clock t ne =
    find_unique-update_other id j (is_claimable id) clock _ t ne (λ r. refl) (λ r off. rw off refl)

pub Keyed-claim :
    (id claim : String) (clock : ℕ) (t : Table)
    → Keyed t
    → Keyed (claim_for_termination id claim clock t).1
unfolding claim_for_termination
Keyed-claim id claim clock t k = Keyed-claim_write id claim (get_metadata id t) clock t k
