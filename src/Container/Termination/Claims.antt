-- ===== src/Container/Termination/Claims.antt =====
-- What a container is left with whose update throws: at most a claim.
use mathlib.Core.Path.{subst}
use agynio.Prelude.{
  ℕ, String, ◌≡◌, ◌⊎◌, refl, sym, Bool, true, false, not, ◌&&◌, Option, none, some, List, [], ◌∷◌,
  ◌∙◌, ap, arith, str_eq, eq_iff, if◌then◌else◌, Assoc, Bool-cases, inl, inr,
}
use agynio.Container.{ContainerStatus, Metadata, Row, Table, find_unique, terminating}
use agynio.Container.Registry.{claim_for_termination, is_claimable, is_running, get_metadata}
use agynio.Container.Registry.Lookup.{updated}
use agynio.Container.Registry.Claims.{claimed, lookup-claim_write, get_metadata-found}
use agynio.Container.Termination.{
  Cached, Draws, try_claim, is_running_status, mark_row, process_found, process_container,
  process_each, ensure_registry_record,
}
use agynio.Container.Termination.Marks.{round, round-other}

-- The same row, or the one that the claim of the running container leaves.
abbrev pub AtMostClaimed : String → ℕ → Option Row → Option Row → Type 0
AtMostClaimed claim now before after =
    (after ≡ before)
    ⊎ ((r : Row) × (before ≡ some r) × (is_running r ≡ true) × (after ≡ some (claimed claim now r)))

some-eq : (r r' : Row) → some r ≡ some r' → r ≡ r'
some-eq r r' h = ground (arith, h)

-- A claimed container does not run, so that a second claim leaves it alone.
claimed-once :
    (claim : String) (now : ℕ) (r r' : Row)
    → some (claimed claim now r) ≡ some r'
    → is_running r' ≡ false
claimed-once claim now r r' e =
    ap (λ (x : Row). is_running x) (sym (some-eq (claimed claim now r) r' e))

AtMostClaimed-trans :
    (claim : String) (now : ℕ) (a b c : Option Row)
    → AtMostClaimed claim now a b
    → AtMostClaimed claim now b c
    → AtMostClaimed claim now a c
AtMostClaimed-trans claim now a b c (inl e) (inl e') = inl (e' ∙ e)
AtMostClaimed-trans claim now a b c (inl e) (inr (r, at, runs, left)) =
    inr (r, sym e ∙ at, runs, left)
AtMostClaimed-trans claim now a b c (inr (r, at, runs, left)) (inl e') =
    inr (r, at, runs, e' ∙ left)
AtMostClaimed-trans claim now a b c (inr (r, at, runs, left)) (inr (r', at', runs', left')) =
    let off = claimed-once claim now r r' (sym left ∙ at') in cc

claim-AtMost :
    (id claim : String) (now : ℕ) (t : Table)
    → AtMostClaimed claim now
        (find_unique id t)
        (find_unique id (claim_for_termination id claim now t).1)
unfolding claim_for_termination
claim-AtMost id claim now t =
    rw (lookup-claim_write id claim (get_metadata id t) now t) (go (find_unique id t) refl)
  where
    write : Row → Row
    write r = record r {
      status = terminating;
      metadata = record (get_metadata id t) { claim_id = some claim };
    }

    claims :
        (r : Row) (b : Bool)
        → find_unique id t ≡ some r
        → is_claimable id r ≡ b
        → AtMostClaimed claim now
            (some r)
            (some (if b then record (write r) { updated_at = now } else r))
    claims r false found e = inl refl
    claims r true found e = inr (
      r,
      refl,
      ground (arith, e),
      ap
          (λ (m : Metadata). some (record r {
            status = terminating;
            updated_at = now;
            metadata = record m { claim_id = some claim };
          }))
          (get_metadata-found id t r found),
    )

    go :
        (o : Option Row)
        → find_unique id t ≡ o
        → AtMostClaimed claim now o (updated (is_claimable id) now write o)
    go none found = inl refl
    go (some r) found = claims r (is_claimable id r) found refl

module _ (draws : Draws) (now : ℕ) (cache : Assoc Cached) where
  try_claim-AtMost :
      (id : String) (t : Table) (status : ContainerStatus)
      → AtMostClaimed
          (draws.candidate id)
          now
          (find_unique id t)
          (find_unique id (try_claim draws id now t status).1)
  try_claim-AtMost id t status =
      elim (Bool-cases (is_running_status status && not (draws.claim_throws id))) [
        | inl y ↦ rw y (claim-AtMost id (draws.candidate id) now t)
        | inr n ↦ rw n (inl refl)
      ]

  found-AtMost :
      (id : String) (t : Table) (o : Option Cached)
      → draws.update_throws id ≡ true
      → AtMostClaimed
          (draws.candidate id)
          now
          (find_unique id t)
          (find_unique id (process_found draws id now t o))
  unfolding mark_row
  found-AtMost id t none throws = inl refl
  found-AtMost id t (some (status, m)) throws = rw throws (try_claim-AtMost id t status)

  round-AtMost :
      (id j : String) (t : Table)
      → draws.update_throws j ≡ true
      → AtMostClaimed
          (draws.candidate j)
          now
          (find_unique j t)
          (find_unique j (round draws now cache id t))
  unfolding process_container
  round-AtMost id j t throws = elim (Bool-cases (str_eq id j)) [
    | inr off ↦ inl (round-other draws now cache id j t off)
    | inl at ↦
        subst
          (λ k.
            AtMostClaimed (draws.candidate j) now (find_unique j t)
              (find_unique j (round draws now cache k t)))
          (sym ((eq_iff id j).0 at)) (here (str_eq j ""))
  ]
    where
      here :
          (blank : Bool)
          → AtMostClaimed
              (draws.candidate j)
              now
              (find_unique j t)
              (find_unique j (if blank then t else process_container draws cache now j t))
      here true = inl refl
      here false = found-AtMost j t (ensure_registry_record j cache t) throws

  pub each-AtMost :
      (ids : List String) (j : String) (t : Table)
      → draws.update_throws j ≡ true
      → AtMostClaimed
          (draws.candidate j)
          now
          (find_unique j t)
          (find_unique j (process_each draws cache now ids t))
  unfolding process_each
  each-AtMost [] j t throws = inl refl
  each-AtMost (id ∷ ids) j t throws =
      AtMostClaimed-trans (draws.candidate j) now (find_unique j t)
        (find_unique j (round draws now cache id t)) _ (round-AtMost id j t throws)
        (each-AtMost ids j (round draws now cache id t) throws)
