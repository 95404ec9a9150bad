-- ===== src/Graph/Live/Apply/Queue.antt =====
-- The queue of `apply` calls, which a failure ends for good.
use agynio.Prelude.{◌≡◌, refl, Bool, true, false, List, [], ◌∷◌, arith, Assoc, Bool-cases, inl, inr}
use agynio.Graph.{GraphDefinition}
use agynio.Graph.Live.{Answers}
use agynio.Graph.Live.Apply.{Runtime, apply}

module _ {ℓ} {V : Type ℓ} (configs_equal : Assoc V → Assoc V → Bool) where
  -- The outcomes of calls, each with what the outside answers during it.
  pub apply_all : List (Answers V × GraphDefinition V) → Runtime V → List Bool × Runtime V
  apply_all [] r = ([], r)
  apply_all ((answers, graph) ∷ calls) r =
      let (done, r') = apply configs_equal answers graph r in
      let (outcomes, r'') = apply_all calls r' in (done ∷ outcomes, r'')

  abbrev pub all_fail : List (Answers V × GraphDefinition V) → List Bool
  all_fail [] = []
  all_fail (c ∷ calls) = false ∷ all_fail calls

  apply-rejected :
      (answers : Answers V) (graph : GraphDefinition V) (r : Runtime V)
      → r.applying_rejected ≡ true
      → apply configs_equal answers graph r ≡ (false, r)
  unfolding apply
  apply-rejected answers graph r e = rw e refl

  rejected-stays :
      (calls : List (Answers V × GraphDefinition V)) (r : Runtime V)
      → r.applying_rejected ≡ true
      → apply_all calls r ≡ (all_fail calls, r)
  unfolding apply_all
  rejected-stays [] r e = refl
  rejected-stays ((answers, graph) ∷ calls) r e =
      rw (apply-rejected answers graph r e, rejected-stays calls r e) refl

  failed-rejects :
      (answers : Answers V) (graph : GraphDefinition V) (r : Runtime V)
      → (apply configs_equal answers graph r).0 ≡ false
      → (apply configs_equal answers graph r).1.applying_rejected ≡ true
  unfolding apply
  failed-rejects answers graph r failed = elim (Bool-cases r.applying_rejected) [
    | inl e ↦ rw e refl
    | inr e ↦ rw e (ground (arith, failed, e))
  ]

  -- After a call that fails, every later call fails, whatever its graph and the answers, and the nodes
  -- and edges stay as the failed call left them.
  pub failed_apply-stays :
      (answers : Answers V) (graph : GraphDefinition V)
      (calls : List (Answers V × GraphDefinition V)) (r : Runtime V)
      → (apply configs_equal answers graph r).0 ≡ false
      → (let left = (apply configs_equal answers graph r).1 in
          apply_all calls left ≡ (all_fail calls, left))
  failed_apply-stays answers graph calls r failed =
      rejected-stays calls (apply configs_equal answers graph r).1
        (failed-rejects answers graph r failed)
