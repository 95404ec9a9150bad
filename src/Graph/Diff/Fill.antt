-- ===== src/Graph/Diff/Fill.antt =====
-- The map of a list of node definitions, and the definitions that a comparison adds.
use mathlib.Core.Path.{subst}
use agynio.Prelude.{
  String, ◌≡◌, ◌≢◌, refl, Bool, none, some, List, [], ◌∷◌, ◌∙◌, arith, find, All, str_eq, eq_iff,
  eq_refl, Assoc, lookup, insert, lookup-insert, Bool-cases, inl, inr,
}
use agynio.Graph.{NodeDef, GraphDefinition}
use agynio.Graph.Diff.{
  fill, Change, NodeChanges, push_change, change_of, compare_nodes, compute_diff, added, recreated,
  updated, same,
}
use agynio.Graph.Diff.Exact.{DistinctIds}

module _ {ℓ} {V : Type ℓ} where
  abbrev id_of : NodeDef V → String
  id_of n = n.id

  lookup-fill_other :
      (j : String) (ns : List (NodeDef V)) (entries : Assoc (NodeDef V))
      → All (λ (n : NodeDef V). n.id ≢ j) ns
      → lookup j (fill id_of ns entries) ≡ lookup j entries
  unfolding fill
  lookup-fill_other j [] entries h = refl
  lookup-fill_other j (n ∷ ns) entries h =
      lookup-fill_other j ns (insert n.id n entries) h.1
      ∙ ground (arith, lookup-insert n.id j n entries, h.0, eq_iff n.id j)

  -- With distinct ids the last definition is the first.
  pub lookup-fill_distinct :
      (j : String) (ns : List (NodeDef V)) (entries : Assoc (NodeDef V))
      → DistinctIds ns
      → lookup j entries ≡ none
      → lookup j (fill id_of ns entries) ≡ find (λ (n : NodeDef V). str_eq n.id j) ns
  unfolding fill
  lookup-fill_distinct j [] entries d e = e
  lookup-fill_distinct j (n ∷ ns) entries d e = elim (Bool-cases (str_eq n.id j)) [
    | inr off ↦ rw off (
        lookup-fill_distinct j ns (insert n.id n entries) d.1
          (ground (arith, lookup-insert n.id j n entries, e, off)))
    | inl at ↦
        let same : n.id ≡ j = (eq_iff n.id j).0 at in
        rw at (
          lookup-fill_other j ns (insert n.id n entries)
            (subst (λ k. All (λ (m : NodeDef V). m.id ≢ k) ns) same d.0)
          ∙ ground (arith, lookup-insert n.id j n entries, at))
  ]

  -- A definition that its id finds in a list.
  abbrev pub Found : List (NodeDef V) → NodeDef V → Type ℓ
  Found all n = find (λ (m : NodeDef V). str_eq m.id n.id) all ≡ some n

  Found-tail :
      (n : NodeDef V) (ns all : List (NodeDef V))
      → All (λ (m : NodeDef V). m.id ≢ n.id) ns
      → All (Found all) ns
      → All (Found (n ∷ all)) ns
  Found-tail n [] all ne h = tt
  Found-tail n (m ∷ ns) all ne h =
      (ground (arith, h.0, ne.0, eq_iff n.id m.id), Found-tail n ns all ne.1 h.1)

  pub distinct-Found : (ns : List (NodeDef V)) → DistinctIds ns → All (Found ns) ns
  distinct-Found [] d = tt
  distinct-Found (n ∷ ns) d =
      (rw (eq_refl n.id) refl, Found-tail n ns ns d.0 (distinct-Found ns d.1))

  module _ (configs_equal : Assoc V → Assoc V → Bool) (all : List (NodeDef V)) where
    push-Found :
        (n : NodeDef V) (ch : Change) (c : NodeChanges V)
        → Found all n
        → All (Found all) c.adds
        → All (Found all) (push_change configs_equal n ch c).adds
    push-Found n added c h hs = (h, hs)
    push-Found n recreated c h hs = hs
    push-Found n updated c h hs = hs
    push-Found n same c h hs = hs

    -- The definitions that a comparison adds are those of the list.
    pub added-Found :
        (prev : Assoc (NodeDef V)) (ns : List (NodeDef V))
        → All (Found all) ns
        → All (Found all) (compare_nodes configs_equal prev ns).adds
    unfolding compare_nodes
    added-Found prev [] h = tt
    added-Found prev (n ∷ ns) h =
        push-Found n (change_of configs_equal (lookup n.id prev) n)
          (compare_nodes configs_equal prev ns) h.0 (added-Found prev ns h.1)

    pub compute_diff-Found :
        (prev next : GraphDefinition V)
        → all ≡ next.nodes
        → DistinctIds all
        → All (Found all) (compute_diff configs_equal prev next).added_nodes
    unfolding compute_diff
    compute_diff-Found prev next e d =
        added-Found (fill id_of prev.nodes []) next.nodes
          (subst (λ ns. All (Found all) ns) e (distinct-Found all d))
