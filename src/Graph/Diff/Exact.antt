-- ===== src/Graph/Diff/Exact.antt =====
-- The comparison is exact: it names each node and edge key once for what happens to it.
use mathlib.Core.Path.{subst}
use agynio.Prelude.{
  ◌∙◌, if◌then◌else◌, get_or, Bool-cases, inl, inr, find, false, none, true, ◌≢◌, ◌≢◌, has, Option,
  String, ◌≡◌, refl, Bool, not, ◌&&◌, ◌||◌, List, [], ◌∷◌, arith, is_some, any, All, str_eq, eq_iff,
  Assoc, lookup, insert, lookup-insert,
}
use agynio.Graph.Diff.{
  same, edge_key, InternalDiffComputation, push_change, GraphDefinition, compute_diff, false,
  updated, recreated, true, change_of, none, added, some, NodeDef, compare_nodes, Change,
  NodeChanges, removed_ids, Option, fill, missing_from,
}

module _ {ℓ} {A : Type ℓ} (key : A → String) where
  -- The entries stand under their keys.
  abbrev pub Indexed : Assoc A → Type 0
  Indexed entries = All (λ (entry : String × A). key (entry.1) ≡ entry.0) entries

module _ {ℓ} {A : Type ℓ} (key : A → String) (j : String) where
  -- Whether an element with the key is there.
  abbrev pub among : List A → Bool
  among = any λ x. str_eq (key x) j

  pub has-fill :
      (xs : List A) (entries : Assoc A)
      → is_some (lookup j (fill key xs entries)) ≡ (among xs || is_some (lookup j entries))
  unfolding fill
  has-fill [] entries = refl
  has-fill (x ∷ xs) entries =
      ground (arith, has-fill xs (insert (key x) x entries), lookup-insert (key x) j x entries)

  among-missing :
      (other entries : Assoc A)
      → Indexed key entries
      → among (missing_from other entries)
        ≡ (is_some (lookup j entries) && not (is_some (lookup j other)))
  unfolding missing_from lookup
  among-missing other [] h = refl
  among-missing other (entry ∷ entries) h =
      ground (arith, among-missing other entries h.1, h.0, eq_iff entry.0 j)

module _ {ℓ} {A : Type ℓ} (key : A → String) where
  Indexed-insert :
      (x : A) (entries : Assoc A) → Indexed key entries → Indexed key (insert (key x) x entries)
  unfolding insert
  Indexed-insert x [] h = (refl, tt)
  Indexed-insert x (entry ∷ entries) h = ground (arith, Indexed-insert x entries h.1, h.0)

  Indexed-fill :
      (xs : List A) (entries : Assoc A) → Indexed key entries → Indexed key (fill key xs entries)
  unfolding fill
  Indexed-fill [] entries h = h
  Indexed-fill (x ∷ xs) entries h =
      Indexed-fill xs (insert (key x) x entries) (Indexed-insert x entries h)

  -- The keys of one list that the other lacks.
  missing-among :
      (j : String) (xs ys : List A)
      → among key j (missing_from (fill key ys []) (fill key xs []))
        ≡ (among key j xs && not (among key j ys))
  unfolding lookup
  missing-among j xs ys = ground (
    arith,
    among-missing key j (fill key ys []) (fill key xs []) (Indexed-fill xs [] tt),
    has-fill key j xs [],
    has-fill key j ys [],
  )

module _ {ℓ} {V : Type ℓ} where
  abbrev pub DistinctIds : List (NodeDef V) → Type 0
  DistinctIds [] = Unit
  DistinctIds (n ∷ ns) = All (λ (m : NodeDef V). m.id ≢ n.id) ns × DistinctIds ns

module _ {ℓ} {V : Type ℓ} (configs_equal : Assoc V → Assoc V → Bool) (j : String) where
  abbrev node_id : NodeDef V → String
  node_id n = n.id

  has-removed :
      (next : Assoc (NodeDef V)) (olds : List (NodeDef V))
      → has (removed_ids configs_equal next olds) j
        ≡ (among node_id j olds && not (is_some (lookup j next)))
  unfolding removed_ids
  has-removed next [] = refl
  has-removed next (old ∷ olds) = ground (arith, has-removed next olds, eq_iff old.id j)

  -- What happens to a node, by the definitions before and after.
  abbrev pub expected : Option (NodeDef V) → Option (NodeDef V) → Option Change
  expected old none = none
  expected old (some n) = some (change_of configs_equal old n)

  abbrev pub is_change : Change → Option Change → Bool
  is_change added (some added) = true
  is_change recreated (some recreated) = true
  is_change updated (some updated) = true
  is_change _ _ = false

  abbrev pub Exactly : NodeChanges V → Option Change → Type 0
  Exactly c e =
      (among node_id j c.adds ≡ is_change added e)
      × (has c.recreates j ≡ is_change recreated e)
      × (has c.updates j ≡ is_change updated e)

  push-other :
      (n : NodeDef V) (ch : Change) (c : NodeChanges V) (e : Option Change)
      → n.id ≢ j
      → Exactly c e
      → Exactly (push_change configs_equal n ch c) e
  push-other n added c e ne h = ground (arith, ne, h, eq_iff n.id j)
  push-other n recreated c e ne h = ground (arith, ne, h, eq_iff n.id j)
  push-other n updated c e ne h = ground (arith, ne, h, eq_iff n.id j)
  push-other n same c e ne h = h

  push-here :
      (n : NodeDef V) (ch : Change) (c : NodeChanges V)
      → n.id ≡ j
      → Exactly c none
      → Exactly (push_change configs_equal n ch c) (some ch)
  push-here n added c at h = ground (arith, at, h, eq_iff n.id j)
  push-here n recreated c at h = ground (arith, at, h, eq_iff n.id j)
  push-here n updated c at h = ground (arith, at, h, eq_iff n.id j)
  push-here n same c at h = h

  none-Exactly :
      (prev : Assoc (NodeDef V)) (ns : List (NodeDef V))
      → All (λ (n : NodeDef V). n.id ≢ j) ns
      → Exactly (compare_nodes configs_equal prev ns) none
  unfolding compare_nodes
  none-Exactly prev [] h = (refl, refl, refl)
  none-Exactly prev (n ∷ ns) h =
      push-other n (change_of configs_equal (lookup n.id prev) n)
        (compare_nodes configs_equal prev ns) none h.0 (none-Exactly prev ns h.1)

  nodes-Exactly :
      (prev : Assoc (NodeDef V)) (ns : List (NodeDef V))
      → DistinctIds ns
      → Exactly
          (compare_nodes configs_equal prev ns)
          (expected (lookup j prev) (find (λ n. str_eq n.id j) ns))
  unfolding compare_nodes
  nodes-Exactly prev [] d = (refl, refl, refl)
  nodes-Exactly prev (n ∷ ns) d = elim (Bool-cases (str_eq n.id j)) [
    | inr off ↦ rw off (
        push-other n (change_of configs_equal (lookup n.id prev) n)
          (compare_nodes configs_equal prev ns)
          (expected (lookup j prev) (find (λ n. str_eq n.id j) ns))
          (ground (arith, off, eq_iff n.id j)) (nodes-Exactly prev ns d.1))
    | inl at ↦
        let e : n.id ≡ j = (eq_iff n.id j).0 at in
        let here = change_of configs_equal (lookup n.id prev) n in
        let rest = compare_nodes configs_equal prev ns in
        rw at (
          subst
            (λ k.
              Exactly (push_change configs_equal n here rest)
                (some (change_of configs_equal (lookup k prev) n)))
            e
            (push-here n here rest e
              (none-Exactly prev ns (subst (λ k. All (λ (m : NodeDef V). m.id ≢ k) ns) e d.0))))
  ]

-- What is seen of a node by its definitions before and after.
module _ {ℓ} {V : Type ℓ} (configs_equal : Assoc V → Assoc V → Bool) where
  abbrev pub is_new : Option (NodeDef V) → Option (NodeDef V) → Bool
  is_new none (some n) = true
  is_new _ _ = false

  abbrev pub has_other_template : Option (NodeDef V) → Option (NodeDef V) → Bool
  has_other_template (some old) (some n) = not (str_eq old.template n.template)
  has_other_template _ _ = false

  abbrev pub has_only_other_config : Option (NodeDef V) → Option (NodeDef V) → Bool
  has_only_other_config (some old) (some n) =
      str_eq old.template n.template
      && not (configs_equal (get_or old.config []) (get_or n.config []))
  has_only_other_config _ _ = false

  module _ (j : String) where
    changes-seen :
        (old n : Option (NodeDef V))
        → (is_change configs_equal j added (expected configs_equal j old n) ≡ is_new old n)
          × (is_change configs_equal j recreated (expected configs_equal j old n)
              ≡ has_other_template old n)
          × (is_change configs_equal j updated (expected configs_equal j old n)
              ≡ has_only_other_config old n)
    changes-seen none none = (refl, refl, refl)
    changes-seen (some old) none = (refl, refl, refl)
    changes-seen none (some n) = (refl, refl, refl)
    changes-seen (some old) (some n) =
        go (str_eq old.template n.template)
          (configs_equal (get_or old.config []) (get_or n.config []))
      where
        kind : Bool → Bool → Change
        kind t c = if not t then recreated else if not c then updated else same

        go :
            (t c : Bool)
            → (is_change configs_equal j added (some (kind t c)) ≡ false)
              × (is_change configs_equal j recreated (some (kind t c)) ≡ not t)
              × (is_change configs_equal j updated (some (kind t c)) ≡ (t && not c))
        go false c = (refl, refl, refl)
        go true false = (refl, refl, refl)
        go true true = (refl, refl, refl)

abbrev pub node_before {ℓ} : {V : Type ℓ} → GraphDefinition V → String → Option (NodeDef V)
node_before {V = V} prev j = lookup j (fill (λ (n : NodeDef V). n.id) prev.nodes [])

abbrev pub node_after {ℓ} : {V : Type ℓ} → GraphDefinition V → String → Option (NodeDef V)
node_after {V = V} next j = find (λ (n : NodeDef V). str_eq n.id j) next.nodes

-- What the comparison says of one node id and of one edge key.
pub record Compares {ℓ} {V : Type ℓ} (configs_equal : Assoc V → Assoc V → Bool)
    (prev next : GraphDefinition V) (d : InternalDiffComputation V) (j : String) : Type ℓ where
  pub node_added :
      among (λ (n : NodeDef V). n.id) j d.added_nodes
      ≡ is_new configs_equal (node_before prev j) (node_after next j)
  pub node_recreated :
      has d.recreated_node_ids j
      ≡ has_other_template configs_equal (node_before prev j) (node_after next j)
  pub node_updated :
      has d.config_update_node_ids j
      ≡ has_only_other_config configs_equal (node_before prev j) (node_after next j)
  pub gone : has d.removed_node_ids j ≡ (
      among (λ (n : NodeDef V). n.id) j prev.nodes
      && not (among (λ (n : NodeDef V). n.id) j next.nodes))
  pub edge_added :
      among edge_key j d.added_edges
      ≡ (among edge_key j next.edges && not (among edge_key j prev.edges))
  pub edge_removed :
      among edge_key j d.removed_edges
      ≡ (among edge_key j prev.edges && not (among edge_key j next.edges))

-- For graphs of which the next one has distinct node ids, and any id or key: a node is added, removed,
-- recreated or reconfigured exactly if it is new, gone, of another template, or of the same template
-- with another configuration; an edge is added or removed exactly if its key is new or gone.
pub compute_diff-Compares {ℓ} :
    {V : Type ℓ} (configs_equal : Assoc V → Assoc V → Bool) (prev next : GraphDefinition V)
    (j : String)
    → DistinctIds next.nodes
    → Compares configs_equal prev next (compute_diff configs_equal prev next) j
unfolding compute_diff lookup
compute_diff-Compares {V = V} configs_equal prev next j distinct =
    let exact =
      nodes-Exactly configs_equal j (fill (λ (n : NodeDef V). n.id) prev.nodes []) next.nodes
        distinct in
    let seen = changes-seen configs_equal j (node_before prev j) (node_after next j) in
    record {
      node_added = exact.0 ∙ seen.0;
      node_recreated = exact.1 ∙ seen.1;
      node_updated = exact.2 ∙ seen.2;
      gone = ground (
        arith,
        has-removed configs_equal j (fill (λ (n : NodeDef V). n.id) next.nodes []) prev.nodes,
        has-fill (λ (n : NodeDef V). n.id) j next.nodes [],
      );
      edge_added = missing-among edge_key j next.edges prev.edges;
      edge_removed = missing-among edge_key j prev.edges next.edges;
    }
