-- ===== src/Graph/Live/Apply/Phases.antt =====
-- The phases of an `apply`, by the templates of the live nodes that they leave.
use agynio.Prelude.{
  String, ◌≡◌, refl, Bool, true, false, Option, none, some, List, [], ◌∷◌, ◌∙◌, ap, sym, arith, has,
  All, str_eq, eq_iff, if◌then◌else◌, Assoc, lookup, Bool-cases, inl, inr, get_or,
}
use agynio.Graph.{NodeDef, EdgeDef}
use agynio.Graph.Ports.{Resolution, resolves, refuses, resolve_edge}
use agynio.Graph.Diff.Exact.{among}
use agynio.Graph.Live.{
  LiveNode, GraphRuntimeState, Answers, configure, set_live_config, instantiate_node, dispose_node,
  register_edge_record,
}
use agynio.Graph.Live.Apply.{
  Outcome, and_then, add_nodes, by_id, recreate, recreate_nodes, update_config, update_configs,
  dispose_nodes, connect_resolved, connect_live, execute_edge, add_edges,
}
use agynio.Graph.Live.Follows.{
  live_template, set_live-template, instantiate-template, dispose-template,
}

module _ {ℓ} {V : Type ℓ} where
  abbrev pub def_template : Option (NodeDef V) → Option String
  def_template none = none
  def_template (some n) = some n.template

module _ {ℓ} {V : Type ℓ} (answers : Answers V) (j : String) where
  -- If two phases succeed, the first does, and the second starts where it ended.
  pub and_then-done :
      (o : Outcome answers) (f : GraphRuntimeState V → Outcome answers)
      → (and_then answers o f).0 ≡ true
      → (o.0 ≡ true) × (and_then answers o f ≡ f o.1)
  and_then-done (true, s) f h = (refl, refl)
  and_then-done (false, s) f h = cc

  -- The template after the definitions with these ids have been instantiated.
  abbrev pub renewed : Bool → List (NodeDef V) → Option String → Option String
  renewed b next old = if b then def_template (by_id answers j next) else old

  renewed-template :
      (n : NodeDef V) (next ns : List (NodeDef V)) (old : Option String)
      → by_id answers n.id next ≡ some n
      → renewed
          (among (λ (n : NodeDef V). n.id) j ns)
          next
          (if str_eq n.id j then some n.template else old)
        ≡ renewed (among (λ (n : NodeDef V). n.id) j (n ∷ ns)) next old
  renewed-template n next ns old found = elim (Bool-cases (str_eq n.id j)) [
    | inr off ↦ rw off refl
    | inl at ↦
        let e : def_template (by_id answers j next) ≡ some n.template =
          ap (λ k. def_template (by_id answers k next)) (sym ((eq_iff n.id j).0 at))
          ∙ ap def_template found in
        rw (at, e) (ground arith)
  ]

  pub add_nodes-template :
      (next ns : List (NodeDef V)) (s : GraphRuntimeState V)
      → All (λ (n : NodeDef V). by_id answers n.id next ≡ some n) ns
      → (add_nodes answers ns s).0 ≡ true
      → live_template j (add_nodes answers ns s).1
        ≡ renewed (among (λ (n : NodeDef V). n.id) j ns) next (live_template j s)
  unfolding add_nodes
  add_nodes-template next [] s h done = refl
  add_nodes-template next (n ∷ ns) s h done =
      let (first, later) =
        and_then-done (instantiate_node answers n s) (add_nodes answers ns) done in
      let s' = (instantiate_node answers n s).1 in
      let rest =
        add_nodes-template next ns s' h.1 (sym (ap (λ (o : Outcome answers). o.0) later) ∙ done) in
      let here = instantiate-template j answers n s first in
      rw later (
        rest
        ∙ ap (renewed (among (λ (n : NodeDef V). n.id) j ns) next) here
        ∙ renewed-template n next ns (live_template j s) h.0)

  pub update_config-template :
      (s : GraphRuntimeState V) (id : String) (o : Option (NodeDef V))
      → live_template j (update_config answers s id o) ≡ live_template j s
  update_config-template s id none = refl
  update_config-template s id (some n) =
      go (configure answers id (answers.resolve id (get_or n.config [])))
    where
      go :
          (c : Option (Assoc V))
          → live_template j (elim c as (λ x. GraphRuntimeState V) [
            | none ↦ s
            | some cleaned ↦ set_live_config id (some cleaned) s (lookup id s.nodes)
          ])
            ≡ live_template j s
      go none = refl
      go (some cleaned) = set_live-template j id (some cleaned) s (lookup id s.nodes) refl

  pub update_configs-template :
      (next : List (NodeDef V)) (ids : List String) (s : GraphRuntimeState V)
      → live_template j (update_configs answers next ids s) ≡ live_template j s
  unfolding update_configs
  update_configs-template next [] s = refl
  update_configs-template next (id ∷ ids) s =
      update_configs-template next ids (update_config answers s id (by_id answers id next))
      ∙ update_config-template s id (by_id answers id next)

  pub dispose_nodes-template :
      (ids : List String) (s : GraphRuntimeState V)
      → live_template j (dispose_nodes answers ids s)
        ≡ (if has ids j then none else live_template j s)
  unfolding dispose_nodes
  dispose_nodes-template [] s = refl
  dispose_nodes-template (id ∷ ids) s = ground (
    arith,
    dispose_nodes-template ids (dispose_node answers id s),
    dispose-template j answers id s,
  )

  by_id-key :
      (id : String) (ns : List (NodeDef V)) (n : NodeDef V)
      → by_id answers id ns ≡ some n
      → str_eq n.id id ≡ true
  by_id-key id [] n e = cc
  by_id-key id (m ∷ ns) n e = elim (Bool-cases (str_eq m.id id)) [
    | inl at ↦ ground arith
    | inr off ↦ by_id-key id ns n (ground arith)
  ]

  recreate-template :
      (next : List (NodeDef V)) (id : String) (s : GraphRuntimeState V) (o : Option (NodeDef V))
      → by_id answers id next ≡ o
      → (recreate answers s o).0 ≡ true
      → live_template j (recreate answers s o).1
        ≡ (if str_eq id j then def_template o else live_template j s)
  recreate-template next id s none e done = cc
  recreate-template next id s (some n) e done =
      ground (arith, instantiate-template j answers n s done, by_id-key id next n e, eq_iff n.id id)

  recreated-template :
      (next : List (NodeDef V)) (id : String) (ids : List String) (disposed s : GraphRuntimeState V)
      → live_template j disposed ≡ (if str_eq id j then none else live_template j s)
      → renewed
          (has ids j)
          next
          (if str_eq id j then def_template (by_id answers id next) else live_template j disposed)
        ≡ renewed (has (id ∷ ids) j) next (live_template j s)
  recreated-template next id ids disposed s e = elim (Bool-cases (str_eq id j)) [
    | inr off ↦ simp (off, e)
    | inl at ↦
        let same : def_template (by_id answers id next) ≡ def_template (by_id answers j next) =
          ap (λ k. def_template (by_id answers k next)) ((eq_iff id j).0 at) in
        rw (at, same) (ground arith)
  ]

  pub recreate_nodes-template :
      (next : List (NodeDef V)) (ids : List String) (s : GraphRuntimeState V)
      → (recreate_nodes answers next ids s).0 ≡ true
      → live_template j (recreate_nodes answers next ids s).1
        ≡ renewed (has ids j) next (live_template j s)
  unfolding recreate_nodes
  recreate_nodes-template next [] s done = refl
  recreate_nodes-template next (id ∷ ids) s done =
      let disposed = dispose_node answers id s in
      let o = by_id answers id next in
      let (first, later) =
        and_then-done (recreate answers disposed o) (recreate_nodes answers next ids) done in
      let s' = (recreate answers disposed o).1 in
      let rest =
        recreate_nodes-template next ids s'
          (sym (ap (λ (o : Outcome answers). o.0) later) ∙ done) in
      let here = recreate-template next id disposed o refl first in
      rw later (
        rest
        ∙ ap (renewed (has ids j) next) here
        ∙ recreated-template next id ids disposed s (dispose-template j answers id s))

  -- Adding edges touches neither the nodes nor the snapshot.
  abbrev pub Same : GraphRuntimeState V → GraphRuntimeState V → Type ℓ
  Same t s = (t.nodes ≡ s.nodes) × (t.last_graph ≡ s.last_graph)

  connect-Same :
      (e : EdgeDef) (s : GraphRuntimeState V) (r : Resolution)
      → Same (connect_resolved answers e s r).1 s
  unfolding register_edge_record
  connect-Same e s (refuses x) = (refl, refl)
  connect-Same e s (resolves r) = elim (Bool-cases (answers.connect e)) [
    | inl y ↦ rw y (refl, refl)
    | inr n ↦ rw n (refl, refl)
  ]

  live-Same :
      (e : EdgeDef) (s : GraphRuntimeState V) (source target : Option (LiveNode V))
      → Same (connect_live answers e s source target).1 s
  live-Same e s none target = (refl, refl)
  live-Same e s (some source) none = (refl, refl)
  live-Same e s (some source) (some target) =
      connect-Same e s (resolve_edge e source.template target.template s.templates)

  and_then-Same :
      (o : Outcome answers) (f : GraphRuntimeState V → Outcome answers) (s : GraphRuntimeState V)
      → Same o.1 s
      → ((t : GraphRuntimeState V) → Same t s → Same (f t).1 s)
      → Same (and_then answers o f).1 s
  and_then-Same (true, t) f s e h = h t e
  and_then-Same (false, t) f s e h = e

  pub add_edges-Same :
      (es : List EdgeDef) (s : GraphRuntimeState V) → Same (add_edges answers es s).1 s
  unfolding add_edges execute_edge
  add_edges-Same [] s = (refl, refl)
  add_edges-Same (e ∷ es) s =
      and_then-Same (execute_edge answers e s) (add_edges answers es) s
        (live-Same e s (lookup e.source s.nodes) (lookup e.target s.nodes))
        (λ t same. ((add_edges-Same es t).0 ∙ same.0, (add_edges-Same es t).1 ∙ same.1))
