-- ===== src/Graph/Live/Follows.antt =====
-- After an `apply` that succeeds, the live nodes are those of the graph, with the graph's templates.
use agynio.Prelude.{
  ◌++◌, Bool-cases, Option-cases, inl, inr, String, ◌≡◌, refl, Bool, true, false, Option, none,
  some, List, [], ◌∷◌, ◌∙◌, ap, arith, str_eq, eq_iff, if◌then◌else◌, Assoc, lookup, insert,
  lookup-insert, lookup-remove, get_or,
}
use agynio.Graph.{NodeDef}
use agynio.Graph.Ports.{TemplatePortConfig}
use agynio.Graph.Live.{
  with_port_config, ExecutedEdgeRecord, LiveNode, GraphRuntimeState, Answers, Created, configure,
  set_live_config, configure_new, with_ports, place, instantiate_node, reverse_found, reverse_keys,
  dispose_node, unregister_edge_record,
}

module _ {ℓ} {V : Type ℓ} (j : String) where
  abbrev pub template_of : Option (LiveNode V) → Option String
  template_of none = none
  template_of (some live) = some live.template

  -- The template of the live node with the id.
  abbrev pub live_template : GraphRuntimeState V → Option String
  live_template s = template_of (lookup j s.nodes)

  pub set_live-template :
      (id : String) (cfg : Option (Assoc V)) (s : GraphRuntimeState V) (o : Option (LiveNode V))
      → lookup id s.nodes ≡ o
      → live_template (set_live_config id cfg s o) ≡ live_template s
  set_live-template id cfg s none e = refl
  set_live-template id cfg s (some live) e =
      ground (arith, e, eq_iff id j, lookup-insert id j (record live { config = cfg }) s.nodes)

  module _ (answers : Answers V) where
    configured-template :
        (n : NodeDef V) (s : GraphRuntimeState V) (o : Option (Assoc V))
        → live_template (configure_new answers n s o).1 ≡ live_template s
    configured-template n s none = refl
    configured-template n s (some cfg) = go (configure answers n.id (answers.resolve n.id cfg))
      where
        go :
            (c : Option (Assoc V))
            → live_template
                (elim c as (λ x. Bool × GraphRuntimeState V) [
                  | none ↦ (false, s)
                  | some cleaned ↦ (
                    answers.set_state n,
                    set_live_config n.id (some cleaned) s (lookup n.id s.nodes),
                  )
                ]).1
              ≡ live_template s
        go none = refl
        go (some cleaned) = set_live-template n.id (some cleaned) s (lookup n.id s.nodes) refl

    ports-nodes :
        (n : NodeDef V) (has_method : String → Bool) (s : GraphRuntimeState V)
        (o : Option TemplatePortConfig)
        → (with_port_config n has_method s o).1.nodes ≡ s.nodes
    ports-nodes n has_method s none = refl
    ports-nodes n has_method s (some cfg) = refl

    place-template :
        (n : NodeDef V) (s : GraphRuntimeState V) (o : Option Created)
        → (place answers n s o).0 ≡ true
        → live_template (place answers n s o).1
          ≡ (if str_eq n.id j then some n.template else live_template s)
    place-template n s none done = cc
    place-template n s (some c) done =
        let (fits, s') = with_ports n c s in
        let same : s'.nodes ≡ s.nodes = ports-nodes n c.has_method s c.port_config in
        let live : LiveNode V = record { template = n.template; config = n.config } in
        let placed : GraphRuntimeState V = record s' { nodes = insert n.id live s'.nodes } in
        elim (Bool-cases fits) [
          | inr off ↦ ground (arith, off, done)
          | inl fit ↦ rw fit (
              configured-template n placed n.config
              ∙ ap template_of (lookup-insert n.id j live s'.nodes)
              ∙ found n live s'.nodes s same)
        ]
      where
        found :
            (n : NodeDef V) (live : LiveNode V) (nodes : Assoc (LiveNode V))
            (s : GraphRuntimeState V)
            → nodes ≡ s.nodes
            → template_of (if str_eq n.id j then some live else lookup j nodes)
              ≡ (if str_eq n.id j then some live.template else live_template s)
        found n live nodes s same = rw same (ground arith)

    pub instantiate-template :
        (n : NodeDef V) (s : GraphRuntimeState V)
        → (instantiate_node answers n s).0 ≡ true
        → live_template (instantiate_node answers n s).1
          ≡ (if str_eq n.id j then some n.template else live_template s)
    unfolding instantiate_node
    instantiate-template n s done = place-template n s (answers.create n) done

    found-nodes :
        (s : GraphRuntimeState V) (o : Option ExecutedEdgeRecord)
        → (reverse_found answers s o).nodes ≡ s.nodes
    unfolding unregister_edge_record
    found-nodes s none = refl
    found-nodes s (some rec) = elim (Bool-cases (answers.reverse rec)) [
      | inl y ↦ rw y refl
      | inr n ↦ rw n refl
    ]

    pub reversed-nodes :
        (keys : List String) (s : GraphRuntimeState V)
        → (reverse_keys answers keys s).nodes ≡ s.nodes
    unfolding reverse_keys
    reversed-nodes [] s = refl
    reversed-nodes (key ∷ keys) s =
        reversed-nodes keys (reverse_found answers s (lookup key s.executed_edges))
        ∙ found-nodes s (lookup key s.executed_edges)

    pub dispose-template :
        (id : String) (s : GraphRuntimeState V)
        → live_template (dispose_node answers id s)
          ≡ (if str_eq id j then none else live_template s)
    unfolding dispose_node
    dispose-template id s =
        let keys =
          get_or (lookup id s.inbound_edges) [] ++ get_or (lookup id s.outbound_edges) [] in
        let nodes : Assoc (LiveNode V) = (reverse_keys answers keys s).nodes in
        elim (Option-cases (lookup id s.nodes)) [
          | inl gone ↦ rw gone (ground (arith, gone, eq_iff id j))
          | inr (live, found) ↦
              rw found (
                ap template_of (lookup-remove id j nodes) ∙ rest id nodes s (reversed-nodes keys s))
        ]
      where
        rest :
            (id : String) (nodes : Assoc (LiveNode V)) (s : GraphRuntimeState V)
            → nodes ≡ s.nodes
            → template_of (if str_eq id j then none else lookup j nodes)
              ≡ (if str_eq id j then none else live_template s)
        rest id nodes s same = rw same (ground arith)
