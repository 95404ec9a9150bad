-- ===== src/Graph/Live/Apply/Whole.antt =====
-- A whole `apply` that succeeds.
use agynio.Prelude.{
  not, ◌&&◌, String, ◌≡◌, refl, sym, Bool, true, Option, none, some, List, [], ◌∷◌, ◌∙◌, ap, arith,
  has, All, eq_iff, if◌then◌else◌, Assoc, lookup, is_some, get_or,
}
use agynio.Graph.{NodeDef, GraphDefinition}
use agynio.Graph.Diff.{fill, InternalDiffComputation, compute_diff}
use agynio.Graph.Diff.Fill.{lookup-fill_distinct, compute_diff-Found}
use agynio.Graph.Diff.Exact.{
  among, has-fill, DistinctIds, Compares, compute_diff-Compares, is_new, has_other_template,
}
use agynio.Graph.Live.{GraphRuntimeState, Answers, reverse_keys}
use agynio.Graph.Live.Follows.{live_template, template_of, reversed-nodes}
use agynio.Graph.Live.Apply.{
  Outcome, and_then, add_nodes, by_id, recreate_nodes, update_configs, dispose_nodes, follow_edges,
  keys_of, apply_diff, apply_graph, count_version,
}
use agynio.Graph.Live.Apply.Phases.{
  def_template, and_then-done, renewed, add_nodes-template, update_configs-template,
  dispose_nodes-template, recreate_nodes-template, add_edges-Same,
}

module _ {ℓ} {V : Type ℓ} where
  abbrev id_of : NodeDef V → String
  id_of n = n.id

  -- The template that a graph gives an id: that of its last definition, where it has several.
  abbrev pub graph_template : String → GraphDefinition V → Option String
  graph_template j g = def_template (lookup j (fill id_of g.nodes []))

  abbrev pub graph_of : Option (GraphDefinition V) → GraphDefinition V
  graph_of o = get_or o (record { nodes = []; edges = [] })

  -- The live nodes are those of the last graph.
  abbrev pub Matches : GraphRuntimeState V → Type 0
  Matches s = (j : String) → live_template j s ≡ graph_template j (graph_of s.last_graph)

  empty-lookup : (j : String) → lookup {V = NodeDef V} j [] ≡ none
  unfolding lookup
  empty-lookup j = refl

module _ {ℓ} {V : Type ℓ} (answers : Answers V) (configs_equal : Assoc V → Assoc V → Bool) where
  -- The template that the phases leave is the next graph's.
  combined :
      (old new : Option (NodeDef V)) (gone adds recs before after : Bool) (live : Option String)
      → is_some old ≡ before
      → is_some new ≡ after
      → gone ≡ (before && not after)
      → adds ≡ is_new configs_equal old new
      → recs ≡ has_other_template configs_equal old new
      → live ≡ def_template old
      → (if gone
          then none
          else if recs
          then def_template new
          else if adds
          then def_template new
          else live)
        ≡ def_template new
  combined none none gone adds recs before after live p q g a r l = ground (arith, p, q, g, a, r, l)
  combined none (some n) gone adds recs before after live p q g a r l =
      ground (arith, p, q, g, a, r, l)
  combined (some o) none gone adds recs before after live p q g a r l =
      ground (arith, p, q, g, a, r, l)
  combined (some o) (some n) gone adds recs before after live p q g a r l =
      ground (arith, p, q, g, a, r, l, eq_iff o.template n.template)

  found-among :
      (j : String) (ns : List (NodeDef V)) → is_some (by_id answers j ns) ≡ among id_of j ns
  found-among j [] = refl
  found-among j (n ∷ ns) = ground (arith, found-among j ns)

  filled-among :
      (j : String) (ns : List (NodeDef V))
      → is_some (lookup j (fill id_of ns [])) ≡ among id_of j ns
  unfolding lookup
  filled-among j ns = ground (arith, has-fill id_of j ns [])

  combine :
      (j : String) (prev next : GraphDefinition V) (d : InternalDiffComputation V)
      (s : GraphRuntimeState V)
      → Compares configs_equal prev next d j
      → live_template j s ≡ graph_template j prev
      → (if has d.removed_node_ids j
          then none
          else renewed answers j
              (has d.recreated_node_ids j)
              next.nodes
              (renewed answers j (among id_of j d.added_nodes) next.nodes (live_template j s)))
        ≡ def_template (by_id answers j next.nodes)
  combine j prev next d s c m =
      combined (lookup j (fill id_of prev.nodes [])) (by_id answers j next.nodes)
        (has d.removed_node_ids j) (among id_of j d.added_nodes) (has d.recreated_node_ids j)
        (among id_of j prev.nodes) (among id_of j next.nodes) (live_template j s)
        (filled-among j prev.nodes) (found-among j next.nodes) c.gone c.node_added c.node_recreated
        m

  follow-template :
      (j : String) (next : GraphDefinition V) (d : InternalDiffComputation V)
      (s : GraphRuntimeState V)
      → live_template j (follow_edges answers next d s).1
        ≡ (if has d.removed_node_ids j then none else live_template j s)
  unfolding follow_edges
  follow-template j next d s =
      let reversed = reverse_keys answers (keys_of answers d.removed_edges) s in
      let disposed = dispose_nodes answers d.removed_node_ids reversed in
      ap (λ nodes. template_of j (lookup j nodes))
        (add_edges-Same answers j d.added_edges (record disposed { last_graph = some next })).0
      ∙ dispose_nodes-template answers j d.removed_node_ids reversed
      ∙ ap (λ nodes. if has d.removed_node_ids j then none else template_of j (lookup j nodes))
          (reversed-nodes j answers (keys_of answers d.removed_edges) s)

  follow-snapshot :
      (next : GraphDefinition V) (d : InternalDiffComputation V) (s : GraphRuntimeState V)
      → (follow_edges answers next d s).1.last_graph ≡ some next
  unfolding follow_edges
  follow-snapshot next d s =
      let reversed = reverse_keys answers (keys_of answers d.removed_edges) s in
      let disposed = dispose_nodes answers d.removed_node_ids reversed in
      (add_edges-Same answers "" d.added_edges (record disposed { last_graph = some next })).1

  -- What a successful `apply` leaves.
  abbrev pub Applied : GraphDefinition V → GraphRuntimeState V → Type ℓ
  Applied next s = Matches s × (s.last_graph ≡ some next)

  diff-template :
      (j : String) (next : GraphDefinition V) (d : InternalDiffComputation V)
      (s : GraphRuntimeState V)
      → All (λ (n : NodeDef V). by_id answers n.id next.nodes ≡ some n) d.added_nodes
      → (apply_diff answers next d s).0 ≡ true
      → (live_template j (apply_diff answers next d s).1 ≡ (
          if has d.removed_node_ids j
          then none
          else renewed answers j
              (has d.recreated_node_ids j)
              next.nodes
              (renewed answers j (among id_of j d.added_nodes) next.nodes (live_template j s))))
        × ((apply_diff answers next d s).1.last_graph ≡ some next)
  unfolding apply_diff
  diff-template j next d s found done =
      let adding = add_nodes answers d.added_nodes s in
      let renewing =
        and_then answers adding (recreate_nodes answers next.nodes d.recreated_node_ids) in
      let following = and_then answers renewing (λ s'.
        follow_edges answers next d
          (update_configs answers next.nodes d.config_update_node_ids s')) in
      let (counted, to_count) = and_then-done answers j following (count_version answers) done in
      let (renews, to_follow) = and_then-done answers j renewing _ counted in
      let (adds, to_renew) = and_then-done answers j adding _ renews in
      let updating = update_configs answers next.nodes d.config_update_node_ids renewing.1 in
      let ids = d.recreated_node_ids in
      (
        ap (λ (o : Outcome answers). live_template j o.1) to_count
            ∙ ap (λ (o : Outcome answers). live_template j o.1) to_follow
            ∙ follow-template j next d updating
            ∙ ap (λ x. if has d.removed_node_ids j then none else x)
                (update_configs-template answers j next.nodes d.config_update_node_ids renewing.1
                  ∙ ap (λ (o : Outcome answers). live_template j o.1) to_renew
                  ∙ recreate_nodes-template answers j next.nodes ids adding.1
                      (sym (ap (λ (o : Outcome answers). o.0) to_renew) ∙ renews)
                  ∙ ap (renewed answers j (has ids j) next.nodes)
                      (add_nodes-template answers j next.nodes d.added_nodes s found adds)),
        ap (λ (o : Outcome answers). o.1.last_graph) to_count
            ∙ ap (λ (o : Outcome answers). o.1.last_graph) to_follow
            ∙ follow-snapshot next d updating,
      )

  -- From a state whose live nodes are those of its last graph, for a graph with distinct node ids and
  -- any answers of node classes, schemas, references and edges: an `apply` that succeeds leaves exactly
  -- the nodes of the graph alive, each with the graph's template, and the graph as the last one.
  pub apply_graph-Applied :
      (next : GraphDefinition V) (s : GraphRuntimeState V)
      → Matches s
      → DistinctIds next.nodes
      → (apply_graph answers configs_equal next s).0 ≡ true
      → Applied next (apply_graph answers configs_equal next s).1
  unfolding apply_graph
  apply_graph-Applied next s m distinct done =
      let prev = graph_of s.last_graph in
      let d = compute_diff configs_equal prev next in
      let found = compute_diff-Found configs_equal next.nodes prev next refl distinct in
      let last = (diff-template "" next d s found done).1 in
      (
        λ j.
            (diff-template j next d s found done).0
            ∙ combine j prev next d s (compute_diff-Compares configs_equal prev next j distinct)
                (m j)
            ∙ sym (
                ap (λ o. graph_template j (graph_of o)) last
                ∙ ap def_template (lookup-fill_distinct j next.nodes [] distinct (empty-lookup j))),
        last,
      )
