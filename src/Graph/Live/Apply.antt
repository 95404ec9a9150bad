-- ===== src/Graph/Live/Apply.antt =====
-- `_applyGraphInternal` of graph-core/liveGraph.manager.ts: its phases one after another, each of which
-- ends the call where it fails; and `apply`, which queues the calls.
pub mod Phases
pub mod Whole
pub mod Queue
pub mod Tests
use agynio.Prelude.{
  not, ◌+◌, String, Bool, true, false, Option, none, some, List, [], ◌∷◌, get_or, find, str_eq,
  if◌then◌else◌, Assoc, lookup,
}
use agynio.Graph.{NodeDef, EdgeDef, GraphDefinition, edge_key}
use agynio.Graph.Ports.{resolves, refuses, Resolution, resolve_edge}
use agynio.Graph.Diff.{InternalDiffComputation, compute_diff}
use agynio.Graph.Live.{
  not, LiveNode, ExecutedEdgeRecord, GraphRuntimeState, Answers, configure, set_live_config,
  instantiate_node, dispose_node, register_edge_record, reverse_keys,
}

abbrev record_of : EdgeDef → ExecutedEdgeRecord
record_of e = record {
  key = edge_key e;
  source = e.source;
  target = e.target;
  source_handle = e.source_handle;
  target_handle = e.target_handle;
}

module _ {ℓ} {V : Type ℓ} (answers : Answers V) where
  abbrev pub Outcome : Type ℓ
  Outcome = Bool × GraphRuntimeState V

  -- A phase runs only if the ones before it succeeded.
  abbrev pub and_then : Outcome → (GraphRuntimeState V → Outcome) → Outcome
  and_then (false, s) f = (false, s)
  and_then (true, s) f = f s

  pub add_nodes : List (NodeDef V) → GraphRuntimeState V → Outcome
  add_nodes [] s = (true, s)
  add_nodes (n ∷ ns) s = and_then (instantiate_node answers n s) (add_nodes ns)

  abbrev pub by_id : String → List (NodeDef V) → Option (NodeDef V)
  by_id id = find λ (n : NodeDef V). str_eq n.id id

  abbrev pub recreate : GraphRuntimeState V → Option (NodeDef V) → Outcome
  recreate s none = (false, s)
  recreate s (some n) = instantiate_node answers n s

  pub recreate_nodes : List (NodeDef V) → List String → GraphRuntimeState V → Outcome
  recreate_nodes next [] s = (true, s)
  recreate_nodes next (id ∷ ids) s =
      and_then (recreate (dispose_node answers id s) (by_id id next)) (recreate_nodes next ids)

  abbrev pub update_config : GraphRuntimeState V → String → Option (NodeDef V) → GraphRuntimeState V
  update_config s id none = s
  update_config s id (some n) =
      elim (configure answers id (answers.resolve id (get_or n.config []))) [
        | none ↦ s
        | some cleaned ↦ set_live_config id (some cleaned) s (lookup id s.nodes)
      ]

  pub update_configs : List (NodeDef V) → List String → GraphRuntimeState V → GraphRuntimeState V
  update_configs next [] s = s
  update_configs next (id ∷ ids) s = update_configs next ids (update_config s id (by_id id next))

  abbrev keys_of : List EdgeDef → List String
  keys_of [] = []
  keys_of (e ∷ es) = edge_key e ∷ keys_of es

  pub dispose_nodes : List String → GraphRuntimeState V → GraphRuntimeState V
  dispose_nodes [] s = s
  dispose_nodes (id ∷ ids) s = dispose_nodes ids (dispose_node answers id s)

  abbrev pub connect_resolved : EdgeDef → GraphRuntimeState V → Resolution → Outcome
  connect_resolved e s (refuses error) = (false, s)
  connect_resolved e s (resolves r) =
      if answers.connect e then (true, register_edge_record (record_of e) s) else (false, s)

  abbrev pub connect_live :
      EdgeDef → GraphRuntimeState V → Option (LiveNode V) → Option (LiveNode V) → Outcome
  connect_live e s none target = (true, s)
  connect_live e s (some source) none = (true, s)
  connect_live e s (some source) (some target) =
      connect_resolved e s (resolve_edge e source.template target.template s.templates)

  pub execute_edge : EdgeDef → GraphRuntimeState V → Outcome
  execute_edge e s = connect_live e s (lookup e.source s.nodes) (lookup e.target s.nodes)

  pub add_edges : List EdgeDef → GraphRuntimeState V → Outcome
  add_edges [] s = (true, s)
  add_edges (e ∷ es) s = and_then (execute_edge e s) (add_edges es)

  -- From the removal of edges on: the snapshot is set before edges are added.
  pub follow_edges : GraphDefinition V → InternalDiffComputation V → GraphRuntimeState V → Outcome
  follow_edges next diff s =
      let s' = reverse_keys answers (keys_of diff.removed_edges) s in
      let s'' = dispose_nodes diff.removed_node_ids s' in
      add_edges diff.added_edges (record s'' { last_graph = some next })

  abbrev pub count_version : GraphRuntimeState V → Outcome
  count_version s = (true, record s { version = s.version + 1 })

  abbrev pub empty_graph : GraphDefinition V
  empty_graph = record { nodes = []; edges = [] }

  pub apply_diff : GraphDefinition V → InternalDiffComputation V → GraphRuntimeState V → Outcome
  apply_diff next diff s =
      and_then
        (and_then
          (and_then (add_nodes diff.added_nodes s)
            (recreate_nodes next.nodes diff.recreated_node_ids))
          (λ s'. follow_edges next diff (update_configs next.nodes diff.config_update_node_ids s')))
        count_version

  pub apply_graph : (Assoc V → Assoc V → Bool) → GraphDefinition V → GraphRuntimeState V → Outcome
  apply_graph configs_equal next s =
      apply_diff next (compute_diff configs_equal (get_or s.last_graph empty_graph) next) s

-- `apply`, and the promise that it chains each call to: once that is rejected, it stays so, and no
-- later call runs.
pub record Runtime {ℓ} (V : Type ℓ) : Type ℓ where
  pub applying_rejected : Bool
  pub state : GraphRuntimeState V

module _ {ℓ} {V : Type ℓ} (configs_equal : Assoc V → Assoc V → Bool) where
  pub apply : Answers V → GraphDefinition V → Runtime V → Bool × Runtime V
  apply answers graph r =
      let (done, s) = apply_graph answers configs_equal graph r.state in
      if r.applying_rejected
      then (false, r)
      else (done, record { applying_rejected = not done; state = s })
