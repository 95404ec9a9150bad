-- ===== src/Graph/Live/Apply/Tests.antt =====
-- The runtime on concrete inputs.
use agynio.Graph.Diff.{fill, compute_diff, compare_nodes, missing_from, removed_ids}
use agynio.Prelude.{
  insert, remove, String, ℕ, ◌≡◌, refl, Bool, true, false, none, some, List, [], ◌∷◌, Assoc, map,
  arith, str_eq, eq_iff, if◌then◌else◌, lookup,
}
use agynio.Graph.{NodeDef, EdgeDef, GraphDefinition, edge_key}
use agynio.Graph.Ports.{
  validate_template_instance, register_template_ports, resolve_edge, TemplatePortConfig, method,
  instance_port,
}
use agynio.Graph.Diff.Exact.{DistinctIds}
use agynio.Graph.Live.{
  instantiate_node, reverse_keys, register_edge_record, dispose_node, unregister_edge_record,
  GraphRuntimeState, Answers, SetReply, accepts, zod_error, strip_unknown,
}
use agynio.Graph.Live.Strip.{Stripped, strip_unknown-Stripped}
use agynio.Graph.Live.Apply.{
  apply_diff, add_nodes, recreate_nodes, follow_edges, add_edges, execute_edge, dispose_nodes,
  update_configs, apply_graph, Runtime, apply,
}
use agynio.Graph.Live.Apply.Whole.{Matches, Applied, apply_graph-Applied}
use agynio.Graph.Live.Apply.Queue.{apply_all, all_fail, failed_apply-stays}

abbrev defines : String → String → NodeDef ℕ
defines id template = record { id = id; template = template; config = none; state = none }

abbrev wire : EdgeDef
wire = record { source = "a"; source_handle = "tools"; target = "t"; target_handle = "self" }

abbrev graph : String → GraphDefinition ℕ
graph tool = record { nodes = defines "a" "agent" ∷ defines "t" tool ∷ []; edges = wire ∷ [] }

-- Agents call tools; everything works.
abbrev ports : String → TemplatePortConfig
ports template =
    if str_eq template "agent"
    then record { source_ports = some (("tools", method "addTool" none) ∷ []); target_ports = none }
    else record { source_ports = none; target_ports = some (("self", instance_port) ∷ []) }

abbrev answers : Answers ℕ
answers = record {
  create = λ n. some (record { port_config = some (ports n.template); has_method = λ name. true });
  resolve = λ id cfg. some cfg;
  set_config = λ id cfg. accepts;
  set_state = λ n. true;
  connect = λ e. true;
  reverse = λ rec. true;
}

abbrev configs_equal : Assoc ℕ → Assoc ℕ → Bool
configs_equal a b = true

apply_working : GraphDefinition ℕ → GraphRuntimeState ℕ → Bool × GraphRuntimeState ℕ
unfolding lookup fill apply_graph apply_diff add_nodes compute_diff compare_nodes instantiate_node
    validate_template_instance register_template_ports insert recreate_nodes follow_edges add_edges
    missing_from execute_edge dispose_nodes removed_ids reverse_keys update_configs resolve_edge
    register_edge_record edge_key dispose_node unregister_edge_record remove apply strip_unknown
apply_working = apply_graph answers configs_equal

abbrev idle : GraphRuntimeState ℕ
idle = record {
  nodes = [];
  executed_edges = [];
  inbound_edges = [];
  outbound_edges = [];
  version = 0;
  last_graph = none;
  templates = [];
}

idle-Matches : Matches idle
unfolding apply_working
idle-Matches j = refl

shell-Distinct : DistinctIds (graph "shell").nodes
shell-Distinct = (((λ (e : "t" ≡ "a"). ground (arith, eq_iff "t" "a", e)), tt), (tt, tt))

first-done : (apply_graph answers configs_equal (graph "shell") idle).0 ≡ true
unfolding apply_working
first-done = refl

apply_graph-Applied_example :
    Applied answers configs_equal
      (graph "shell")
      (apply_graph answers configs_equal (graph "shell") idle).1
apply_graph-Applied_example =
    apply_graph-Applied answers configs_equal (graph "shell") idle idle-Matches shell-Distinct
      first-done

abbrev edges_after : List (GraphDefinition ℕ) → GraphRuntimeState ℕ → List String
edges_after [] s = map (λ (entry : String × _). entry.0) s.executed_edges
edges_after (g ∷ gs) s = edges_after gs (apply_working g s).1

edges-shell : edges_after (graph "shell" ∷ []) idle ≡ "a:tools->t:self" ∷ []
unfolding apply_working
edges-shell = refl

-- A node of another template takes the place of the old one, and its unchanged edge is lost.
edges-recreated : edges_after (graph "shell" ∷ graph "mcp" ∷ []) idle ≡ []
unfolding apply_working
edges-recreated = refl

abbrev broken : Answers ℕ
broken = record answers { create = λ n. none }

abbrev ready : Runtime ℕ
ready = record { applying_rejected = false; state = idle }

broken-fails : (apply configs_equal broken (graph "shell") ready).0 ≡ false
unfolding apply_working
broken-fails = refl

failed_apply-stays_example :
    let left = (apply configs_equal broken (graph "shell") ready).1 in
    apply_all configs_equal ((answers, graph "shell") ∷ []) left
    ≡ (all_fail configs_equal ((answers, graph "shell") ∷ []), left)
failed_apply-stays_example =
    failed_apply-stays configs_equal broken (graph "shell") ((answers, graph "shell") ∷ []) ready
      broken-fails

-- A node that takes no key "x".
abbrev strict : Assoc ℕ → SetReply
strict [] = accepts
strict (entry ∷ cfg) =
    if str_eq entry.0 "x"
    then zod_error (record { is_unrecognized = true; path = some []; keys = "x" ∷ [] } ∷ [])
    else accepts

strict-strips : strip_unknown strict 3 (("x", 1) ∷ ("y", 2) ∷ []) ≡ some (("y", 2) ∷ [])
unfolding apply_working
strict-strips = refl

abbrev given : Assoc ℕ
given = ("x", 1) ∷ ("y", 2) ∷ []

abbrev stripped : Assoc ℕ
stripped = ("y", 2) ∷ []

strip_unknown-Stripped_example : (strict stripped ≡ accepts) × Stripped strict stripped given
strip_unknown-Stripped_example = strip_unknown-Stripped strict 3 given stripped strict-strips
