-- ===== src/Graph/Diff/Tests.antt =====
-- The comparison of graphs on a concrete input.
use agynio.Prelude.{
  String, ℕ, ◌≡◌, ◌≢◌, refl, Bool, true, false, none, some, List, [], ◌∷◌, Assoc, map, arith,
  str_eq, eq_iff,
}
use agynio.Graph.{NodeDef, EdgeDef, GraphDefinition, edge_key}
use agynio.Graph.Diff.{compute_diff, InternalDiffComputation}
use agynio.Graph.Diff.Exact.{Compares, DistinctIds, compute_diff-Compares}

abbrev defines : String → String → NodeDef ℕ
defines id template = record { id = id; template = template; config = none; state = none }

abbrev wire : EdgeDef
wire = record { source = "a"; source_handle = "tools"; target = "t"; target_handle = "self" }

abbrev before : GraphDefinition ℕ
before = record { nodes = defines "a" "agent" ∷ defines "t" "shell" ∷ []; edges = wire ∷ [] }

abbrev after : GraphDefinition ℕ
after = record { nodes = defines "a" "other" ∷ defines "m" "memory" ∷ []; edges = [] }

abbrev configs_equal : Assoc ℕ → Assoc ℕ → Bool
configs_equal a b = true

after-Distinct : DistinctIds after.nodes
after-Distinct = (((λ (e : "m" ≡ "a"). ground (arith, eq_iff "m" "a", e)), tt), (tt, tt))

compute_diff-Compares_example :
    Compares configs_equal before after (compute_diff configs_equal before after) "t"
compute_diff-Compares_example = compute_diff-Compares configs_equal before after "t" after-Distinct

edge_key-wire : edge_key wire ≡ "a:tools->t:self"
unfolding edge_key
edge_key-wire = refl

recreated-agent : (compute_diff configs_equal before after).recreated_node_ids ≡ "a" ∷ []
unfolding compute_diff agynio.Graph.Diff.compare_nodes agynio.Prelude.lookup agynio.Graph.Diff.fill
    agynio.Prelude.insert
recreated-agent = refl
