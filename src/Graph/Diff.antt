-- ===== src/Graph/Diff.antt =====
-- The comparison of two graphs, `computeDiff` of graph-core/liveGraph.manager.ts. Configurations are
-- compared by `configs_equal`, in the source the equality of their JSON texts.
pub mod Exact
pub mod Fill
pub mod Tests
use agynio.Prelude.{
  String, Bool, true, false, not, Option, none, some, List, [], ◌∷◌, map, get_or, is_some, str_eq,
  if◌then◌else◌, Assoc, lookup, insert,
}
use agynio.Graph.{NodeDef, EdgeDef, GraphDefinition, edge_key}

module _ {ℓ} {A : Type ℓ} where
  -- `new Map(xs.map((x) => [key(x), x]))`, over a map that is there.
  unfoldable pub fill : (A → String) → List A → Assoc A → Assoc A
  fill key [] entries = entries
  fill key (x ∷ xs) entries = fill key xs (insert (key x) x entries)

  -- The entries of one map whose keys another does not have.
  unfoldable pub missing_from : Assoc A → Assoc A → List A
  missing_from other [] = []
  missing_from other (entry ∷ entries) =
      let rest = missing_from other entries in
      if is_some (lookup entry.0 other) then rest else entry.1 ∷ rest

module _ {ℓ} (V : Type ℓ) where
  pub record InternalDiffComputation : Type ℓ where
    pub added_nodes : List (NodeDef V)
    pub removed_node_ids : List String
    pub recreated_node_ids : List String
    pub config_update_node_ids : List String
    pub added_edges : List EdgeDef
    pub removed_edges : List EdgeDef

pub data Change : Type 0 where
  added recreated updated same : Change

pub record NodeChanges {ℓ} (V : Type ℓ) : Type ℓ where
  pub adds : List (NodeDef V)
  pub recreates : List String
  pub updates : List String

module _ {ℓ} {V : Type ℓ} (configs_equal : Assoc V → Assoc V → Bool) where
  -- One round of the loop over the next nodes, by the node that was there before.
  abbrev pub change_of : Option (NodeDef V) → NodeDef V → Change
  change_of none n = added
  change_of (some old) n =
      if not (str_eq old.template n.template)
      then recreated
      else if not (configs_equal (get_or old.config []) (get_or n.config []))
      then updated
      else same

  abbrev pub push_change : NodeDef V → Change → NodeChanges V → NodeChanges V
  push_change n added c = record c { adds = n ∷ c.adds }
  push_change n recreated c = record c { recreates = n.id ∷ c.recreates }
  push_change n updated c = record c { updates = n.id ∷ c.updates }
  push_change n same c = c

  unfoldable pub compare_nodes : Assoc (NodeDef V) → List (NodeDef V) → NodeChanges V
  compare_nodes prev [] = record { adds = []; recreates = []; updates = [] }
  compare_nodes prev (n ∷ ns) =
      push_change n (change_of (lookup n.id prev) n) (compare_nodes prev ns)

  unfoldable pub removed_ids : Assoc (NodeDef V) → List (NodeDef V) → List String
  removed_ids next [] = []
  removed_ids next (old ∷ olds) =
      let rest = removed_ids next olds in
      if is_some (lookup old.id next) then rest else old.id ∷ rest

  unfoldable pub compute_diff : GraphDefinition V → GraphDefinition V → InternalDiffComputation V
  compute_diff prev next =
      let prev_nodes = fill (λ (n : NodeDef V). n.id) prev.nodes [] in
      let next_nodes = fill (λ (n : NodeDef V). n.id) next.nodes [] in
      let prev_edges = fill edge_key prev.edges [] in
      let next_edges = fill edge_key next.edges [] in
      let changes = compare_nodes prev_nodes next.nodes in
      record {
        added_nodes = changes.adds;
        removed_node_ids = removed_ids next_nodes prev.nodes;
        recreated_node_ids = changes.recreates;
        config_update_node_ids = changes.updates;
        added_edges = missing_from prev_edges next_edges;
        removed_edges = missing_from next_edges prev_edges;
      }
