-- ===== src/Graph.antt =====
-- The graph that the runtime executes: shared/types/graph.types.ts and graph/liveGraph.types.ts of the
-- platform server. A configuration is an object whose values are of a type `V`.
pub mod Ports
pub mod Diff
pub mod Live
use Prim.Native.String.{◌++◌ as then}
use agynio.Prelude.{String, Option, List, Assoc}

pub record NodeDef {ℓ} (V : Type ℓ) : Type ℓ where
  pub id : String
  pub template : String
  pub config : Option (Assoc V)
  pub state : Option V

pub record EdgeDef : Type 0 where
  pub source : String
  pub source_handle : String
  pub target : String
  pub target_handle : String

pub record GraphDefinition {ℓ} (V : Type ℓ) : Type ℓ where
  pub nodes : List (NodeDef V)
  pub edges : List EdgeDef

-- `edgeKey`
unfoldable pub edge_key : EdgeDef → String
edge_key e =
    then e.source
      (then ":" (then e.source_handle (then "->" (then e.target (then ":" e.target_handle)))))
