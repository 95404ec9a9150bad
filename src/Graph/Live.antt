-- ===== src/Graph/Live.antt =====
-- graph-core/liveGraph.manager.ts: the runtime that makes its live nodes and edges follow a graph. What
-- node classes, configuration schemas and references answer is asked of `Answers`; within one `apply`
-- a question has one answer. The live instances themselves, their status listeners and the log lines
-- are left out, and so is their provisioning, which never fails.
pub mod Apply
pub mod Follows
pub mod Strip
use agynio.Prelude.{
  ℕ, zero, suc, ◌+◌, String, Bool, true, false, not, ◌&&◌, ◌||◌, Option, none, some, List, [], ◌∷◌,
  ◌++◌, get_or, is_some, has, filter, find, str_eq, if◌then◌else◌, Assoc, lookup, insert, remove,
}
use agynio.Graph.{NodeDef, EdgeDef, GraphDefinition, edge_key}
use agynio.Graph.Ports.{
  TemplatePortConfig, TemplatePortsRegistry, register_template_ports, validate_template_instance,
  Resolution, resolves, refuses, resolve_edge,
}

pub record LiveNode {ℓ} (V : Type ℓ) : Type ℓ where
  pub template : String
  pub config : Option (Assoc V)

pub record ExecutedEdgeRecord : Type 0 where
  pub key : String
  pub source : String
  pub target : String
  pub source_handle : String
  pub target_handle : String

pub record GraphRuntimeState {ℓ} (V : Type ℓ) : Type ℓ where
  pub nodes : Assoc (LiveNode V)
  pub executed_edges : Assoc ExecutedEdgeRecord
  pub inbound_edges : Assoc (List String)
  pub outbound_edges : Assoc (List String)
  pub version : ℕ
  pub last_graph : Option (GraphDefinition V)
  pub templates : TemplatePortsRegistry

-- One issue of a `ZodError`: whether its code is unrecognized_keys, its path if it has one, its keys.
pub record ZodIssue : Type 0 where
  pub is_unrecognized : Bool
  pub path : Option (List String)
  pub keys : List String

-- What `setConfig` does with a configuration.
pub data SetReply : Type 0 where
  accepts : SetReply
  zod_error : List ZodIssue → SetReply
  other_error : SetReply

-- A new instance: its ports, if it declares any, and its methods.
pub record Created : Type 0 where
  pub port_config : Option TemplatePortConfig
  pub has_method : String → Bool

pub record Answers {ℓ} (V : Type ℓ) : Type ℓ where
  pub create : NodeDef V → Option Created
  pub resolve : String → Assoc V → Option (Assoc V)
  pub set_config : String → Assoc V → SetReply
  pub set_state : NodeDef V → Bool
  pub connect : EdgeDef → Bool
  pub reverse : ExecutedEdgeRecord → Bool

abbrev pub is_root : Option (List String) → Bool
is_root none = true
is_root (some []) = true
is_root (some (x ∷ path)) = false

pub extract_unknown_root_keys : List ZodIssue → List String
extract_unknown_root_keys [] = []
extract_unknown_root_keys (i ∷ issues) =
    let rest = extract_unknown_root_keys issues in
    if i.is_unrecognized && is_root i.path then i.keys ++ rest else rest

abbrev drop_key : String → String → Assoc (List String) → Assoc (List String)
drop_key id key index = elim (lookup id index) [
  | none ↦ index
  | some keys ↦ insert id (filter (λ k. not (str_eq k key)) keys) index
]

abbrev add_key : String → String → Assoc (List String) → Assoc (List String)
add_key id key index =
    let keys = get_or (lookup id index) [] in
    insert id (if has keys key then keys else keys ++ key ∷ []) index

module _ {ℓ} {V : Type ℓ} where
  abbrev pub prune_keys : Assoc V → List String → Assoc V
  prune_keys obj keys = filter (λ entry. not (has keys entry.0)) obj

  -- What follows an attempt: without unknown keys there is nothing to strip.
  abbrev pub unless_none : List String → Option (Assoc V) → Option (Assoc V)
  unless_none [] next = none
  unless_none (k ∷ ks) next = next

  abbrev pub after_try : Assoc V → (List String → Option (Assoc V)) → SetReply → Option (Assoc V)
  after_try current retry accepts = some current
  after_try current retry other_error = none
  after_try current retry (zod_error issues) =
      let keys = extract_unknown_root_keys issues in unless_none keys (retry keys)

  -- The loop, with the retries that are left; `none` is the error.
  pub strip_unknown : (Assoc V → SetReply) → ℕ → Assoc V → Option (Assoc V)
  unfolding extract_unknown_root_keys
  strip_unknown set zero current = after_try current (λ keys. none) (set current)
  strip_unknown set (suc retries) current =
      after_try current (λ keys. strip_unknown set retries (prune_keys current keys)) (set current)

  pub apply_config_with_unknown_key_stripping : Answers V → String → Assoc V → Option (Assoc V)
  unfolding strip_unknown
  apply_config_with_unknown_key_stripping answers id cfg =
      strip_unknown (answers.set_config id) 3 cfg

  -- Resolving the references of a configuration, and applying it.
  abbrev pub configure : Answers V → String → Option (Assoc V) → Option (Assoc V)
  configure answers id none = none
  configure answers id (some resolved) = apply_config_with_unknown_key_stripping answers id resolved

  abbrev pub set_live_config :
      String → Option (Assoc V) → GraphRuntimeState V → Option (LiveNode V) → GraphRuntimeState V
  set_live_config id cfg s none = s
  set_live_config id cfg s (some live) = record s {
    nodes = insert id (record live { config = cfg }) s.nodes;
  }

  -- `instantiateNode` once the instance is registered: whether it succeeds, and the state.
  abbrev pub configure_new :
      Answers V → NodeDef V → GraphRuntimeState V → Option (Assoc V) → Bool × GraphRuntimeState V
  configure_new answers n s none = (answers.set_state n, s)
  configure_new answers n s (some cfg) = elim (configure answers n.id (answers.resolve n.id cfg)) [
    | none ↦ (false, s)
    | some cleaned ↦
        (answers.set_state n, set_live_config n.id (some cleaned) s (lookup n.id s.nodes))
  ]

  abbrev pub with_port_config :
      NodeDef V
      → (String → Bool)
      → GraphRuntimeState V
      → Option TemplatePortConfig
      → Bool × GraphRuntimeState V
  with_port_config n has_method s none = (true, s)
  with_port_config n has_method s (some cfg) =
      let templates = register_template_ports n.template cfg s.templates in
      (
        validate_template_instance n.template has_method templates,
        record s { templates = templates },
      )

  abbrev pub with_ports : NodeDef V → Created → GraphRuntimeState V → Bool × GraphRuntimeState V
  with_ports n c s = with_port_config n c.has_method s c.port_config

  abbrev pub place :
      Answers V → NodeDef V → GraphRuntimeState V → Option Created → Bool × GraphRuntimeState V
  place answers n s none = (false, s)
  place answers n s (some c) =
      let (fits, s') = with_ports n c s in
      let live : LiveNode V = record { template = n.template; config = n.config } in
      if fits
      then configure_new answers n (record s' { nodes = insert n.id live s'.nodes }) n.config
      else (false, s')

  pub instantiate_node : Answers V → NodeDef V → GraphRuntimeState V → Bool × GraphRuntimeState V
  instantiate_node answers n s = place answers n s (answers.create n)

  pub register_edge_record : ExecutedEdgeRecord → GraphRuntimeState V → GraphRuntimeState V
  register_edge_record rec s = record s {
    executed_edges = insert rec.key rec s.executed_edges;
    outbound_edges = add_key rec.source rec.key s.outbound_edges;
    inbound_edges = add_key rec.target rec.key s.inbound_edges;
  }

  pub unregister_edge_record : ExecutedEdgeRecord → GraphRuntimeState V → GraphRuntimeState V
  unregister_edge_record rec s = record s {
    executed_edges = remove rec.key s.executed_edges;
    outbound_edges = drop_key rec.source rec.key s.outbound_edges;
    inbound_edges = drop_key rec.target rec.key s.inbound_edges;
  }

  -- `tryReverseAndUnregister` of a key, where a failure is logged and leaves the record.
  abbrev pub reverse_found :
      Answers V → GraphRuntimeState V → Option ExecutedEdgeRecord → GraphRuntimeState V
  reverse_found answers s none = s
  reverse_found answers s (some rec) =
      if answers.reverse rec then unregister_edge_record rec s else s

  pub reverse_keys : Answers V → List String → GraphRuntimeState V → GraphRuntimeState V
  reverse_keys answers [] s = s
  reverse_keys answers (key ∷ keys) s =
      reverse_keys answers keys (reverse_found answers s (lookup key s.executed_edges))

  -- `disposeNode`. A key that stands in both sets is tried twice, to the same effect.
  pub dispose_node : Answers V → String → GraphRuntimeState V → GraphRuntimeState V
  dispose_node answers id s =
      if is_some (lookup id s.nodes)
      then (let keys =
            get_or (lookup id s.inbound_edges) [] ++ get_or (lookup id s.outbound_edges) [] in
          let s' = reverse_keys answers keys s in
          record s' {
            nodes = remove id s'.nodes;
            inbound_edges = remove id s'.inbound_edges;
            outbound_edges = remove id s'.outbound_edges;
          })
      else s
