-- ===== src/Graph/Ports.antt =====
-- graph/ports.registry.ts: the ports that each template declares, and the rule that resolves an edge.
-- A port's method names are texts; whether an instance has a method is asked of `has_method`.
pub mod Callable
pub mod Tests
use agynio.Prelude.{
  ◌||◌, ◌||◌, str_eq, str_eq, String, Bool, true, false, not, ◌&&◌, Option, none, some, List, [],
  ◌∷◌, get_or, is_some, Assoc, lookup, insert, if◌then◌else◌,
}
use agynio.Graph.{EdgeDef}

pub data PortConfig : Type 0 where
  method : String → Option String → PortConfig
  instance_port : PortConfig

pub record TemplatePortConfig : Type 0 where
  pub source_ports : Option (Assoc PortConfig)
  pub target_ports : Option (Assoc PortConfig)

abbrev pub TemplatePortsRegistry : Type 0
TemplatePortsRegistry = Assoc TemplatePortConfig

unfoldable pub register_template_ports :
    String → TemplatePortConfig → TemplatePortsRegistry → TemplatePortsRegistry
register_template_ports template cfg templates = insert template cfg templates

pub get_template_config : String → TemplatePortsRegistry → Option TemplatePortConfig
get_template_config template templates = lookup template templates

-- `m.destroy ? ... : ...`, where the empty text counts as absent.
has_destroy : (String → Bool) → Option String → Bool
has_destroy has_method none = true
has_destroy has_method (some name) = str_eq name "" || has_method name

port_fits : (String → Bool) → PortConfig → Bool
unfolding has_destroy
port_fits has_method instance_port = true
port_fits has_method (method create destroy) = has_method create && has_destroy has_method destroy

check_ports : (String → Bool) → Assoc PortConfig → Bool
unfolding port_fits
check_ports has_method [] = true
check_ports has_method (entry ∷ ports) =
    port_fits has_method (entry.1) && check_ports has_method ports

-- Whether `validateTemplateInstance` returns, where it could throw.
unfoldable pub validate_template_instance : String → (String → Bool) → TemplatePortsRegistry → Bool
unfolding check_ports
validate_template_instance template has_method templates = elim (lookup template templates) [
  | none ↦ true
  | some cfg ↦
      check_ports has_method (get_or cfg.source_ports [])
      && check_ports has_method (get_or cfg.target_ports [])
]

pub data Side : Type 0 where
  source_side target_side : Side

pub data PortResolutionError : Type 0 where
  no_source_ports no_target_ports unknown_source_handle unknown_target_handle both_method
        neither_method :
      PortResolutionError

pub record ResolvedPort : Type 0 where
  pub role : Side
  pub handle : String
  pub config : PortConfig

pub record ResolvedEdgePorts : Type 0 where
  pub source : ResolvedPort
  pub target : ResolvedPort
  pub callable_side : Side
  pub method_port : ResolvedPort
  pub instance_port_of : ResolvedPort

pub data Resolution : Type 0 where
  resolves : ResolvedEdgePorts → Resolution
  refuses : PortResolutionError → Resolution

abbrev pub port_at : String → Option (Assoc PortConfig) → Option PortConfig
port_at handle none = none
port_at handle (some ports) = lookup handle ports

-- `resolveEdge` once both ports are found.
abbrev pub resolve_ports : EdgeDef → PortConfig → PortConfig → Resolution
resolve_ports edge source target =
    let s : ResolvedPort = record {
      role = source_side;
      handle = edge.source_handle;
      config = source;
    } in
    let t : ResolvedPort = record {
      role = target_side;
      handle = edge.target_handle;
      config = target;
    } in
    elim source [
      | method create destroy ↦ elim target [
        | method create' destroy' ↦ refuses both_method
        | instance_port ↦ resolves (record {
          source = s;
          target = t;
          callable_side = source_side;
          method_port = s;
          instance_port_of = t;
        })
      ]
      | instance_port ↦ elim target [
        | instance_port ↦ refuses neither_method
        | method create destroy ↦ resolves (record {
          source = s;
          target = t;
          callable_side = target_side;
          method_port = t;
          instance_port_of = s;
        })
      ]
    ]

abbrev pub resolve_handles : EdgeDef → Option PortConfig → Option PortConfig → Resolution
resolve_handles edge none target = refuses unknown_source_handle
resolve_handles edge (some source) none = refuses unknown_target_handle
resolve_handles edge (some source) (some target) = resolve_ports edge source target

abbrev pub resolve_found :
    EdgeDef → Option TemplatePortConfig → Option TemplatePortConfig → Resolution
resolve_found edge none target = refuses no_source_ports
resolve_found edge (some source) none = refuses no_target_ports
resolve_found edge (some source) (some target) =
    resolve_handles edge (port_at edge.source_handle source.source_ports)
      (port_at edge.target_handle target.target_ports)

unfoldable pub resolve_edge : EdgeDef → String → String → TemplatePortsRegistry → Resolution
resolve_edge edge source_template target_template templates =
    resolve_found edge (lookup source_template templates) (lookup target_template templates)
