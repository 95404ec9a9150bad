-- ===== src/Graph/Ports/Tests.antt =====
-- The ports registry on concrete inputs.
use agynio.Prelude.{String, Bool, ◌≡◌, refl, true, false, none, some, [], ◌∷◌, str_eq, lookup}
use agynio.Graph.{EdgeDef}
use agynio.Graph.Ports.{
  method, instance_port, TemplatePortsRegistry, register_template_ports, validate_template_instance,
  get_template_config, resolve_edge,
}
use agynio.Graph.Ports.Callable.{
  ResolvesTo, caller_of, source_port_of, target_port_of, resolve_edge-ResolvesTo,
}

abbrev registry : TemplatePortsRegistry
registry =
    (
      "agent",
      record {
        source_ports = some (("tools", method "addTool" (some "removeTool")) ∷ []);
        target_ports = none;
      },
    )
    ∷ ("tool", record { source_ports = none; target_ports = some (("self", instance_port) ∷ []) })
    ∷ []

abbrev edge : EdgeDef
edge = record { source = "a"; source_handle = "tools"; target = "t"; target_handle = "self" }

resolve_edge-ResolvesTo_example :
    ResolvesTo edge
      (caller_of
        (source_port_of edge (lookup "agent" registry))
        (target_port_of edge (lookup "tool" registry)))
      (resolve_edge edge "agent" "tool" registry)
resolve_edge-ResolvesTo_example = resolve_edge-ResolvesTo edge "agent" "tool" registry

abbrev has_method : String → Bool
has_method name = str_eq name "addTool"

validate-no_destroy : validate_template_instance "agent" has_method registry ≡ false
unfolding validate_template_instance lookup
validate-no_destroy = refl

get_template_config-registered :
    get_template_config "new"
      (register_template_ports "new" (record { source_ports = none; target_ports = none }) registry)
    ≡ some (record { source_ports = none; target_ports = none })
unfolding get_template_config lookup register_template_ports agynio.Prelude.insert
get_template_config-registered = refl
