-- ===== src/Graph/Ports/Callable.antt =====
-- An edge resolves exactly if one of its two ports is a method, and then to that one.
use agynio.Prelude.{String, ◌≡◌, refl, Option, none, some, lookup}
use agynio.Graph.{EdgeDef}
use agynio.Graph.Ports.{
  resolve_handles, PortConfig, method, instance_port, TemplatePortConfig, TemplatePortsRegistry,
  Side, source_side, target_side, Resolution, resolves, refuses, port_at, resolve_found,
  resolve_edge,
}

abbrev pub source_port_of : EdgeDef → Option TemplatePortConfig → Option PortConfig
source_port_of edge none = none
source_port_of edge (some cfg) = port_at edge.source_handle cfg.source_ports

abbrev pub target_port_of : EdgeDef → Option TemplatePortConfig → Option PortConfig
target_port_of edge none = none
target_port_of edge (some cfg) = port_at edge.target_handle cfg.target_ports

-- Who calls whom: the method's side and name, if exactly one of two ports is a method.
abbrev pub caller_of : Option PortConfig → Option PortConfig → Option (Side × String)
caller_of (some (method create destroy)) (some instance_port) = some (source_side, create)
caller_of (some instance_port) (some (method create destroy)) = some (target_side, create)
caller_of _ _ = none

abbrev pub handle_at : EdgeDef → Side → String
handle_at edge source_side = edge.source_handle
handle_at edge target_side = edge.target_handle

abbrev pub other_side : Side → Side
other_side source_side = target_side
other_side target_side = source_side

-- A resolution of an edge whose caller is known.
abbrev pub ResolvesTo : EdgeDef → Option (Side × String) → Resolution → Type 0
ResolvesTo edge none (refuses e) = Unit
ResolvesTo edge none (resolves r) = ⊥
ResolvesTo edge (some c) (refuses e) = ⊥
ResolvesTo edge (some (side, create)) (resolves r) =
    (r.callable_side ≡ side)
    × (r.method_port.role ≡ side)
    × (r.method_port.handle ≡ handle_at edge side)
    × ((destroy : Option String) × (r.method_port.config ≡ method create destroy))
    × (r.instance_port_of.role ≡ other_side side)
    × (r.instance_port_of.handle ≡ handle_at edge (other_side side))
    × (r.instance_port_of.config ≡ instance_port)

no_caller : (p : Option PortConfig) → caller_of p none ≡ none
no_caller none = refl
no_caller (some (method c d)) = refl
no_caller (some instance_port) = refl

handles-ResolvesTo :
    (edge : EdgeDef) (p q : Option PortConfig)
    → ResolvesTo edge (caller_of p q) (resolve_handles edge p q)
handles-ResolvesTo edge none q = tt
handles-ResolvesTo edge (some p) none = rw (no_caller (some p)) tt
handles-ResolvesTo edge (some (method c d)) (some (method c' d')) = tt
handles-ResolvesTo edge (some (method c d)) (some instance_port) =
    (refl, refl, refl, (d, refl), refl, refl, refl)
handles-ResolvesTo edge (some instance_port) (some (method c d)) =
    (refl, refl, refl, (d, refl), refl, refl, refl)
handles-ResolvesTo edge (some instance_port) (some instance_port) = tt

found-ResolvesTo :
    (edge : EdgeDef) (s t : Option TemplatePortConfig)
    → ResolvesTo edge
        (caller_of (source_port_of edge s) (target_port_of edge t))
        (resolve_found edge s t)
found-ResolvesTo edge none t = tt
found-ResolvesTo edge (some s) none = rw (no_caller (source_port_of edge (some s))) tt
found-ResolvesTo edge (some s) (some t) =
    handles-ResolvesTo edge (port_at edge.source_handle s.source_ports)
      (port_at edge.target_handle t.target_ports)

-- An edge resolves exactly if both its handles name ports of the two templates and exactly one of the
-- ports is a method; the resolution then names that side as the caller, with its handle and method,
-- and the other side's handle as the instance.
pub resolve_edge-ResolvesTo :
    (edge : EdgeDef) (source_template target_template : String) (templates : TemplatePortsRegistry)
    → ResolvesTo edge
        (caller_of
          (source_port_of edge (lookup source_template templates))
          (target_port_of edge (lookup target_template templates)))
        (resolve_edge edge source_template target_template templates)
unfolding resolve_edge
resolve_edge-ResolvesTo edge a b templates =
    found-ResolvesTo edge (lookup a templates) (lookup b templates)
