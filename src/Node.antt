-- ===== src/Node.antt =====
-- nodes/base/Node.ts: the lifecycle of a graph node, with any type of configuration. A call runs up to
-- its first `await` in one step; the work that it waits for settles in a step of its own, and so does
-- what `reprovision` does after its `deprovision`. The events are those that the node has emitted,
-- oldest first, without their times. `in_flight` is what the calls of `doProvision` and `doDeprovision`
-- that have not settled do, oldest first; `pending` is the field of the source.
pub mod Lifecycle
pub mod Tests
use agynio.Prelude.{
  Bool, true, false, ◌||◌, Option, none, some, List, [], ◌∷◌, ◌++◌, if◌then◌else◌, is_some, get_or,
}

pub data NodeStatusState : Type 0 where
  not_ready provisioning ready deprovisioning provisioning_error deprovisioning_error :
      NodeStatusState

pub data Pending : Type 0 where
  provision_work deprovision_work : Pending

pub data Event {ℓ} (C : Type ℓ) : Type ℓ where
  status_changed : NodeStatusState → NodeStatusState → Event C
  config_changed : C → Event C

pub record Node {ℓ} (C : Type ℓ) : Type ℓ where
  pub status : NodeStatusState
  pub pending : Option Pending
  pub in_flight : List Pending
  pub config : C
  pub events : List (Event C)

abbrev pub same_status : NodeStatusState → NodeStatusState → Bool
same_status not_ready not_ready = true
same_status provisioning provisioning = true
same_status ready ready = true
same_status deprovisioning deprovisioning = true
same_status provisioning_error provisioning_error = true
same_status deprovisioning_error deprovisioning_error = true
same_status _ _ = false

abbrev is_changing : NodeStatusState → Bool
is_changing s = same_status s provisioning || same_status s deprovisioning

abbrev pub after_work : Bool → Pending → NodeStatusState
after_work done provision_work = if done then ready else provisioning_error
after_work done deprovision_work = if done then not_ready else deprovisioning_error

module _ {ℓ} {C : Type ℓ} where
  pub new_node : C → Node C
  new_node config = record {
    status = not_ready;
    pending = none;
    in_flight = [];
    config = config;
    events = [];
  }

  pub set_status : NodeStatusState → Node C → Node C
  set_status next n =
      if same_status n.status next
      then n
      else record n { status = next; events = n.events ++ status_changed n.status next ∷ [] }

  emit_config_changed : Node C → Node C
  emit_config_changed n = record n { events = n.events ++ config_changed n.config ∷ [] }

  -- `empty` is `{}`, in place of an absent configuration.
  pub set_config : C → Option C → Node C → Node C
  unfolding emit_config_changed
  set_config empty cfg n = emit_config_changed (record n { config = get_or cfg empty })

  -- The guard with which `provision`, `deprovision` and `reprovision` begin.
  abbrev pub is_busy : Node C → Bool
  is_busy n = is_some n.pending || is_changing n.status

  -- The pending mark, and the call of `doProvision` or `doDeprovision` once the status is set.
  pub begin : Pending → NodeStatusState → Node C → Node C
  unfolding set_status
  begin work next n =
      let n' = set_status next (record n { pending = some work }) in
      record n' { in_flight = n'.in_flight ++ work ∷ [] }

  pub provision : Node C → Node C
  provision n =
      if is_busy n
      then n
      else if same_status n.status ready
      then n
      else begin provision_work provisioning n

  pub deprovision : Node C → Node C
  deprovision n =
      if is_busy n
      then n
      else if same_status n.status not_ready
      then n
      else begin deprovision_work deprovisioning n

  -- The oldest work in flight ends: done or failed.
  pub settle : Bool → Node C → Node C
  unfolding set_status
  settle done n = elim n.in_flight [
    | [] ↦ n
    | work ∷ rest ↦ record (set_status (after_work done work) n) {
      pending = none;
      in_flight = rest;
    }
  ]

  -- `reprovision` up to the end of its `deprovision`: whether it goes on, and the node.
  pub reprovision : Node C → Bool × Node C
  reprovision n = if is_busy n then (false, n) else (true, deprovision n)

  -- The rest of `reprovision`: `mutated` is what the mutator answers, `none` if it throws, and inside
  -- `none` if it returns no object.
  pub resume_reprovision : Option (Option C) → Node C → Node C
  unfolding emit_config_changed
  resume_reprovision none n = provision n
  resume_reprovision (some none) n = provision (emit_config_changed n)
  resume_reprovision (some (some next)) n =
      provision (emit_config_changed (record n { config = next }))
