-- ===== src/Node/Lifecycle.antt =====
-- The state machine that the calls of a node go through, in any interleaving.
use mathlib.Core.Path.{subst}
use agynio.Prelude.{
  true, false, sym, sym, inr, inl, refl, Bool-cases, Bool-cases, get_or, ◌≡◌, Bool, Option, none,
  some, List, [], ◌∷◌, ◌++◌,
}
use agynio.Node.{
  begin, is_busy, set_status, emit_config_changed, get_or, new_node, NodeStatusState, not_ready,
  provisioning, ready, deprovisioning, provisioning_error, deprovisioning_error, Pending,
  provision_work, deprovision_work, Event, status_changed, config_changed, Node, set_config,
  provision, deprovision, settle, reprovision, resume_reprovision,
}

pub data Step {ℓ} (C : Type ℓ) : Type ℓ where
  sets_config : C → Option C → Step C
  provisions deprovisions reprovisions : Step C
  resumes : Option (Option C) → Step C
  settles : Bool → Step C

-- The moves that a status makes: work begins from rest only, and ends in the states of its kind.
pub data Move : NodeStatusState → NodeStatusState → Type 0 where
  up_first : Move not_ready provisioning
  up_again : Move provisioning_error provisioning
  up_after : Move deprovisioning_error provisioning
  up_done : Move provisioning ready
  up_failed : Move provisioning provisioning_error
  down : Move ready deprovisioning
  down_broken : Move provisioning_error deprovisioning
  down_again : Move deprovisioning_error deprovisioning
  down_done : Move deprovisioning not_ready
  down_failed : Move deprovisioning deprovisioning_error

-- The status events lead from one status to another, by moves and without a gap.
pub data PathOf {ℓ} {C : Type ℓ} : NodeStatusState → List (Event C) → NodeStatusState → Type ℓ where
  here : {s : NodeStatusState} → PathOf s [] s
  moves :
      {s m e : NodeStatusState} {events : List (Event C)}
      → Move s m
      → PathOf m events e
      → PathOf s (status_changed s m ∷ events) e
  config :
      {s e : NodeStatusState} {c : C} {events : List (Event C)}
      → PathOf s events e
      → PathOf s (config_changed c ∷ events) e

-- What work is in flight is told by the status.
abbrev pub work_of : NodeStatusState → Option Pending
work_of provisioning = some provision_work
work_of deprovisioning = some deprovision_work
work_of _ = none

-- The work in flight: one or none.
abbrev pub works_of : NodeStatusState → List Pending
works_of provisioning = provision_work ∷ []
works_of deprovisioning = deprovision_work ∷ []
works_of _ = []

module _ {ℓ} {C : Type ℓ} where
  abbrev pub step : Step C → Node C → Node C
  step (sets_config empty cfg) n = set_config empty cfg n
  step provisions n = provision n
  step deprovisions n = deprovision n
  step reprovisions n = (reprovision n).1
  step (resumes mutated) n = resume_reprovision mutated n
  step (settles done) n = settle done n

  abbrev pub run : List (Step C) → Node C → Node C
  run [] n = n
  run (s ∷ steps) n = run steps (step s n)

  pub record Lawful (n : Node C) : Type ℓ where
    pub mark : n.pending ≡ work_of n.status
    pub work : n.in_flight ≡ works_of n.status
    pub trace : PathOf not_ready n.events n.status

  PathOf-moves :
      {s m e : NodeStatusState} (events : List (Event C))
      → PathOf s events m
      → Move m e
      → PathOf s (events ++ status_changed m e ∷ []) e
  PathOf-moves [] here m = moves m here
  PathOf-moves (_ ∷ events) (moves m' p) m = moves m' (PathOf-moves events p m)
  PathOf-moves (_ ∷ events) (config p) m = config (PathOf-moves events p m)

  PathOf-config :
      {s e : NodeStatusState} (c : C) (events : List (Event C))
      → PathOf s events e
      → PathOf s (events ++ config_changed c ∷ []) e
  PathOf-config c [] here = config here
  PathOf-config c (_ ∷ events) (moves m' p) = moves m' (PathOf-config c events p)
  PathOf-config c (_ ∷ events) (config p) = config (PathOf-config c events p)

  with_work :
      (P : Node C → Type ℓ) (n : Node C)
      → n.pending ≡ work_of n.status
      → n.in_flight ≡ works_of n.status
      → P (record n { pending = work_of n.status; in_flight = works_of n.status })
      → P n
  with_work P n h k p =
      subst (λ w. P (record n { pending = w })) (sym h)
        (subst (λ w. P (record n { pending = work_of n.status; in_flight = w })) (sym k) p)

  -- A node at rest or at work, as its status says.
  abbrev node_at : NodeStatusState → C → List (Event C) → Node C
  node_at status c events = record {
    status = status;
    pending = work_of status;
    in_flight = works_of status;
    config = c;
    events = events;
  }

  abbrev Steady : (Node C → Node C) → Type ℓ
  Steady f =
      (s : NodeStatusState) (c : C) (events : List (Event C))
      → PathOf not_ready events s
      → Lawful (f (node_at s c events))

  steady : (f : Node C → Node C) → Steady f → (n : Node C) → Lawful n → Lawful (f n)
  steady f h n l =
      with_work (λ n'. Lawful (f n')) n l.mark l.work (h n.status n.config n.events l.trace)

  provision-Steady : Steady provision
  unfolding provision set_status begin
  provision-Steady not_ready c events p = record {
    mark = refl;
    work = refl;
    trace = PathOf-moves events p up_first;
  }
  provision-Steady provisioning c events p = record { mark = refl; work = refl; trace = p }
  provision-Steady ready c events p = record { mark = refl; work = refl; trace = p }
  provision-Steady deprovisioning c events p = record { mark = refl; work = refl; trace = p }
  provision-Steady provisioning_error c events p = record {
    mark = refl;
    work = refl;
    trace = PathOf-moves events p up_again;
  }
  provision-Steady deprovisioning_error c events p = record {
    mark = refl;
    work = refl;
    trace = PathOf-moves events p up_after;
  }

  deprovision-Steady : Steady deprovision
  unfolding deprovision set_status begin
  deprovision-Steady not_ready c events p = record { mark = refl; work = refl; trace = p }
  deprovision-Steady provisioning c events p = record { mark = refl; work = refl; trace = p }
  deprovision-Steady ready c events p = record {
    mark = refl;
    work = refl;
    trace = PathOf-moves events p down;
  }
  deprovision-Steady deprovisioning c events p = record { mark = refl; work = refl; trace = p }
  deprovision-Steady provisioning_error c events p = record {
    mark = refl;
    work = refl;
    trace = PathOf-moves events p down_broken;
  }
  deprovision-Steady deprovisioning_error c events p = record {
    mark = refl;
    work = refl;
    trace = PathOf-moves events p down_again;
  }

  settle-Steady : (done : Bool) → Steady (settle done)
  unfolding settle set_status
  settle-Steady true provisioning c events p = record {
    mark = refl;
    work = refl;
    trace = PathOf-moves events p up_done;
  }
  settle-Steady false provisioning c events p = record {
    mark = refl;
    work = refl;
    trace = PathOf-moves events p up_failed;
  }
  settle-Steady true deprovisioning c events p = record {
    mark = refl;
    work = refl;
    trace = PathOf-moves events p down_done;
  }
  settle-Steady false deprovisioning c events p = record {
    mark = refl;
    work = refl;
    trace = PathOf-moves events p down_failed;
  }
  settle-Steady done not_ready c events p = record { mark = refl; work = refl; trace = p }
  settle-Steady done ready c events p = record { mark = refl; work = refl; trace = p }
  settle-Steady done provisioning_error c events p = record { mark = refl; work = refl; trace = p }
  settle-Steady done deprovisioning_error c events p = record {
    mark = refl;
    work = refl;
    trace = p;
  }

  configured-Lawful :
      (c : C) (n : Node C) → Lawful n → Lawful (emit_config_changed (record n { config = c }))
  unfolding emit_config_changed
  configured-Lawful c n l = record {
    mark = l.mark;
    work = l.work;
    trace = PathOf-config c n.events l.trace;
  }

  resume-Lawful :
      (mutated : Option (Option C)) (n : Node C) → Lawful n → Lawful (resume_reprovision mutated n)
  unfolding resume_reprovision
  resume-Lawful none n l = steady provision provision-Steady n l
  resume-Lawful (some none) n l =
      steady provision provision-Steady _ (configured-Lawful n.config n l)
  resume-Lawful (some (some next)) n l =
      steady provision provision-Steady _ (configured-Lawful next n l)

  step-Lawful : (s : Step C) (n : Node C) → Lawful n → Lawful (step s n)
  unfolding set_config reprovision
  step-Lawful (sets_config empty cfg) n l = configured-Lawful (get_or cfg empty) n l
  step-Lawful provisions n l = steady provision provision-Steady n l
  step-Lawful deprovisions n l = steady deprovision deprovision-Steady n l
  step-Lawful reprovisions n l = elim (Bool-cases (is_busy n)) [
    | inl busy ↦ rw (step, busy) l
    | inr free ↦ rw (step, free) (steady deprovision deprovision-Steady n l)
  ]
  step-Lawful (resumes mutated) n l = resume-Lawful mutated n l
  step-Lawful (settles done) n l = steady (settle done) (settle-Steady done) n l

  run-keeps : (steps : List (Step C)) (n : Node C) → Lawful n → Lawful (run steps n)
  run-keeps [] n l = l
  run-keeps (s ∷ steps) n l = run-keeps steps (step s n) (step-Lawful s n l)

  -- However calls and settling work interleave from a new node on: the status says exactly which work
  -- is in flight, never more than one, and the status events emitted lead without a gap, by moves of
  -- the state machine, from not_ready to the status.
  pub run-Lawful : (initial : C) (steps : List (Step C)) → Lawful (run steps (new_node initial))
  unfolding new_node
  run-Lawful initial steps =
      run-keeps steps (new_node initial) (record { mark = refl; work = refl; trace = here })
