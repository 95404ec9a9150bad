-- ===== src/Node/Tests.antt =====
-- A node through its lifecycle on concrete inputs.
use agynio.Prelude.{ℕ, ◌≡◌, refl, true, false, some, List, [], ◌∷◌}
use agynio.Node.{NodeStatusState, ready, Node, new_node, provision_work, status_changed, Event}
use agynio.Node.Lifecycle.{
  Step, provisions, deprovisions, reprovisions, resumes, settles, sets_config, run, Lawful,
  run-Lawful,
}

-- A provision that fails, a retry, calls that come while it works, and a reprovision.
abbrev steps : List (Step ℕ)
steps =
    provisions
    ∷ settles false
    ∷ provisions
    ∷ deprovisions
    ∷ sets_config 0 (some 5)
    ∷ settles true
    ∷ reprovisions
    ∷ settles true
    ∷ resumes (some (some 7))
    ∷ settles true
    ∷ []

run-Lawful_example : Lawful (run steps (new_node 1))
run-Lawful_example = run-Lawful 1 steps

run-status : (run steps (new_node 1)).status ≡ ready
unfolding agynio.Node.settle agynio.Node.begin agynio.Node.resume_reprovision agynio.Node.provision
    agynio.Node.reprovision agynio.Node.set_config agynio.Node.deprovision new_node
    agynio.Node.set_status
run-status = refl

run-config : (run steps (new_node 1)).config ≡ 7
unfolding agynio.Node.settle agynio.Node.begin agynio.Node.resume_reprovision agynio.Node.provision
    agynio.Node.reprovision agynio.Node.set_config agynio.Node.deprovision new_node
    agynio.Node.set_status
run-config = refl
