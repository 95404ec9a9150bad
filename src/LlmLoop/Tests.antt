-- ===== src/LlmLoop/Tests.antt =====
-- A loop of one reducer that counts down and routes to itself until it reaches 0, and one of two that
-- never ends.
use agynio.Prelude.{
  ◌+◌, All, ℕ, ◌-◌, ◌<◌, ◌≡◌, refl, ap, ◌∙◌, String, Option, none, some, Assoc, lookup, [], ◌∷◌,
  ◌==◌, if◌then◌else◌, arith,
}
use agynio.LlmLoop.{
  Router, Reducer, no_reducer, returned, threw, round, invoke, after_route, after_invoke, run_found,
}
use agynio.LlmLoop.Outcome.{Keeps, Progress, invoke-Progress}

abbrev repeat : Router ℕ
repeat s = some (s, if s == 0 then none else some "work")

abbrev count_down : Reducer ℕ
count_down = record { run = λ s. some (s - 1); next_router = some repeat }

abbrev counting : Assoc (Reducer ℕ)
counting = ("work", count_down) ∷ []

counts : invoke counting 4 "work" 3 ≡ some (returned 0)
unfolding invoke round run_found lookup after_invoke after_route
counts = refl

stranger : invoke counting 1 "play" 3 ≡ some (threw (no_reducer "play"))
unfolding invoke round run_found lookup
stranger = refl

-- The model asks for a tool each time; the state counts the messages.
abbrev to : String → Router ℕ
to id s = some (s, some id)

abbrev one_more : String → Reducer ℕ
one_more next = record { run = λ s. some (s + 1); next_router = some (to next) }

abbrev conversing : Assoc (Reducer ℕ)
conversing = ("call_model", one_more "call_tools") ∷ ("call_tools", one_more "call_model") ∷ []

one_more-Keeps : (next : String) → Keeps (λ s. 0 < s) (one_more next)
one_more-Keeps next = record {
  runs = λ s s' ran there. omega (arith, counted s s' ran);
  routes = λ route r s answer answered there.
      let goes : to next s ≡ route s = ap (λ o. elim o [ none ↦ none | some f ↦ f s ]) r in
      let kept = same_state s answer (goes ∙ answered) in omega (arith, there, kept);
}
  where
    counted : (s s' : ℕ) → some (s + 1) ≡ some s' → s' ≡ s + 1
    counted s s' e = ground (arith, e)

    same_state :
        (s : ℕ) (answer : ℕ × Option String) → some (s, some next) ≡ some answer → answer.0 ≡ s
    same_state s answer e = ground (arith, e)

conversation-Keeps : All (λ entry. Keeps (λ s. 0 < s) (entry.1)) conversing
conversation-Keeps = (one_more-Keeps "call_tools", (one_more-Keeps "call_model", tt))

invoke-Progress_example : Progress (λ s. 0 < s) conversing conversation-Keeps 4 "call_model" 1
unfolding lookup
invoke-Progress_example =
    invoke-Progress (λ s. 0 < s) conversing conversation-Keeps 4 "call_model" 1 refl (omega arith)
