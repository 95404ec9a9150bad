-- ===== src/LlmLoop.antt =====
-- packages/llm/src: reducers, routers, and the loop that runs them. A rejected promise of a reducer or
-- a router is `none`; the context, which no round replaces, is part of the reducers and routers.
pub mod Outcome
mod Tests
use agynio.Prelude.{
  ℕ, zero, suc, String, Bool, true, false, Option, none, some, is_some, truthy, Assoc, lookup,
  str_eq, if◌then◌else◌,
}

-- The result of `route`: the state and the id of the next reducer, if there is one.
abbrev pub Router : Type 0 → Type 0
Router S = S → Option (S × Option String)

pub record Reducer (S : Type 0) : Type 0 where
  pub run : S → Option S
  pub next_router : Option (Router S)

pub data LoopError : Type 0 where
  no_reducer : String → LoopError
  no_next_reducer : String → LoopError
  rejected : LoopError

-- What a round of the loop ends with.
pub data Round (S : Type 0) : Type 0 where
  again : String → S → Round S
  returned : S → Round S
  threw : LoopError → Round S

module _ {S : Type 0} (reducers : Assoc (Reducer S)) where
  unfoldable pub after_route : Option (S × Option String) → Round S
  after_route none = threw rejected
  after_route (some answer) = elim (truthy answer.1) [
    | none ↦ returned answer.0
    | some next ↦
        if is_some (lookup next reducers)
        then again next (answer.0)
        else threw (no_next_reducer next)
  ]

  unfoldable pub after_invoke : Option (Router S) → Option S → Round S
  after_invoke router none = threw rejected
  after_invoke none (some state) = returned state
  after_invoke (some route) (some state) = after_route (route state)

  unfoldable pub run_found : String → S → Option (Reducer S) → Round S
  run_found id state none = threw (no_reducer id)
  run_found id state (some reducer) = after_invoke reducer.next_router (reducer.run state)

  -- The body of the `while`, its condition included: the empty text is false.
  unfoldable pub round : String → S → Round S
  round id state = if str_eq id "" then returned state else run_found id state (lookup id reducers)

  -- `none` when the rounds that are allowed do not do.
  unfoldable pub invoke : ℕ → String → S → Option (Round S)
  invoke zero id state = none
  invoke (suc rounds) id state = elim (round id state) [
    | again next later ↦ invoke rounds next later
    | returned final ↦ some (returned final)
    | threw e ↦ some (threw e)
  ]
