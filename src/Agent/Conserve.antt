-- ===== src/Agent/Conserve.antt =====
-- No message of a thread is lost or doubled on its way into the runs of an agent.
mod Weights
mod Steps
pub use Weights.*
use agynio.Prelude.{
  ℕ, ◌+◌, ◌≡◌, refl, ap, ◌∙◌, String, Bool, true, false, Option, none, some, List, [], ◌∷◌, ◌++◌,
  str_eq, arith, has, if◌then◌else◌, Bool-cases, inl, inr, not, ◌||◌,
}
use agynio.Buffer.Readiness.{is_empty}
use agynio.Buffer.{
  BufferMessage, ProcessBuffer, try_drain, MessagesBuffer, enqueue, clear_thread, pending,
}
use agynio.Buffer.Pending.{
  pending-enqueue, pending-try_drain, pending-clear_thread, pending-set_debounce_ms,
}
use agynio.Agent.Places.{sum, sum-snoc, sum-remove_nth, sum-set_nth}
use agynio.Agent.{
  Behavior, Plan, throws, Phase, beginning, ensuring, looping, settling, Run, Agent, Event, invokes,
  begun, ensured, injects, loop_ended, settles, terminates, clears, nth, set_nth, remove_nth,
  invoke, leave, begin_reply, ensure_reply, inject, end_loop, is_stopped, plan_of, settle,
  start_next, step_run, step, run, at, complete, drain_mode, Completion,
}
use agynio.Agent.Conserve.Steps.{weigh-invoke, weigh-at}

-- What an event brings to a thread, and what it clears of it.
abbrev received : String → Event → List BufferMessage
received j (invokes thread ms now) = if str_eq thread j then ms else []
received j _ = []

abbrev cleared : String → Event → Agent → List BufferMessage
cleared j (clears thread) s = if str_eq thread j then pending j s.buffer else []
cleared j _ s = []

abbrev pub received_all : String → List Event → List BufferMessage
received_all j [] = []
received_all j (e ∷ es) = received j e ++ received_all j es

module _ (random_uuid : ℕ → String) (mode : ProcessBuffer) (j : String) where
  abbrev pub cleared_all : List Event → Agent → List BufferMessage
  cleared_all [] s = []
  cleared_all (e ∷ es) s = cleared j e s ++ cleared_all es (step random_uuid mode e s)

  module _ (weight : BufferMessage → ℕ) where
    weigh-choice :
        (b : Bool) (ms : List BufferMessage)
        → weigh weight (if b then ms else []) ≡ (if b then weigh weight ms else 0)
    weigh-choice true ms = refl
    weigh-choice false ms = refl

    weigh-step :
        (e : Event) (s : Agent)
        → weigh_agent weight j (step random_uuid mode e s) + weigh weight (cleared j e s)
          ≡ weigh_agent weight j s + weigh weight (received j e)
    unfolding step
    weigh-step (invokes thread ms now) s = omega (
      arith,
      weigh-invoke weight random_uuid mode j thread ms now s,
      weigh-choice (str_eq thread j) ms,
    )
    weigh-step (terminates run_id) s = refl
    weigh-step (clears thread) s = omega (
      arith,
      weigh-clear_thread weight thread j s.buffer,
      weigh-choice (str_eq thread j) (pending j s.buffer),
    )
    weigh-step (begun i reply) s =
        omega (arith, weigh-at weight random_uuid mode j i (begun i reply) s)
    weigh-step (ensured i reply) s =
        omega (arith, weigh-at weight random_uuid mode j i (ensured i reply) s)
    weigh-step (injects i recorded now) s =
        omega (arith, weigh-at weight random_uuid mode j i (injects i recorded now) s)
    weigh-step (loop_ended i reply) s =
        omega (arith, weigh-at weight random_uuid mode j i (loop_ended i reply) s)
    weigh-step (settles i first second now) s =
        omega (arith, weigh-at weight random_uuid mode j i (settles i first second now) s)

    -- However messages arrive and runs go on, and for every thread: what runs were given, what
    -- failed writes dropped, what runs are about to begin with, what is queued and what was cleared
    -- are together, each message as often, what there was before and what arrived.
    pub run-weigh :
        (es : List Event) (s : Agent)
        → weigh_agent weight j (run random_uuid mode es s) + weigh weight (cleared_all es s)
          ≡ weigh_agent weight j s + weigh weight (received_all j es)
    unfolding run
    run-weigh [] s = refl
    run-weigh (e ∷ es) s = omega (
      arith,
      run-weigh es (step random_uuid mode e s),
      weigh-step e s,
      weigh-append weight (cleared j e s) (cleared_all es (step random_uuid mode e s)),
      weigh-append weight (received j e) (received_all j es),
    )
