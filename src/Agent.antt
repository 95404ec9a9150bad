-- ===== src/Agent.antt =====
-- nodes/agent/agent.node.ts: how an agent runs the messages of its threads, over the buffer, with the
-- signals of agents/run-signals.service.ts and the run rows of agents/agents.persistence.service.ts.
-- A run is one call of `invoke` past its first guard; its awaits split it into steps, and the steps of
-- all runs come in any order, named by the place of the run among those in flight. Of the awaits of
-- one settling run, what follows the loop is one step: a message that arrives meanwhile is queued
-- either way. Automatic answers to the thread, which have no effect on runs, are left out.
pub mod Places
pub mod Threads
pub mod Conserve
pub mod Terminate
pub mod Idle
pub mod Next
mod Tests
use agynio.Prelude.{
  ℕ, zero, suc, String, Bool, true, false, not, ◌&&◌, ◌||◌, Option, none, some, is_some, List, [],
  ◌∷◌, ◌++◌, map, str_eq, if◌then◌else◌, Assoc, lookup, insert, remove, has, get_or,
}
use agynio.Prelude.Int.{ℤ}
use agynio.Buffer.{
  BufferMessage, ProcessBuffer, MessagesBuffer, set_debounce_ms, enqueue, try_drain, clear_thread,
}
use agynio.Buffer.Readiness.{is_empty}

-- `effective.behavior`, as far as runs depend on it.
pub record Behavior : Type 0 where
  pub debounce_ms : ℤ
  pub process_buffer : ProcessBuffer
  pub inject_after_tools : Bool

pub data RunStatus : Type 0 where
  running finished terminated : RunStatus

-- How a run will settle: with its answer, with the text "terminated", or with the error it throws.
pub data Plan : Type 0 where
  answers stops throws : Plan

pub data Phase : Type 0 where
  -- `beginRunThread` is awaited, with the messages of the call
  beginning : List BufferMessage → Phase
  -- `ensureThreadModel` is awaited
  ensuring : String → Phase
  looping : String → Behavior → Phase
  settling : String → Option Behavior → Plan → Phase

pub record Run : Type 0 where
  pub thread : String
  pub phase : Phase

pub record Agent : Type 0 where
  pub buffer : MessagesBuffer
  pub running_threads : List String
  pub in_flight : List Run
  -- `RunSignalsRegistry.signals`: whether the signal of a run is active
  pub signals : Assoc Bool
  pub statuses : Assoc RunStatus
  -- what runs were given, and what they were to be given when a write failed, by thread
  pub handed : List (String × List BufferMessage)
  pub dropped : List (String × List BufferMessage)

-- The last message of the state that the loop returns.
pub data LastMessage : Type 0 where
  response tool_output other : LastMessage

pub data LoopReply : Type 0 where
  rejects : LoopReply
  -- whether the finish signal is active, and the last message
  gives : Bool → LastMessage → LoopReply

-- `completeRun`: its transaction fails, or commits, after which publishing may still reject.
pub data Completion : Type 0 where
  completes fails_before fails_after : Completion

pub data Event : Type 0 where
  invokes : String → List BufferMessage → ℕ → Event
  begun : ℕ → Option String → Event
  ensured : ℕ → Option Behavior → Event
  injects : ℕ → Bool → ℕ → Event
  loop_ended : ℕ → LoopReply → Event
  settles : ℕ → Completion → Completion → ℕ → Event
  terminates : String → Event
  clears : String → Event

module _ {ℓ} {A : Type ℓ} where
  abbrev pub nth : ℕ → List A → Option A
  nth i [] = none
  nth zero (x ∷ xs) = some x
  nth (suc i) (x ∷ xs) = nth i xs

  abbrev pub set_nth : ℕ → A → List A → List A
  set_nth i y [] = []
  set_nth zero y (x ∷ xs) = y ∷ xs
  set_nth (suc i) y (x ∷ xs) = x ∷ set_nth i y xs

  abbrev pub remove_nth : ℕ → List A → List A
  remove_nth i [] = []
  remove_nth zero (x ∷ xs) = xs
  remove_nth (suc i) (x ∷ xs) = x ∷ remove_nth i xs

-- `Set.delete`
abbrev pub without : String → List String → List String
without k [] = []
without k (j ∷ js) = if str_eq j k then without k js else j ∷ without k js

-- `RunSignalsRegistry.register` of a new signal: an entry that is active makes it active.
unfoldable pub register : String → Assoc Bool → Assoc Bool
register run_id signals = insert run_id (get_or (lookup run_id signals) false) signals

unfoldable pub activate_terminate : String → Assoc Bool → Assoc Bool
activate_terminate run_id signals = insert run_id true signals

-- The `finally` block of a run that has an id, or none yet.
unfoldable pub leave : ℕ → Run → Option String → Agent → Agent
leave i r none s = record s {
  running_threads = without r.thread s.running_threads;
  in_flight = remove_nth i s.in_flight;
}
leave i r (some run_id) s = record s {
  running_threads = without r.thread s.running_threads;
  in_flight = remove_nth i s.in_flight;
  signals = remove run_id s.signals;
}

unfoldable pub begin_reply : ℕ → Run → List BufferMessage → Option String → Agent → Agent
unfolding leave
begin_reply i r messages none s =
    leave i r none (record s { dropped = s.dropped ++ (r.thread, messages) ∷ [] })
begin_reply i r messages (some run_id) s = record s {
  in_flight = set_nth i (record r { phase = ensuring run_id }) s.in_flight;
  statuses = insert run_id running s.statuses;
  handed = s.handed ++ (r.thread, messages) ∷ [];
}

unfoldable pub ensure_reply : ℕ → Run → String → Option Behavior → Agent → Agent
unfolding register
ensure_reply i r run_id none s = record s {
  in_flight = set_nth i (record r { phase = settling run_id none throws }) s.in_flight;
}
ensure_reply i r run_id (some b) s = record s {
  buffer = set_debounce_ms b.debounce_ms s.buffer;
  in_flight = set_nth i (record r { phase = looping run_id b }) s.in_flight;
  signals = register run_id s.signals;
}

-- `injectBufferedMessages`: drained messages that cannot be recorded fail the run.
unfoldable pub inject : ℕ → Run → String → Behavior → Bool → ℕ → Agent → Agent
inject i r run_id b recorded now s =
    let (taken, buffer') = try_drain r.thread b.process_buffer now s.buffer in
    if not b.inject_after_tools || is_empty taken
    then s
    else if recorded
    then record s { buffer = buffer'; handed = s.handed ++ (r.thread, taken) ∷ [] }
    else record s {
      buffer = buffer';
      dropped = s.dropped ++ (r.thread, taken) ∷ [];
      in_flight = set_nth i (record r { phase = settling run_id (some b) throws }) s.in_flight;
    }

-- What follows from the state that the loop returns; a valid one ends with a response, or with the
-- output of a tool that asked to finish.
unfoldable pub plan_of : Bool → LoopReply → Plan
plan_of stopped rejects = throws
plan_of stopped (gives finish last) = if stopped then stops else elim last [
  | response ↦ answers
  | tool_output ↦ if finish then answers else throws
  | other ↦ throws
]

unfoldable pub is_stopped : String → Agent → Bool
is_stopped run_id s = get_or (lookup run_id s.signals) false

unfoldable pub end_loop : ℕ → Run → String → Behavior → LoopReply → Agent → Agent
unfolding plan_of is_stopped
end_loop i r run_id b reply s = record s {
  in_flight =
      set_nth i
        (record r { phase = settling run_id (some b) (plan_of (is_stopped run_id s) reply) })
        s.in_flight;
}

unfoldable pub write_status : Completion → String → RunStatus → Assoc RunStatus → Assoc RunStatus
write_status fails_before run_id status statuses = statuses
write_status _ run_id status statuses = insert run_id status statuses

abbrev pub has_failed : Completion → Bool
has_failed completes = false
has_failed _ = true

abbrev pub status_of : Plan → RunStatus
status_of answers = finished
status_of _ = terminated

-- The rows of runs after `completeRun`, and after the second one that the `catch` block makes when
-- the run throws or the first one fails; then whether the run throws.
unfoldable pub complete :
    Plan → Completion → Completion → String → Assoc RunStatus → Assoc RunStatus × Bool
unfolding write_status
complete throws first second run_id statuses =
    (write_status second run_id terminated statuses, true)
complete plan first second run_id statuses =
    let statuses' = write_status first run_id (status_of plan) statuses in
    if has_failed first
    then (write_status second run_id terminated statuses', true)
    else (statuses', false)

module _ (random_uuid : ℕ → String) (mode : ProcessBuffer) where
  -- `invoke` up to its first await.
  unfoldable pub invoke : String → List BufferMessage → ℕ → Agent → Agent
  invoke thread messages now s =
      if has s.running_threads thread
      then record s { buffer = enqueue random_uuid thread messages now s.buffer }
      else record s {
        running_threads = s.running_threads ++ thread ∷ [];
        in_flight = s.in_flight ++ record { thread = thread; phase = beginning messages } ∷ [];
      }

  abbrev pub drain_mode : Option Behavior → ProcessBuffer
  drain_mode none = mode
  drain_mode (some b) = b.process_buffer

  -- The drain after a run that did not throw, which starts the next one.
  unfoldable pub start_next : String → ProcessBuffer → ℕ → Agent → Agent
  unfolding invoke
  start_next thread drain now s =
      let (taken, buffer') = try_drain thread drain now s.buffer in
      let s' = record s { buffer = buffer' } in
      if is_empty taken then s' else invoke thread taken now s'

  unfoldable pub settle :
      ℕ → Run → String → Option Behavior → Plan → Completion → Completion → ℕ → Agent → Agent
  unfolding complete leave
  settle i r run_id b plan first second now s =
      let (statuses', thrown) = complete plan first second run_id s.statuses in
      let s' = leave i r (some run_id) (record s { statuses = statuses' }) in
      if thrown then s' else start_next r.thread (drain_mode b) now s'

  -- A step of the run at a place, if it awaits that.
  unfoldable pub step_run : Event → ℕ → Run → Phase → Agent → Agent
  step_run (begun _ reply) i r (beginning messages) s = begin_reply i r messages reply s
  step_run (ensured _ reply) i r (ensuring run_id) s = ensure_reply i r run_id reply s
  step_run (injects _ recorded now) i r (looping run_id b) s = inject i r run_id b recorded now s
  step_run (loop_ended _ reply) i r (looping run_id b) s = end_loop i r run_id b reply s
  step_run (settles _ first second now) i r (settling run_id b plan) s =
      settle i r run_id b plan first second now s
  step_run _ i r _ s = s

  abbrev pub at : ℕ → Event → Agent → Agent
  at i e s = elim (nth i s.in_flight) [ none ↦ s | some r ↦ step_run e i r r.phase s ]

  unfoldable pub step : Event → Agent → Agent
  step (invokes thread messages now) s = invoke thread messages now s
  step (terminates run_id) s = record s { signals = activate_terminate run_id s.signals }
  step (clears thread) s = record s { buffer = (clear_thread thread s.buffer).1 }
  step (begun i reply) s = at i (begun i reply) s
  step (ensured i reply) s = at i (ensured i reply) s
  step (injects i recorded now) s = at i (injects i recorded now) s
  step (loop_ended i reply) s = at i (loop_ended i reply) s
  step (settles i first second now) s = at i (settles i first second now) s

  unfoldable pub run : List Event → Agent → Agent
  run [] s = s
  run (e ∷ es) s = run es (step e s)
