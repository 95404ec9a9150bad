-- ===== src/Buffer.antt =====
-- `MessagesBuffer` of packages/platform-server/src/nodes/agent/messagesBuffer.ts: the queue of
-- messages that triggers fill and an agent drains, one per thread. Times are whole milliseconds.
-- `random_uuid n` is the n-th value that the runtime's `randomUUID` returns; `drawn` counts them.
pub mod Fifo
pub mod Readiness
pub mod Tokens
pub mod Stepwise
pub mod Pending
mod Tests
use agynio.Prelude.{
  ℕ, zero, suc, ◌+◌, String, ◌≡◌, Bool, true, false, not, ◌&&◌, Option, none, some, List, [], ◌∷◌,
  ◌++◌, map, ltb, ◌==◌, str_eq, if◌then◌else◌, truthy, get_or, length, filter, has, Assoc, lookup,
  insert,
}
use agynio.Prelude.Int.{ℤ, max_zero}

-- A message by its class and its text.
pub data BufferMessage : Type 0 where
  ai human system : String → BufferMessage

pub data ProcessBuffer : Type 0 where
  one_by_one all_together : ProcessBuffer

pub record QueuedItem : Type 0 where
  pub id : String
  pub msg : BufferMessage
  pub token_id : Option String
  pub ts : ℕ

pub record ThreadState : Type 0 where
  pub queue : List QueuedItem
  pub last_enqueue_at : ℕ

pub record MessagesBuffer : Type 0 where
  pub debounce_ms : ℕ
  pub threads : Assoc ThreadState
  pub drawn : ℕ

pub init : ℤ → MessagesBuffer
init ms = record { debounce_ms = max_zero ms; threads = []; drawn = 0 }

-- The argument is a whole number, which `Math.trunc` leaves alone.
pub set_debounce_ms : ℤ → MessagesBuffer → MessagesBuffer
set_debounce_ms ms b = record b { debounce_ms = max_zero ms }

-- The state of a thread as `ensure` makes it.
abbrev fresh : ThreadState
fresh = record { queue = []; last_enqueue_at = 0 }

ensure : MessagesBuffer → String → ThreadState
ensure b thread = get_or (lookup thread b.threads) fresh

module _ (random_uuid : ℕ → String) where
  to_queued_items : List BufferMessage → ℕ → Option String → ℕ → List QueuedItem
  to_queued_items [] now token drawn = []
  to_queued_items (m ∷ ms) now token drawn =
      record { id = random_uuid drawn; msg = m; token_id = token; ts = now }
      ∷ to_queued_items ms now token (suc drawn)

  -- An empty batch changes nothing, `lastEnqueueAt` included.
  pub push_batch : String → Option String → List BufferMessage → ℕ → MessagesBuffer → MessagesBuffer
  unfolding ensure
  push_batch thread token [] now b = b
  push_batch thread token (m ∷ ms) now b =
      let s = ensure b thread in
      record b {
        threads =
            insert thread
              (record {
                queue = s.queue ++ to_queued_items (m ∷ ms) now token b.drawn;
                last_enqueue_at = now;
              })
              b.threads;
        drawn = b.drawn + length (m ∷ ms);
      }

  pub enqueue : String → List BufferMessage → ℕ → MessagesBuffer → MessagesBuffer
  unfolding push_batch
  enqueue thread msgs now b = push_batch thread none msgs now b

  pub enqueue_with_token :
      String → String → List BufferMessage → ℕ → MessagesBuffer → MessagesBuffer
  unfolding push_batch
  enqueue_with_token thread token msgs now b = push_batch thread (some token) msgs now b

-- `this.debounceMs > 0 && now - s.lastEnqueueAt < this.debounceMs`, with no subtraction.
is_debounced : MessagesBuffer → ThreadState → ℕ → Bool
is_debounced b s now = ltb 0 b.debounce_ms && ltb now (s.last_enqueue_at + b.debounce_ms)

-- What a drain takes off the queue, and what it leaves.
consume : ProcessBuffer → List QueuedItem → List QueuedItem × List QueuedItem
consume all_together queue = (queue, [])
consume one_by_one [] = ([], [])
consume one_by_one (q ∷ queue) = (q ∷ [], queue)

pub store : MessagesBuffer → String → ThreadState → List QueuedItem → MessagesBuffer
store b thread s queue = record b { threads = insert thread (record s { queue = queue }) b.threads }

-- The guards and the queue update that both drains share.
pub drain_state :
    MessagesBuffer
    → String
    → ProcessBuffer
    → ℕ
    → Option ThreadState
    → List QueuedItem × MessagesBuffer
unfolding is_debounced consume store
drain_state b thread mode now none = ([], b)
drain_state b thread mode now (some s) = elim s.queue [
  | [] ↦ ([], b)
  | q ∷ queue ↦
      if is_debounced b s now
      then ([], b)
      else (let (taken, rest) = consume mode (q ∷ queue) in (taken, store b thread s rest))
]

pub drain_items : String → ProcessBuffer → ℕ → MessagesBuffer → List QueuedItem × MessagesBuffer
unfolding drain_state
drain_items thread mode now b = drain_state b thread mode now (lookup thread b.threads)

abbrev pub messages_of : List QueuedItem → List BufferMessage
messages_of = map λ (q : QueuedItem). q.msg

pub try_drain : String → ProcessBuffer → ℕ → MessagesBuffer → List BufferMessage × MessagesBuffer
try_drain thread mode now b =
    let (taken, b') = drain_items thread mode now b in (messages_of taken, b')

-- One round of the loop over the consumed items.
add_part : Assoc ℕ → QueuedItem → Assoc ℕ
add_part parts q = elim (truthy q.token_id) [
  | none ↦ parts
  | some token ↦ insert token (get_or (lookup token parts) 0 + 1) parts
]

count_parts : Assoc ℕ → List QueuedItem → Assoc ℕ
unfolding add_part
count_parts parts [] = parts
count_parts parts (q ∷ qs) = count_parts (add_part parts q) qs

pub record Drained : Type 0 where
  pub messages : List BufferMessage
  pub token_parts : Assoc ℕ

pub try_drain_descriptor : String → ProcessBuffer → ℕ → MessagesBuffer → Drained × MessagesBuffer
try_drain_descriptor thread mode now b =
    let (taken, b') = drain_items thread mode now b in
    (record { messages = messages_of taken; token_parts = count_parts [] taken }, b')

pub ready_at : MessagesBuffer → ℕ → Option ThreadState → Option ℕ
ready_at b now none = none
ready_at b now (some s) = elim s.queue [
  | [] ↦ none
  | q ∷ queue ↦ if b.debounce_ms == 0 then some now else some (s.last_enqueue_at + b.debounce_ms)
]

pub next_ready_at : String → ℕ → MessagesBuffer → Option ℕ
unfolding ready_at
next_ready_at thread now b = ready_at b now (lookup thread b.threads)

pub clear_thread : String → MessagesBuffer → ℕ × MessagesBuffer
clear_thread thread b = elim (lookup thread b.threads) [
  | none ↦ (0, b)
  | some s ↦ elim s.queue [
    | [] ↦ (0, b)
    | q ∷ queue ↦ (length (q ∷ queue), record b { threads = insert thread fresh b.threads })
  ]
]

pub destroy : MessagesBuffer → MessagesBuffer
destroy b = record b { threads = [] }

-- `!q.tokenId || !drop.has(q.tokenId)`
abbrev pub is_kept : List String → QueuedItem → Bool
is_kept token_ids q = elim (truthy q.token_id) [ none ↦ true | some t ↦ not (has token_ids t) ]

drop_state : MessagesBuffer → String → List String → Option ThreadState → MessagesBuffer
drop_state b thread token_ids none = b
drop_state b thread token_ids (some s) = elim s.queue [
  | [] ↦ b
  | q ∷ queue ↦ store b thread s (filter (is_kept token_ids) (q ∷ queue))
]

pub drop_tokens : String → List String → MessagesBuffer → MessagesBuffer
drop_tokens thread token_ids b = drop_state b thread token_ids (lookup thread b.threads)

describe_message : BufferMessage → String
describe_message (human text) = text
describe_message (ai text) = ""
describe_message (system text) = ""

pub record Snapshot : Type 0 where
  pub id : String
  pub text : String
  pub ts : ℕ

pub snapshot : String → MessagesBuffer → List Snapshot
unfolding describe_message
snapshot thread b = elim (lookup thread b.threads) [
  | none ↦ []
  | some s ↦
      map (λ (q : QueuedItem). record { id = q.id; text = describe_message q.msg; ts = q.ts })
        s.queue
]

-- What waits for a thread, oldest first.
pub items : String → MessagesBuffer → List QueuedItem
items thread b = elim (lookup thread b.threads) [ none ↦ [] | some s ↦ s.queue ]

abbrev pub pending : String → MessagesBuffer → List BufferMessage
pending thread b = messages_of (items thread b)
