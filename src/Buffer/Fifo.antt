-- ===== src/Buffer/Fifo.antt =====
-- `MessagesBuffer` refines one FIFO queue of messages per thread.
use mathlib.Core.Path.{◌≡⟨◌⟩◌, ◌∎}
use mathlib.Core.List.{append-nil, append_assoc, map-append}
use agynio.Prelude.{
  ℕ, suc, ◌+◌, String, ◌≡◌, refl, sym, ap, Bool-cases, inl, inr, false, Option, none, some, List,
  [], ◌∷◌, ◌++◌, arith, str_eq, eq_iff, if◌then◌else◌, length, lookup, insert, lookup-insert,
}
use agynio.Prelude.Int.{ℤ}
use agynio.Buffer.{
  BufferMessage, ProcessBuffer, one_by_one, all_together, QueuedItem, ThreadState, MessagesBuffer,
  set_debounce_ms, to_queued_items, push_batch, enqueue, enqueue_with_token, consume, store,
  drain_state, drain_items, messages_of, try_drain, try_drain_descriptor, ensure, items, pending,
}

-- The calls of the buffer that neither drop nor clear messages, with their times.
pub data Call : Type 0 where
  enqueues : String → List BufferMessage → ℕ → Call
  enqueues_with_token : String → String → List BufferMessage → ℕ → Call
  drains : String → ProcessBuffer → ℕ → Call
  drains_descriptor : String → ProcessBuffer → ℕ → Call
  sets_debounce : ℤ → Call

items-insert :
    (b : MessagesBuffer) (thread j : String) (s : ThreadState) (d : ℕ)
    → items j (record b { threads = insert thread s b.threads; drawn = d })
      ≡ (if str_eq thread j then s.queue else items j b)
unfolding items
items-insert b thread j s d = ground (arith, lookup-insert thread j s b.threads)

pub items-store :
    (b : MessagesBuffer) (thread j : String) (s : ThreadState) (queue : List QueuedItem)
    → items j (store b thread s queue) ≡ (if str_eq thread j then queue else items j b)
unfolding store
items-store b thread j s queue = items-insert b thread j (record s { queue = queue }) b.drawn

queue-ensure : (b : MessagesBuffer) (thread : String) → (ensure b thread).queue ≡ items thread b
unfolding ensure items
queue-ensure b thread = ground arith

-- What a drain does to the queues: `taken` is the front of the thread's queue, the rest stays, and
-- no other thread is touched.
pub record Takes (thread : String) (b : MessagesBuffer) (r : List QueuedItem × MessagesBuffer)
    : Type 0 where
  pub front : items thread b ≡ r.0 ++ items thread r.1
  pub others : (j : String) → str_eq thread j ≡ false → items j r.1 ≡ items j b

Takes-none : (thread : String) (b : MessagesBuffer) → Takes thread b ([], b)
Takes-none thread b = record { front = refl; others = λ j h. refl }

consume-front :
    (mode : ProcessBuffer) (queue : List QueuedItem)
    → (consume mode queue).0 ++ (consume mode queue).1 ≡ queue
unfolding consume
consume-front all_together queue = append-nil queue
consume-front one_by_one [] = refl
consume-front one_by_one (q ∷ queue) = refl

module _ (thread : String) (mode : ProcessBuffer) (b : MessagesBuffer) (s : ThreadState) where
  taken-Takes :
      lookup thread b.threads ≡ some s
      → Takes thread b ((consume mode s.queue).0, store b thread s (consume mode s.queue).1)
  unfolding items
  taken-Takes e = record {
    front = ground (
      arith,
      e,
      eq_iff thread thread,
      consume-front mode s.queue,
      items-store b thread thread s (consume mode s.queue).1,
    );
    others = λ j h. ground (arith, items-store b thread j s (consume mode s.queue).1);
  }

drain_state-Takes :
    (thread : String) (mode : ProcessBuffer) (now : ℕ) (b : MessagesBuffer) (o : Option ThreadState)
    → lookup thread b.threads ≡ o
    → Takes thread b (drain_state b thread mode now o)
unfolding drain_state
drain_state-Takes thread mode now b none e = Takes-none thread b
drain_state-Takes thread mode now b (some s) e =
    ground (arith, Takes-none thread b, taken-Takes thread mode b s e)

pub drain_items-Takes :
    (thread : String) (mode : ProcessBuffer) (now : ℕ) (b : MessagesBuffer)
    → Takes thread b (drain_items thread mode now b)
unfolding drain_items
drain_items-Takes thread mode now b =
    drain_state-Takes thread mode now b (lookup thread b.threads) refl

-- The messages of a queue, before and after a drain.
pub pending-drain :
    (thread j : String) (mode : ProcessBuffer) (now : ℕ) (b : MessagesBuffer)
    → pending j b ++ []
      ≡ (if str_eq thread j then messages_of (drain_items thread mode now b).0 else [])
        ++ pending j (drain_items thread mode now b).1
pending-drain thread j mode now b =
    let t = drain_items-Takes thread mode now b in
    let r = drain_items thread mode now b in
    elim (Bool-cases (str_eq thread j)) [
      | inl same ↦
          let e : thread ≡ j = (eq_iff thread j).0 same in
          rw (append-nil, same, ← e, t.front) (map-append (λ (q : QueuedItem). q.msg) r.0 _)
      | inr other ↦ rw (append-nil, other, t.others j other) refl
    ]

module _ (random_uuid : ℕ → String) where
  msgs-to_queued_items :
      (ms : List BufferMessage) (now : ℕ) (token : Option String) (drawn : ℕ)
      → messages_of (to_queued_items random_uuid ms now token drawn) ≡ ms
  unfolding to_queued_items
  msgs-to_queued_items [] now token drawn = refl
  msgs-to_queued_items (m ∷ ms) now token drawn =
      ap (◌∷◌ m) (msgs-to_queued_items ms now token (suc drawn))

  pub pending-push_batch :
      (thread j : String) (token : Option String) (ms : List BufferMessage) (now : ℕ)
      (b : MessagesBuffer)
      → pending j (push_batch random_uuid thread token ms now b)
        ≡ (if str_eq thread j then pending j b ++ ms else pending j b)
  unfolding push_batch
  pending-push_batch thread j token [] now b = ground (arith, append-nil (pending j b))
  pending-push_batch thread j token (m ∷ ms) now b = ground (
    arith,
    eq_iff thread j,
    queue-ensure b thread,
    items-insert b thread j
        (record { queue = (ensure b thread).queue ++ fresh_items; last_enqueue_at = now })
        (b.drawn + length (m ∷ ms)),
    map-append (λ (q : QueuedItem). q.msg) (items thread b) fresh_items,
    msgs-to_queued_items (m ∷ ms) now token b.drawn,
  )
    where
      fresh_items : List QueuedItem
      fresh_items = to_queued_items random_uuid (m ∷ ms) now token b.drawn

  -- The state after a call.
  after : Call → MessagesBuffer → MessagesBuffer
  after (enqueues thread ms now) b = enqueue random_uuid thread ms now b
  after (enqueues_with_token thread token ms now) b =
      enqueue_with_token random_uuid thread token ms now b
  after (drains thread mode now) b = (try_drain thread mode now b).1
  after (drains_descriptor thread mode now) b = (try_drain_descriptor thread mode now b).1
  after (sets_debounce ms) b = set_debounce_ms ms b

  -- What a call hands to the thread `j`.
  put_by : String → Call → List BufferMessage
  put_by j (enqueues thread ms now) = if str_eq thread j then ms else []
  put_by j (enqueues_with_token thread token ms now) = if str_eq thread j then ms else []
  put_by j _ = []

  -- What a call returns of the thread `j`.
  got_by : String → Call → MessagesBuffer → List BufferMessage
  got_by j (drains thread mode now) b =
      if str_eq thread j then (try_drain thread mode now b).0 else []
  got_by j (drains_descriptor thread mode now) b =
      if str_eq thread j then (try_drain_descriptor thread mode now b).0.messages else []
  got_by j _ b = []

  pending-after :
      (j : String) (c : Call) (b : MessagesBuffer)
      → pending j b ++ put_by j c ≡ got_by j c b ++ pending j (after c b)
  unfolding after put_by got_by enqueue enqueue_with_token set_debounce_ms try_drain
      try_drain_descriptor
  pending-after j (enqueues thread ms now) b =
      ground (arith, pending-push_batch thread j none ms now b, append-nil (pending j b))
  pending-after j (enqueues_with_token thread token ms now) b =
      ground (arith, pending-push_batch thread j (some token) ms now b, append-nil (pending j b))
  pending-after j (drains thread mode now) b = pending-drain thread j mode now b
  pending-after j (drains_descriptor thread mode now) b = pending-drain thread j mode now b
  pending-after j (sets_debounce ms) b = unfold items in append-nil (pending j b)

  pub run : List Call → MessagesBuffer → MessagesBuffer
  run [] b = b
  run (c ∷ cs) b = run cs (after c b)

  -- All that the calls hand to the thread `j`, and all that they return of it, in order.
  pub put_all : String → List Call → List BufferMessage
  put_all j [] = []
  put_all j (c ∷ cs) = put_by j c ++ put_all j cs

  pub got_all : String → List Call → MessagesBuffer → List BufferMessage
  got_all j [] b = []
  got_all j (c ∷ cs) b = got_by j c b ++ got_all j cs (after c b)

  -- Whatever the sequence of enqueues (with a token or not), drains of either kind and mode and
  -- debounce changes, over any threads and times: for every thread, what the drains have returned
  -- followed by what is still queued is what was queued before followed by what was enqueued, in
  -- the same order. Nothing is lost, doubled, reordered or moved to another thread.
  pub run-fifo :
      (j : String) (cs : List Call) (b : MessagesBuffer)
      → got_all j cs b ++ pending j (run cs b) ≡ pending j b ++ put_all j cs
  unfolding run put_all got_all
  run-fifo j [] b = sym (append-nil (pending j b))
  run-fifo j (c ∷ cs) b =
      got_all j (c ∷ cs) b ++ pending j (run cs (after c b))
      ≡⟨ append_assoc (got_by j c b) (got_all j cs (after c b)) (pending j (run cs (after c b))) ⟩
        got_by j c b ++ (got_all j cs (after c b) ++ pending j (run cs (after c b)))
      ≡⟨ ap (◌++◌ (got_by j c b)) (run-fifo j cs (after c b)) ⟩
        got_by j c b ++ (pending j (after c b) ++ put_all j cs)
      ≡⟨ sym (append_assoc (got_by j c b) (pending j (after c b)) (put_all j cs)) ⟩
        (got_by j c b ++ pending j (after c b)) ++ put_all j cs
      ≡⟨ ap (λ l. l ++ put_all j cs) (sym (pending-after j c b)) ⟩
        (pending j b ++ put_by j c) ++ put_all j cs
      ≡⟨ append_assoc (pending j b) (put_by j c) (put_all j cs) ⟩
        pending j b ++ put_all j (c ∷ cs) ∎
