-- ===== src/Buffer/Stepwise.antt =====
-- The two process modes of `MessagesBuffer` hand over the same messages.
use agynio.Prelude.{
  ℕ, zero, suc, String, ◌≡◌, refl, ap, false, true, none, some, List, [], ◌∷◌, ◌++◌, arith, eq_iff,
  inl, inr, Bool-cases, Option-cases, length, lookup, lookup-insert,
}
use agynio.Buffer.{
  BufferMessage, ProcessBuffer, one_by_one, all_together, QueuedItem, ThreadState, MessagesBuffer,
  is_debounced, consume, drain_state, drain_items, messages_of, try_drain, store, items,
}

-- Draining a thread `n` times one by one, at one time.
pub drain_each : ℕ → String → ℕ → MessagesBuffer → List BufferMessage × MessagesBuffer
drain_each zero thread now b = ([], b)
drain_each (suc n) thread now b =
    let (out, b') = try_drain thread one_by_one now b in
    let (rest, b'') = drain_each n thread now b' in (out ++ rest, b'')

module _ (thread : String) (now : ℕ) where
  lookup-store :
      (b : MessagesBuffer) (s : ThreadState) (queue : List QueuedItem)
      → lookup thread (store b thread s queue).threads ≡ some (record s { queue = queue })
  unfolding store
  lookup-store b s queue = ground (
    arith,
    lookup-insert thread thread (record s { queue = queue }) b.threads,
    eq_iff thread thread,
  )

  drain_one :
      (q : QueuedItem) (queue : List QueuedItem) (s : ThreadState) (b : MessagesBuffer)
      → lookup thread b.threads ≡ some s
      → s.queue ≡ q ∷ queue
      → is_debounced b s now ≡ false
      → try_drain thread one_by_one now b ≡ (q.msg ∷ [], store b thread s queue)
  unfolding try_drain drain_items drain_state consume
  drain_one q queue s b e k h = ground (arith, e, k, h)

  drain_each-queue :
      (queue : List QueuedItem) (s : ThreadState) (b : MessagesBuffer)
      → lookup thread b.threads ≡ some s
      → s.queue ≡ queue
      → is_debounced b s now ≡ false
      → (drain_each (length queue) thread now b).0 ≡ messages_of queue
  unfolding drain_each
  drain_each-queue [] s b e k h = refl
  drain_each-queue (q ∷ queue) s b e k h = rw (drain_one q queue s b e k h) (
      ap (◌∷◌ q.msg) (
        drain_each-queue queue (record s { queue = queue }) (store b thread s queue)
          (lookup-store b s queue) refl (unfold is_debounced store in h)))

  -- A drain that returns nothing and changes nothing stays so.
  drain_each-idle :
      (n : ℕ) (b : MessagesBuffer)
      → try_drain thread one_by_one now b ≡ ([], b)
      → (drain_each n thread now b).0 ≡ []
  unfolding drain_each
  drain_each-idle zero b h = refl
  drain_each-idle (suc n) b h = rw h (drain_each-idle n b h)

  try_drain-debounced :
      (mode : ProcessBuffer) (s : ThreadState) (b : MessagesBuffer)
      → lookup thread b.threads ≡ some s
      → is_debounced b s now ≡ true
      → try_drain thread mode now b ≡ ([], b)
  unfolding try_drain drain_items drain_state
  try_drain-debounced mode s b e h = ground (arith, e, h)

  try_drain-all :
      (s : ThreadState) (b : MessagesBuffer)
      → lookup thread b.threads ≡ some s
      → is_debounced b s now ≡ false
      → (try_drain thread all_together now b).0 ≡ messages_of s.queue
  unfolding try_drain drain_items drain_state consume
  try_drain-all s b e h = ground (arith, e, h)

  try_drain-none :
      (mode : ProcessBuffer) (b : MessagesBuffer)
      → lookup thread b.threads ≡ none
      → try_drain thread mode now b ≡ ([], b)
  unfolding try_drain drain_items drain_state
  try_drain-none mode b e = ground (arith, e)

  items-eq-queue :
      (s : ThreadState) (b : MessagesBuffer)
      → lookup thread b.threads ≡ some s
      → items thread b ≡ s.queue
  unfolding items
  items-eq-queue s b e = ground (arith, e)

  -- At one time, as many drains one by one as the thread has items return together, in order,
  -- exactly what a single drain of all returns: both nothing where the debounce holds them back.
  pub drain_each-eq-all :
      (b : MessagesBuffer)
      → (drain_each (length (items thread b)) thread now b).0
        ≡ (try_drain thread all_together now b).0
  drain_each-eq-all b = elim (Option-cases (lookup thread b.threads)) [
    | inl e ↦
        rw (try_drain-none all_together b e) (drain_each-idle _ b (try_drain-none one_by_one b e))
    | inr (s, e) ↦ elim (Bool-cases (is_debounced b s now)) [
      | inl h ↦
          rw (try_drain-debounced all_together s b e h)
            (drain_each-idle _ b (try_drain-debounced one_by_one s b e h))
      | inr h ↦
          rw (items-eq-queue s b e, try_drain-all s b e h) (drain_each-queue s.queue s b e refl h)
    ]
  ]
