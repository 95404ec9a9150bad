-- ===== src/Buffer/Readiness.antt =====
-- The debounce of `MessagesBuffer`: `nextReadyAt` says exactly when a drain returns messages.
use agynio.Prelude.{
  ℕ, String, ◌≡◌, refl, Bool, true, false, not, Option, none, some, List, [], ◌∷◌, arith, leb,
  lookup,
}
use agynio.Buffer.{
  ProcessBuffer, one_by_one, all_together, QueuedItem, ThreadState, MessagesBuffer, consume,
  is_debounced, drain_state, ready_at, drain_items, messages_of, try_drain, next_ready_at,
}

abbrev pub is_empty {ℓ} : {A : Type ℓ} → List A → Bool
is_empty [] = true
is_empty (x ∷ xs) = false

-- A time is named, and it has come.
abbrev pub is_due : Option ℕ → ℕ → Bool
is_due none now = false
is_due (some t) now = leb t now

is_empty-consume :
    (mode : ProcessBuffer) (q : QueuedItem) (queue : List QueuedItem)
    → is_empty (messages_of (consume mode (q ∷ queue)).0) ≡ false
unfolding consume
is_empty-consume one_by_one q queue = refl
is_empty-consume all_together q queue = refl

module _ (thread : String) (mode : ProcessBuffer) (now : ℕ) (b : MessagesBuffer) where
  drain_state-ready_at :
      (s : ThreadState) (queue : List QueuedItem)
      → s.queue ≡ queue
      → (is_empty (messages_of (drain_state b thread mode now (some s)).0)
          ≡ not (is_due (ready_at b now (some s)) now))
        × (is_due (ready_at b now (some s)) now ≡ false
            → (drain_state b thread mode now (some s)).1 ≡ b)
  unfolding drain_state ready_at is_debounced
  drain_state-ready_at s [] e = ground arith
  drain_state-ready_at s (q ∷ queue) e = ground (arith, is_empty-consume mode q queue)

  drain_state-ready :
      (o : Option ThreadState)
      → (is_empty (messages_of (drain_state b thread mode now o).0)
          ≡ not (is_due (ready_at b now o) now))
        × (is_due (ready_at b now o) now ≡ false → (drain_state b thread mode now o).1 ≡ b)
  unfolding drain_state ready_at
  drain_state-ready none = (refl, λ _. refl)
  drain_state-ready (some s) = drain_state-ready_at s s.queue refl

  -- A drain returns messages exactly when `nextReadyAt`, asked at the same time, names a time that
  -- has come; when it does not, the drain changes nothing.
  pub drain-next_ready_at :
      (is_empty (try_drain thread mode now b).0 ≡ not (is_due (next_ready_at thread now b) now))
      × (is_due (next_ready_at thread now b) now ≡ false → (try_drain thread mode now b).1 ≡ b)
  unfolding try_drain drain_items next_ready_at
  drain-next_ready_at = drain_state-ready (lookup thread b.threads)
