-- ===== src/Buffer/Pending.antt =====
-- What the calls of `MessagesBuffer` do to the messages that wait, for its clients.
use mathlib.Core.List.{append-nil}
use agynio.Prelude.{
  ℕ, ◌≡◌, refl, sym, ◌∙◌, String, none, List, [], ◌++◌, str_eq, if◌then◌else◌, arith, lookup-insert,
  eq_iff,
}
use agynio.Prelude.Int.{ℤ}
use agynio.Buffer.{
  BufferMessage, ProcessBuffer, MessagesBuffer, enqueue, try_drain, clear_thread, set_debounce_ms,
  pending, items, fresh,
}
use agynio.Buffer.Fifo.{pending-drain, pending-push_batch}

module _ (j : String) (b : MessagesBuffer) where
  pub pending-enqueue :
      (random_uuid : ℕ → String) (thread : String) (ms : List BufferMessage) (now : ℕ)
      → pending j (enqueue random_uuid thread ms now b)
        ≡ (if str_eq thread j then pending j b ++ ms else pending j b)
  unfolding enqueue
  pending-enqueue random_uuid thread ms now = pending-push_batch random_uuid thread j none ms now b

  pub pending-try_drain :
      (thread : String) (mode : ProcessBuffer) (now : ℕ)
      → pending j b
        ≡ (if str_eq thread j then (try_drain thread mode now b).0 else [])
          ++ pending j (try_drain thread mode now b).1
  unfolding try_drain
  pending-try_drain thread mode now =
      sym (append-nil (pending j b)) ∙ pending-drain thread j mode now b

  pub pending-set_debounce_ms : (ms : ℤ) → pending j (set_debounce_ms ms b) ≡ pending j b
  unfolding set_debounce_ms items
  pending-set_debounce_ms ms = refl

  pub pending-clear_thread :
      (thread : String)
      → pending j (clear_thread thread b).1 ≡ (if str_eq thread j then [] else pending j b)
  unfolding clear_thread items
  pending-clear_thread thread =
      ground (arith, eq_iff thread j, lookup-insert thread j fresh b.threads)
