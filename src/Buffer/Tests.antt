-- ===== src/Buffer/Tests.antt =====
-- The buffer on concrete inputs: tests, and an instance of each of its theorems.
use agynio.Prelude.{
  ℕ, String, ◌≡◌, refl, false, not, some, List, [], ◌∷◌, ◌++◌, length, lookup, insert,
}
use agynio.Prelude.Int.{pos, negsuc}
use agynio.Buffer.{
  drain_items, ai, human, one_by_one, all_together, MessagesBuffer, init, set_debounce_ms, enqueue,
  enqueue_with_token, try_drain, try_drain_descriptor, next_ready_at, clear_thread, destroy,
  drop_tokens, snapshot, items, pending,
}
use agynio.Buffer.Fifo.{
  Call, enqueues, enqueues_with_token, drains, drains_descriptor, sets_debounce, run, put_all,
  got_all, run-fifo,
}
use agynio.Buffer.Readiness.{is_empty, is_due, drain-next_ready_at}
use agynio.Buffer.Tokens.{Describes, drain_descriptor-Describes, Drops, drop_tokens-Drops}
use agynio.Buffer.Stepwise.{drain_each, drain_each-eq-all}

abbrev uuid : ℕ → String
uuid n = "id"

-- A debounce of 50 ms; three messages for `t`, two of them under tokens, the last at 120.
abbrev loaded : MessagesBuffer
loaded = enqueue_with_token uuid "t" "b" (ai "3" ∷ []) 120 (
    enqueue_with_token uuid "t" "a" (human "2" ∷ []) 110
      (enqueue uuid "t" (human "1" ∷ []) 100 (init (pos 50))))

loaded_held : (try_drain "t" all_together 169 loaded).0 ≡ []
unfolding init enqueue enqueue_with_token try_drain lookup insert drain_items
    agynio.Buffer.to_queued_items
loaded_held = refl

loaded_drained : (try_drain "t" one_by_one 170 loaded).0 ≡ human "1" ∷ []
unfolding init enqueue enqueue_with_token try_drain lookup insert drain_items
    agynio.Buffer.to_queued_items
loaded_drained = refl

loaded_parts :
    (try_drain_descriptor "t" all_together 200 loaded).0.token_parts ≡ ("a", 1) ∷ ("b", 1) ∷ []
unfolding init enqueue enqueue_with_token try_drain_descriptor lookup insert
    agynio.Buffer.count_parts drain_items agynio.Buffer.to_queued_items
loaded_parts = refl

loaded_cleared : ((clear_thread "t" loaded).0 ≡ 3) × (pending "t" (clear_thread "t" loaded).1 ≡ [])
unfolding init enqueue enqueue_with_token clear_thread items lookup insert
    agynio.Buffer.to_queued_items
loaded_cleared = (refl, refl)

loaded_destroyed : pending "t" (destroy loaded) ≡ []
unfolding destroy items lookup
loaded_destroyed = refl

negative_debounce : next_ready_at "t" 7 (set_debounce_ms (negsuc 4) loaded) ≡ some 7
unfolding init enqueue enqueue_with_token set_debounce_ms next_ready_at lookup insert
    agynio.Buffer.to_queued_items
negative_debounce = refl

snapshot-loaded :
    snapshot "t" (drop_tokens "t" ("a" ∷ []) loaded)
    ≡ record { id = "id"; text = "1"; ts = 100 } ∷ record { id = "id"; text = ""; ts = 120 } ∷ []
unfolding init enqueue enqueue_with_token drop_tokens snapshot lookup insert
    agynio.Buffer.drop_state agynio.Buffer.to_queued_items agynio.Buffer.store
snapshot-loaded = refl

abbrev session : List Call
session =
    enqueues "t" (human "1" ∷ human "2" ∷ []) 10
    ∷ sets_debounce (pos 5)
    ∷ enqueues_with_token "u" "k" (ai "3" ∷ []) 11
    ∷ drains "t" one_by_one 30
    ∷ drains_descriptor "u" all_together 31
    ∷ []

run-fifo_example :
    got_all uuid "t" session (init (pos 0)) ++ pending "t" (run uuid session (init (pos 0)))
    ≡ pending "t" (init (pos 0)) ++ put_all uuid "t" session
run-fifo_example = run-fifo uuid "t" session (init (pos 0))

drain-next_ready_at_example :
    (is_empty (try_drain "t" all_together 169 loaded).0
      ≡ not (is_due (next_ready_at "t" 169 loaded) 169))
    × (is_due (next_ready_at "t" 169 loaded) 169 ≡ false
        → (try_drain "t" all_together 169 loaded).1 ≡ loaded)
drain-next_ready_at_example = drain-next_ready_at "t" all_together 169 loaded

drain_descriptor-Describes_example :
    Describes "t" loaded (try_drain_descriptor "t" all_together 200 loaded)
drain_descriptor-Describes_example = drain_descriptor-Describes "t" all_together 200 loaded

drop_tokens-Drops_example : Drops "t" ("a" ∷ []) loaded (drop_tokens "t" ("a" ∷ []) loaded)
drop_tokens-Drops_example = drop_tokens-Drops "t" ("a" ∷ []) loaded

drain_each-eq-all_example :
    (drain_each (length (items "t" loaded)) "t" 200 loaded).0
    ≡ (try_drain "t" all_together 200 loaded).0
drain_each-eq-all_example = drain_each-eq-all "t" 200 loaded
