-- ===== src/Agent/Conserve/Weights.antt =====
-- The messages of a thread of an agent, counted by weights.
use agynio.Prelude.{
  ℕ, ◌+◌, ◌≡◌, refl, ap, ◌∙◌, String, Bool, true, false, some, List, [], ◌∷◌, ◌++◌, str_eq, arith,
  if◌then◌else◌,
}
use agynio.Buffer.{
  BufferMessage, ProcessBuffer, try_drain, MessagesBuffer, enqueue, clear_thread, pending,
}
use agynio.Buffer.Pending.{pending-enqueue, pending-try_drain, pending-clear_thread}
use agynio.Agent.Places.{sum, sum-snoc, sum-remove_nth, sum-set_nth}
use agynio.Agent.{Phase, beginning, Run, Agent, nth, set_nth, remove_nth}

pub if-same : (b : Bool) (n : ℕ) → (if b then n else n) ≡ n
if-same true n = refl
if-same false n = refl

-- The messages of a thread, each counted by any weight: two lists of the same weight for all weights
-- hold the same messages, as often.
module _ (weight : BufferMessage → ℕ) where
  abbrev pub weigh : List BufferMessage → ℕ
  weigh [] = 0
  weigh (m ∷ ms) = weight m + weigh ms

  abbrev pub weigh_log : String → List (String × List BufferMessage) → ℕ
  weigh_log j [] = 0
  weigh_log j (entry ∷ log) = (if str_eq entry.0 j then weigh (entry.1) else 0) + weigh_log j log

  -- What runs are about to begin with.
  abbrev pub weigh_phase : Phase → ℕ
  weigh_phase (beginning ms) = weigh ms
  weigh_phase _ = 0

  abbrev pub part : String → Run → ℕ
  part j r = if str_eq r.thread j then weigh_phase r.phase else 0

  abbrev pub weigh_runs : String → List Run → ℕ
  weigh_runs j = sum (part j)

  -- All messages of a thread that the agent has been handed, wherever they are.
  abbrev pub weigh_agent : String → Agent → ℕ
  weigh_agent j s =
      weigh_log j s.handed
      + weigh_log j s.dropped
      + weigh_runs j s.in_flight
      + weigh (pending j s.buffer)

  pub weigh-append : (xs ys : List BufferMessage) → weigh (xs ++ ys) ≡ weigh xs + weigh ys
  weigh-append [] ys = omega arith
  weigh-append (x ∷ xs) ys = omega (arith, weigh-append xs ys)

  pub log-snoc :
      (j : String) (log : List (String × List BufferMessage)) (thread : String)
      (ms : List BufferMessage)
      → weigh_log j (log ++ (thread, ms) ∷ [])
        ≡ weigh_log j log + (if str_eq thread j then weigh ms else 0)
  log-snoc j [] thread ms = omega arith
  log-snoc j (entry ∷ log) thread ms = omega (arith, log-snoc j log thread ms)

  pub runs-snoc :
      (j : String) (l : List Run) (r : Run) → weigh_runs j (l ++ r ∷ []) ≡ weigh_runs j l + part j r
  runs-snoc j = sum-snoc (part j)

  pub runs-remove_nth :
      (j : String) (i : ℕ) (l : List Run) (r : Run)
      → nth i l ≡ some r
      → weigh_runs j l ≡ weigh_runs j (remove_nth i l) + part j r
  runs-remove_nth j = sum-remove_nth (part j)

  pub runs-set_nth :
      (j : String) (i : ℕ) (l : List Run) (r : Run) (p : Phase)
      → nth i l ≡ some r
      → weigh_runs j l + part j (record r { phase = p })
        ≡ weigh_runs j (set_nth i (record r { phase = p }) l) + part j r
  runs-set_nth j i l r p = sum-set_nth (part j) i l r (record r { phase = p })

  pub weigh-enqueue :
      (random_uuid : ℕ → String) (thread j : String) (ms : List BufferMessage) (now : ℕ)
      (b : MessagesBuffer)
      → weigh (pending j (enqueue random_uuid thread ms now b))
        ≡ weigh (pending j b) + (if str_eq thread j then weigh ms else 0)
  weigh-enqueue random_uuid thread j ms now b =
      rw (pending-enqueue j b random_uuid thread ms now) (go (str_eq thread j))
    where
      go :
          (here : Bool)
          → weigh (if here then pending j b ++ ms else pending j b)
            ≡ weigh (pending j b) + (if here then weigh ms else 0)
      go true = weigh-append (pending j b) ms
      go false = omega arith

  pub weigh-try_drain :
      (thread j : String) (mode : ProcessBuffer) (now : ℕ) (b : MessagesBuffer)
      → weigh (pending j b)
        ≡ (if str_eq thread j then weigh (try_drain thread mode now b).0 else 0)
          + weigh (pending j (try_drain thread mode now b).1)
  weigh-try_drain thread j mode now b =
      ap weigh (pending-try_drain j b thread mode now) ∙ go (str_eq thread j)
    where
      taken : List BufferMessage
      taken = (try_drain thread mode now b).0

      left : List BufferMessage
      left = pending j (try_drain thread mode now b).1

      go :
          (here : Bool)
          → weigh ((if here then taken else []) ++ left)
            ≡ (if here then weigh taken else 0) + weigh left
      go true = weigh-append taken left
      go false = omega arith

  pub weigh-clear_thread :
      (thread j : String) (b : MessagesBuffer)
      → weigh (pending j (clear_thread thread b).1)
          + (if str_eq thread j then weigh (pending j b) else 0)
        ≡ weigh (pending j b)
  weigh-clear_thread thread j b = rw (pending-clear_thread j b thread) (go (str_eq thread j))
    where
      go :
          (here : Bool)
          → weigh (if here then [] else pending j b) + (if here then weigh (pending j b) else 0)
            ≡ weigh (pending j b)
      go true = omega arith
      go false = omega arith
