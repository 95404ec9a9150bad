-- ===== src/Agent/Idle.antt =====
-- When the next run of a thread starts, and when messages stay in its queue.
use agynio.Prelude.{
  ℕ, ◌≡◌, refl, sym, ap, ◌∙◌, String, Bool, true, false, Option, none, some, List, [], ◌∷◌, ◌++◌,
  str_eq, arith, has, if◌then◌else◌, Bool-cases, inl, inr, not, ◌||◌, All, All-append,
}
use agynio.Buffer.{BufferMessage, ProcessBuffer, try_drain, enqueue, MessagesBuffer, pending}
use agynio.Buffer.Readiness.{is_empty}
use agynio.Buffer.Pending.{
  pending-enqueue, pending-try_drain, pending-clear_thread, pending-set_debounce_ms,
}
use agynio.Agent.Places.{All-nth, All-remove_nth, All-set_nth}
use agynio.Agent.{
  Behavior, Plan, throws, Phase, beginning, ensuring, looping, settling, Run, Agent, Event, invokes,
  begun, ensured, injects, loop_ended, settles, terminates, clears, nth, set_nth, remove_nth,
  without, invoke, leave, begin_reply, ensure_reply, inject, end_loop, settle, start_next, step_run,
  step, run, at, complete, drain_mode, Completion,
}

-- No run of the thread is in flight, and it does not count as running.
module _ (j : String) where
  abbrev pub IsOther : Run → Type 0
  IsOther r = str_eq r.thread j ≡ false

  pub record IsIdle (s : Agent) : Type 0 where
    pub stopped : has s.running_threads j ≡ false
    pub others : All IsOther s.in_flight

  -- Neither messages for the thread nor the clearing of its queue.
  abbrev pub IsQuiet : Event → Type 0
  IsQuiet (invokes thread ms now) = str_eq thread j ≡ false
  IsQuiet (clears thread) = str_eq thread j ≡ false
  IsQuiet _ = Unit

  -- The thread stays idle with the same queue.
  pub record Stays (s s' : Agent) : Type 0 where
    pub idle : IsIdle s'
    pub queue : pending j s'.buffer ≡ pending j s.buffer

  pending-enqueue_other :
      (random_uuid : ℕ → String) (thread : String) (ms : List BufferMessage) (now : ℕ)
      (b : MessagesBuffer)
      → str_eq thread j ≡ false
      → pending j (enqueue random_uuid thread ms now b) ≡ pending j b
  pending-enqueue_other random_uuid thread ms now b other =
      pending-enqueue j b random_uuid thread ms now
      ∙ ap (λ c. if c then pending j b ++ ms else pending j b) other

  pending-try_drain_other :
      (thread : String) (mode : ProcessBuffer) (now : ℕ) (b : MessagesBuffer)
      → str_eq thread j ≡ false
      → pending j (try_drain thread mode now b).1 ≡ pending j b
  pending-try_drain_other thread mode now b other = sym (
      pending-try_drain j b thread mode now
      ∙ ap
          (λ c.
            (if c then (try_drain thread mode now b).0 else [])
            ++ pending j (try_drain thread mode now b).1)
          other)

  has-snoc_other :
      (xs : List String) (x : String)
      → str_eq x j ≡ false
      → has xs j ≡ false
      → has (xs ++ x ∷ []) j ≡ false
  has-snoc_other [] x h g = rw h refl
  has-snoc_other (y ∷ xs) x h g = ground (arith, g, has-snoc_other xs x h)

  has-without_other :
      (k : String) (xs : List String) → has xs j ≡ false → has (without k xs) j ≡ false
  has-without_other k [] h = refl
  has-without_other k (x ∷ xs) h = ground (arith, has-without_other k xs)

  module _ (random_uuid : ℕ → String) (mode : ProcessBuffer) where
    invoke-Stays :
        (thread : String) (ms : List BufferMessage) (now : ℕ) (s : Agent)
        → str_eq thread j ≡ false
        → IsIdle s
        → Stays s (invoke random_uuid mode thread ms now s)
    unfolding invoke
    invoke-Stays thread ms now s other idle = elim (Bool-cases (has s.running_threads thread)) [
      | inl busy ↦ rw busy (record {
        idle = record { stopped = idle.stopped; others = idle.others };
        queue = pending-enqueue_other random_uuid thread ms now s.buffer other;
      })
      | inr free ↦ rw free (record {
        idle = record {
          stopped = has-snoc_other s.running_threads thread other idle.stopped;
          others = All-append IsOther s.in_flight _ idle.others (other, tt);
        };
        queue = refl;
      })
    ]

    start_next-Stays :
        (thread : String) (drain : ProcessBuffer) (now : ℕ) (s : Agent)
        → str_eq thread j ≡ false
        → IsIdle s
        → Stays s (start_next random_uuid mode thread drain now s)
    unfolding start_next
    start_next-Stays thread drain now s other idle = go (is_empty taken)
      where
        taken : List BufferMessage
        taken = (try_drain thread drain now s.buffer).0

        s' : Agent
        s' = record s { buffer = (try_drain thread drain now s.buffer).1 }

        idle' : IsIdle s'
        idle' = record { stopped = idle.stopped; others = idle.others }

        same : pending j s'.buffer ≡ pending j s.buffer
        same = pending-try_drain_other thread drain now s.buffer other

        go : (b : Bool) → Stays s (if b then s' else invoke random_uuid mode thread taken now s')
        go true = record { idle = idle'; queue = same }
        go false =
            let next = invoke-Stays thread taken now s' other idle' in
            record { idle = next.idle; queue = next.queue ∙ same }

    module _ (i : ℕ) (r : Run) (s : Agent) (here : nth i s.in_flight ≡ some r)
        (idle : IsIdle s) where
      other_run : str_eq r.thread j ≡ false
      other_run = All-nth IsOther i s.in_flight r here idle.others

      move-IsIdle :
          (p : Phase) (s' : Agent)
          → s'.running_threads ≡ s.running_threads
          → s'.in_flight ≡ set_nth i (record r { phase = p }) s.in_flight
          → IsIdle s'
      move-IsIdle p s' same moved = record {
        stopped = rw same idle.stopped;
        others =
            rw moved
              (All-set_nth IsOther i s.in_flight (record r { phase = p }) other_run idle.others);
      }

      leave-IsIdle :
          (s' : Agent)
          → s'.running_threads ≡ without r.thread s.running_threads
          → s'.in_flight ≡ remove_nth i s.in_flight
          → IsIdle s'
      leave-IsIdle s' left moved = record {
        stopped = rw left (has-without_other r.thread s.running_threads idle.stopped);
        others = rw moved (All-remove_nth IsOther i s.in_flight idle.others);
      }

      inject-Stays :
          (run_id : String) (b : Behavior) (recorded : Bool) (now : ℕ)
          → Stays s (inject i r run_id b recorded now s)
      unfolding inject
      inject-Stays run_id b recorded now = go (not b.inject_after_tools || is_empty taken) recorded
        where
          taken : List BufferMessage
          taken = (try_drain r.thread b.process_buffer now s.buffer).0

          buffer' : MessagesBuffer
          buffer' = (try_drain r.thread b.process_buffer now s.buffer).1

          same : pending j buffer' ≡ pending j s.buffer
          same = pending-try_drain_other r.thread b.process_buffer now s.buffer other_run

          failed : Phase
          failed = settling run_id (some b) throws

          go :
              (nothing w : Bool)
              → Stays s (
                  if nothing
                  then s
                  else if w
                  then record s { buffer = buffer'; handed = s.handed ++ (r.thread, taken) ∷ [] }
                  else record s {
                    buffer = buffer';
                    dropped = s.dropped ++ (r.thread, taken) ∷ [];
                    in_flight = set_nth i (record r { phase = failed }) s.in_flight;
                  })
          go true w = record { idle = idle; queue = refl }
          go false true = record {
            idle = record { stopped = idle.stopped; others = idle.others };
            queue = same;
          }
          go false false = record { idle = move-IsIdle failed _ refl refl; queue = same }

      settle-Stays :
          (run_id : String) (b : Option Behavior) (plan : Plan) (first second : Completion)
          (now : ℕ)
          → Stays s (settle random_uuid mode i r run_id b plan first second now s)
      unfolding settle leave
      settle-Stays run_id b plan first second now =
          go (complete plan first second run_id s.statuses).1
        where
          left : Agent
          left =
              leave i r (some run_id)
                (record s { statuses = (complete plan first second run_id s.statuses).0 })

          idle' : IsIdle left
          idle' = leave-IsIdle left refl refl

          go :
              (thrown : Bool)
              → Stays s (
                  if thrown
                  then left
                  else start_next random_uuid mode r.thread
                      (drain_mode random_uuid mode b)
                      now
                      left)
          go true = record { idle = idle'; queue = refl }
          go false =
              let next =
                start_next-Stays r.thread (drain_mode random_uuid mode b) now left other_run
                  idle' in
              record { idle = next.idle; queue = next.queue }

      step_run-Stays : (e : Event) (p : Phase) → Stays s (step_run random_uuid mode e i r p s)
      unfolding step_run begin_reply ensure_reply end_loop leave
      step_run-Stays (begun _ none) (beginning ms) = record {
        idle = leave-IsIdle _ refl refl;
        queue = refl;
      }
      step_run-Stays (begun _ (some run_id)) (beginning ms) = record {
        idle = move-IsIdle (ensuring run_id) _ refl refl;
        queue = refl;
      }
      step_run-Stays (ensured _ none) (ensuring run_id) = record {
        idle = move-IsIdle (settling run_id none throws) _ refl refl;
        queue = refl;
      }
      step_run-Stays (ensured _ (some b)) (ensuring run_id) = record {
        idle = move-IsIdle (looping run_id b) _ refl refl;
        queue = pending-set_debounce_ms j s.buffer b.debounce_ms;
      }
      step_run-Stays (injects _ recorded now) (looping run_id b) =
          inject-Stays run_id b recorded now
      step_run-Stays (loop_ended _ reply) (looping run_id b) = record {
        idle = move-IsIdle _ _ refl refl;
        queue = refl;
      }
      step_run-Stays (settles _ first second now) (settling run_id b plan) =
          settle-Stays run_id b plan first second now
      step_run-Stays _ _ = record { idle = idle; queue = refl }

    at-Stays : (i : ℕ) (e : Event) (s : Agent) → IsIdle s → Stays s (at random_uuid mode i e s)
    at-Stays i e s idle = go (nth i s.in_flight) refl
      where
        go :
            (o : Option Run)
            → nth i s.in_flight ≡ o
            → Stays s (elim o [ none ↦ s | some r ↦ step_run random_uuid mode e i r r.phase s ])
        go none here = record { idle = idle; queue = refl }
        go (some r) here = step_run-Stays i r s here idle e r.phase

    step-Stays :
        (e : Event) (s : Agent) → IsQuiet e → IsIdle s → Stays s (step random_uuid mode e s)
    unfolding step
    step-Stays (invokes thread ms now) s quiet idle = invoke-Stays thread ms now s quiet idle
    step-Stays (terminates run_id) s quiet idle = record {
      idle = record { stopped = idle.stopped; others = idle.others };
      queue = refl;
    }
    step-Stays (clears thread) s quiet idle = record {
      idle = record { stopped = idle.stopped; others = idle.others };
      queue =
          pending-clear_thread j s.buffer thread
          ∙ ap (λ c. if c then [] else pending j s.buffer) quiet;
    }
    step-Stays (begun i reply) s quiet idle = at-Stays i (begun i reply) s idle
    step-Stays (ensured i reply) s quiet idle = at-Stays i (ensured i reply) s idle
    step-Stays (injects i recorded now) s quiet idle = at-Stays i (injects i recorded now) s idle
    step-Stays (loop_ended i reply) s quiet idle = at-Stays i (loop_ended i reply) s idle
    step-Stays (settles i first second now) s quiet idle =
        at-Stays i (settles i first second now) s idle

    pub run-Stays :
        (es : List Event) (s : Agent)
        → All IsQuiet es
        → IsIdle s
        → Stays s (run random_uuid mode es s)
    unfolding run
    run-Stays [] s quiet idle = record { idle = idle; queue = refl }
    run-Stays (e ∷ es) s quiet idle =
        let first = step-Stays e s quiet.0 idle in
        let rest = run-Stays es (step random_uuid mode e s) quiet.1 first.idle in
        record { idle = rest.idle; queue = rest.queue ∙ first.queue }
