-- ===== src/Agent/Next.antt =====
-- What a settled run leaves: the next run of its thread, or an idle thread.
use agynio.Prelude.{
  ℕ, ◌≡◌, refl, sym, ap, ◌∙◌, String, Bool, true, false, Option, none, some, List, [], ◌∷◌, ◌++◌,
  str_eq, eq_refl, arith, has, if◌then◌else◌, not, ◌&&◌, All,
}
use agynio.Buffer.{BufferMessage, ProcessBuffer, try_drain, pending, next_ready_at}
use agynio.Buffer.Readiness.{is_empty, is_due, drain-next_ready_at}
use agynio.Buffer.Pending.{pending-try_drain}
use agynio.Agent.Threads.{IsExclusive, threads_of, without-threads, Distinct}
use agynio.Agent.Idle.{IsIdle, IsOther, IsQuiet, run-Stays}
use agynio.Agent.{
  Behavior, Plan, beginning, settling, Run, Agent, Event, settles, nth, remove_nth, without, invoke,
  leave, settle, start_next, step_run, step, run, complete, drain_mode, Completion,
}

has-without_self : (k : String) (xs : List String) → has (without k xs) k ≡ false
has-without_self k [] = refl
has-without_self k (x ∷ xs) = ground (arith, has-without_self k xs)

All-IsOther : (j : String) (l : List Run) → has (threads_of l) j ≡ false → All (IsOther j) l
All-IsOther j [] h = tt
All-IsOther j (r ∷ l) h =
    let split : (str_eq r.thread j ≡ false) × (has (threads_of l) j ≡ false) = ground (arith, h) in
    (split.0, All-IsOther j l split.1)

module _ (random_uuid : ℕ → String) (mode : ProcessBuffer) (i : ℕ) (r : Run) where
  -- The next run begins with the front of the queue.
  pub record Continues (s s' : Agent) : Type 0 where
    pub taken : List BufferMessage
    pub some_taken : is_empty taken ≡ false
    pub front : pending r.thread s.buffer ≡ taken ++ pending r.thread s'.buffer
    pub next_run :
        s'.in_flight
        ≡ remove_nth i s.in_flight ++ record { thread = r.thread; phase = beginning taken } ∷ []

  -- The thread is idle, and its queue stays as it is until a message arrives or it is cleared.
  pub record Rests (s s' : Agent) : Type 0 where
    pub idle : IsIdle r.thread s'
    pub still :
        (es : List Event)
        → All (IsQuiet r.thread) es
        → pending r.thread (run random_uuid mode es s').buffer ≡ pending r.thread s.buffer

  abbrev pub Next : Bool → Agent → Agent → Type 0
  Next true = Continues
  Next false = Rests

  module _ (s : Agent) (x : IsExclusive s) (here : nth i s.in_flight ≡ some r) where
    module _ (left : Agent) (gone : left.running_threads ≡ without r.thread s.running_threads)
        (moved : left.in_flight ≡ remove_nth i s.in_flight) where
      left-IsIdle : IsIdle r.thread left
      left-IsIdle =
          let distinct : Distinct (threads_of s.in_flight) = rw (← x.same) x.apart in
          let absent : has (threads_of (remove_nth i s.in_flight)) r.thread ≡ false =
            rw (← without-threads i s.in_flight r here distinct)
              (has-without_self r.thread (threads_of s.in_flight)) in
          record {
            stopped = rw gone (has-without_self r.thread s.running_threads);
            others = rw moved (All-IsOther r.thread (remove_nth i s.in_flight) absent);
          }

      Rests-left :
          (s' : Agent)
          → s'.running_threads ≡ left.running_threads
          → s'.in_flight ≡ left.in_flight
          → s'.buffer ≡ s.buffer
          → Rests s s'
      Rests-left s' same flights buffers =
          let idle' : IsIdle r.thread s' = record {
            stopped = rw same left-IsIdle.stopped;
            others = rw flights left-IsIdle.others;
          } in
          record {
            idle = idle';
            still = λ es quiet.
                (run-Stays r.thread random_uuid mode es s' quiet idle').queue
                ∙ ap (pending r.thread) buffers;
          }

      start_next-Next :
          (drain : ProcessBuffer) (now : ℕ)
          → left.buffer ≡ s.buffer
          → Next
              (is_due (next_ready_at r.thread now left.buffer) now)
              s
              (start_next random_uuid mode r.thread drain now left)
      unfolding start_next invoke
      start_next-Next drain now buffers =
          go (is_due (next_ready_at r.thread now left.buffer) now) refl
        where
          taken : List BufferMessage
          taken = (try_drain r.thread drain now left.buffer).0

          s' : Agent
          s' = record left { buffer = (try_drain r.thread drain now left.buffer).1 }

          go :
              (due : Bool)
              → is_due (next_ready_at r.thread now left.buffer) now ≡ due
              → Next due s
                  (if is_empty taken then s' else invoke random_uuid mode r.thread taken now s')
          go true e =
              let more : is_empty taken ≡ false =
                (drain-next_ready_at r.thread drain now left.buffer).0 ∙ ap not e in
              rw (more, left-IsIdle.stopped)
                (record {
                  taken = taken;
                  some_taken = more;
                  front =
                      ap (pending r.thread) (sym buffers)
                      ∙ pending-try_drain r.thread left.buffer r.thread drain now
                      ∙ ap (λ b. (if b then taken else []) ++ pending r.thread s'.buffer)
                          (eq_refl r.thread);
                  next_run =
                      ap (λ l. l ++ record { thread = r.thread; phase = beginning taken } ∷ [])
                        moved;
                })
          go false e =
              let nothing : is_empty taken ≡ true =
                (drain-next_ready_at r.thread drain now left.buffer).0 ∙ ap not e in
              rw nothing (
                Rests-left s' refl refl
                  ((drain-next_ready_at r.thread drain now left.buffer).1 e ∙ buffers))

    settle-Next :
        (run_id : String) (b : Option Behavior) (plan : Plan) (first second : Completion) (now : ℕ)
        → Next
            (not (complete plan first second run_id s.statuses).1
              && is_due (next_ready_at r.thread now s.buffer) now)
            s
            (settle random_uuid mode i r run_id b plan first second now s)
    unfolding settle leave
    settle-Next run_id b plan first second now = go (complete plan first second run_id s.statuses).1
      where
        left : Agent
        left =
            leave i r (some run_id)
              (record s { statuses = (complete plan first second run_id s.statuses).0 })

        go :
            (thrown : Bool)
            → Next (not thrown && is_due (next_ready_at r.thread now s.buffer) now) s (
                if thrown
                then left
                else start_next random_uuid mode r.thread (drain_mode random_uuid mode b) now left)
        go true = Rests-left left refl refl left refl refl refl
        go false = start_next-Next left refl refl (drain_mode random_uuid mode b) now refl

    -- When a run settles: if it does not throw and the debounce lets its thread's messages go, the
    -- next run begins with the front of its queue. Otherwise the thread is idle, and what is queued
    -- stays queued until another message for the thread arrives or its queue is cleared.
    pub settles-Next :
        (run_id : String) (b : Option Behavior) (plan : Plan) (first second : Completion) (now : ℕ)
        → r.phase ≡ settling run_id b plan
        → Next
            (not (complete plan first second run_id s.statuses).1
              && is_due (next_ready_at r.thread now s.buffer) now)
            s
            (step random_uuid mode (settles i first second now) s)
    unfolding step step_run
    settles-Next run_id b plan first second now e =
        let event = settles i first second now in
        let same : step random_uuid mode event s
            ≡ settle random_uuid mode i r run_id b plan first second now s =
          ap (λ o. elim o [ none ↦ s | some q ↦ step_run random_uuid mode event i q q.phase s ])
            here
          ∙ ap (λ p. step_run random_uuid mode event i r p s) e in
        rw same (settle-Next run_id b plan first second now)
