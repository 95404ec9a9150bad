-- ===== src/Agent/Conserve/Steps.antt =====
-- A step of a run moves messages, and changes none of their weights.
use agynio.Prelude.{
  ℕ, ◌+◌, ◌≡◌, refl, ap, ◌∙◌, String, Bool, true, false, Option, none, some, List, [], ◌∷◌, ◌++◌,
  str_eq, arith, has, if◌then◌else◌, Bool-cases, inl, inr, not, ◌||◌,
}
use agynio.Buffer.Readiness.{is_empty}
use agynio.Buffer.{BufferMessage, ProcessBuffer, try_drain, MessagesBuffer}
use agynio.Buffer.Pending.{pending-set_debounce_ms}
use agynio.Agent.{
  Behavior, Plan, throws, Phase, beginning, ensuring, looping, settling, Run, Agent, Event, begun,
  ensured, injects, loop_ended, settles, nth, set_nth, invoke, leave, begin_reply, ensure_reply,
  inject, end_loop, is_stopped, plan_of, settle, start_next, step_run, at, complete, drain_mode,
  Completion,
}
use agynio.Agent.Conserve.Weights.{
  if-same, weigh, weigh_phase, weigh_runs, weigh_agent, log-snoc, runs-snoc, runs-remove_nth,
  runs-set_nth, weigh-enqueue, weigh-try_drain,
}

module _ (weight : BufferMessage → ℕ) where
  module _ (random_uuid : ℕ → String) (mode : ProcessBuffer) (j : String) where
    pub weigh-invoke :
        (thread : String) (ms : List BufferMessage) (now : ℕ) (s : Agent)
        → weigh_agent weight j (invoke random_uuid mode thread ms now s)
          ≡ weigh_agent weight j s + (if str_eq thread j then weigh weight ms else 0)
    unfolding invoke
    weigh-invoke thread ms now s = elim (Bool-cases (has s.running_threads thread)) [
      | inl busy ↦
          rw busy (omega (arith, weigh-enqueue weight random_uuid thread j ms now s.buffer))
      | inr idle ↦ rw idle (
          omega (
            arith,
            runs-snoc weight j s.in_flight (record { thread = thread; phase = beginning ms }),
          ))
    ]

    counts :
        (thread : String) (taken ms : List BufferMessage)
        → taken ≡ ms
        → (if str_eq thread j then weigh weight taken else 0)
          ≡ (if str_eq thread j then weigh weight ms else 0)
    counts thread taken ms e = ap (λ l. if str_eq thread j then weigh weight l else 0) e

    weigh-start_next :
        (thread : String) (drain : ProcessBuffer) (now : ℕ) (s : Agent)
        → weigh_agent weight j (start_next random_uuid mode thread drain now s)
          ≡ weigh_agent weight j s
    unfolding start_next
    weigh-start_next thread drain now s = go taken refl
      where
        taken : List BufferMessage
        taken = (try_drain thread drain now s.buffer).0

        s' : Agent
        s' = record s { buffer = (try_drain thread drain now s.buffer).1 }

        go :
            (ms : List BufferMessage)
            → taken ≡ ms
            → weigh_agent weight j
                (if is_empty ms then s' else invoke random_uuid mode thread ms now s')
              ≡ weigh_agent weight j s
        go [] e = omega (
          arith,
          weigh-try_drain weight thread j drain now s.buffer,
          counts thread taken [] e,
          if-same (str_eq thread j) 0,
        )
        go (m ∷ ms) e = omega (
          arith,
          weigh-try_drain weight thread j drain now s.buffer,
          counts thread taken (m ∷ ms) e,
          weigh-invoke thread (m ∷ ms) now s',
        )

    weigh-settle :
        (i : ℕ) (r : Run) (run_id : String) (b : Option Behavior) (plan : Plan)
        (first second : Completion) (now : ℕ) (s : Agent)
        → nth i s.in_flight ≡ some r
        → weigh_phase weight r.phase ≡ 0
        → weigh_agent weight j (settle random_uuid mode i r run_id b plan first second now s)
          ≡ weigh_agent weight j s
    unfolding settle leave
    weigh-settle i r run_id b plan first second now s here empty =
        go (complete plan first second run_id s.statuses).1
      where
        left : Agent
        left =
            leave i r (some run_id)
              (record s { statuses = (complete plan first second run_id s.statuses).0 })

        gone : weigh_agent weight j left ≡ weigh_agent weight j s
        gone = omega (
          arith,
          runs-remove_nth weight j i s.in_flight r here,
          ap (λ n. if str_eq r.thread j then n else 0) empty,
          if-same (str_eq r.thread j) 0,
        )

        go :
            (thrown : Bool)
            → weigh_agent weight j (
                if thrown
                then left
                else start_next random_uuid mode r.thread (drain_mode random_uuid mode b) now left)
              ≡ weigh_agent weight j s
        go true = gone
        go false = weigh-start_next r.thread (drain_mode random_uuid mode b) now left ∙ gone

    weigh-inject :
        (i : ℕ) (r : Run) (run_id : String) (b : Behavior) (recorded : Bool) (now : ℕ) (s : Agent)
        → nth i s.in_flight ≡ some r
        → weigh_phase weight r.phase ≡ 0
        → weigh_agent weight j (inject i r run_id b recorded now s) ≡ weigh_agent weight j s
    unfolding inject
    weigh-inject i r run_id b recorded now s here empty =
        go (not b.inject_after_tools || is_empty taken) recorded
      where
        taken : List BufferMessage
        taken = (try_drain r.thread b.process_buffer now s.buffer).0

        buffer' : MessagesBuffer
        buffer' = (try_drain r.thread b.process_buffer now s.buffer).1

        failed : Phase
        failed = settling run_id (some b) throws

        go :
            (nothing w : Bool)
            → weigh_agent weight j (
                if nothing
                then s
                else if w
                then record s { buffer = buffer'; handed = s.handed ++ (r.thread, taken) ∷ [] }
                else record s {
                  buffer = buffer';
                  dropped = s.dropped ++ (r.thread, taken) ∷ [];
                  in_flight = set_nth i (record r { phase = failed }) s.in_flight;
                })
              ≡ weigh_agent weight j s
        go true w = refl
        go false true = omega (
          arith,
          weigh-try_drain weight r.thread j b.process_buffer now s.buffer,
          log-snoc weight j s.handed r.thread taken,
        )
        go false false = omega (
          arith,
          weigh-try_drain weight r.thread j b.process_buffer now s.buffer,
          log-snoc weight j s.dropped r.thread taken,
          runs-set_nth weight j i s.in_flight r failed here,
          ap (λ n. if str_eq r.thread j then n else 0) empty,
        )

    module _ (i : ℕ) (r : Run) (s : Agent) (here : nth i s.in_flight ≡ some r) where
      weigh-move :
          (p : Phase)
          → weigh_phase weight r.phase ≡ 0
          → weigh_phase weight p ≡ 0
          → weigh_runs weight j (set_nth i (record r { phase = p }) s.in_flight)
            ≡ weigh_runs weight j s.in_flight
      weigh-move p before after = omega (
        arith,
        runs-set_nth weight j i s.in_flight r p here,
        ap (λ n. if str_eq r.thread j then n else 0) before,
        ap (λ n. if str_eq r.thread j then n else 0) after,
      )

      weigh-step_run :
          (e : Event) (p : Phase)
          → r.phase ≡ p
          → weigh_agent weight j (step_run random_uuid mode e i r p s) ≡ weigh_agent weight j s
      unfolding step_run begin_reply ensure_reply end_loop leave
      weigh-step_run (begun _ none) (beginning ms) e = omega (
        arith,
        runs-remove_nth weight j i s.in_flight r here,
        log-snoc weight j s.dropped r.thread ms,
        ap (λ q. if str_eq r.thread j then weigh_phase weight q else 0) e,
      )
      weigh-step_run (begun _ (some run_id)) (beginning ms) e = omega (
        arith,
        runs-set_nth weight j i s.in_flight r (ensuring run_id) here,
        log-snoc weight j s.handed r.thread ms,
        ap (λ q. if str_eq r.thread j then weigh_phase weight q else 0) e,
        if-same (str_eq r.thread j) 0,
      )
      weigh-step_run (ensured _ none) (ensuring run_id) e =
          omega (arith, weigh-move (settling run_id none throws) (ap (weigh_phase weight) e) refl)
      weigh-step_run (ensured _ (some b)) (ensuring run_id) e = omega (
        arith,
        weigh-move (looping run_id b) (ap (weigh_phase weight) e) refl,
        ap (weigh weight) (pending-set_debounce_ms j s.buffer b.debounce_ms),
      )
      weigh-step_run (injects _ recorded now) (looping run_id b) e =
          weigh-inject i r run_id b recorded now s here (ap (weigh_phase weight) e)
      weigh-step_run (loop_ended _ reply) (looping run_id b) e =
          let stopped = is_stopped run_id s in
          let p = settling run_id (some b) (plan_of stopped reply) in
          omega (arith, weigh-move p (ap (weigh_phase weight) e) refl)
      weigh-step_run (settles _ first second now) (settling run_id b plan) e =
          weigh-settle i r run_id b plan first second now s here (ap (weigh_phase weight) e)
      weigh-step_run _ _ e = refl

    pub weigh-at :
        (i : ℕ) (e : Event) (s : Agent)
        → weigh_agent weight j (at random_uuid mode i e s) ≡ weigh_agent weight j s
    weigh-at i e s = go (nth i s.in_flight) refl
      where
        go :
            (o : Option Run)
            → nth i s.in_flight ≡ o
            → weigh_agent weight j
                (elim o [ none ↦ s | some r ↦ step_run random_uuid mode e i r r.phase s ])
              ≡ weigh_agent weight j s
        go none here = refl
        go (some r) here = weigh-step_run i r s here e r.phase refl
