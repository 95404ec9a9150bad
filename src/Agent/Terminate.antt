-- ===== src/Agent/Terminate.antt =====
-- A run that is asked to terminate before its loop has ended is never recorded as finished.
mod Doomed
pub use Doomed.{IsOpen, Avoids}
use agynio.Prelude.{
  remove, ℕ, ◌+◌, ◌≤◌, ◌≡◌, ◌≢◌, refl, sym, ap, ◌∙◌, String, Bool, true, false, Option, none, some,
  List, [], ◌∷◌, ◌++◌, str_eq, eq_iff, eq_refl, arith, has, if◌then◌else◌, Bool-cases, inl, inr,
  not, ◌||◌, lookup, lookup-insert, lookup-remove, ◌⊎◌, All, All-append, insert, Assoc, get_or,
}
use agynio.Buffer.Readiness.{is_empty}
use agynio.Buffer.{BufferMessage, ProcessBuffer, try_drain, enqueue, MessagesBuffer}
use agynio.Agent.Places.{
  sum, sum-snoc, sum-remove_nth, sum-set_nth, All-nth, All-remove_nth, All-set_nth,
}
use agynio.Agent.{
  Behavior, RunStatus, running, finished, terminated, Plan, answers, stops, throws, Phase,
  beginning, ensuring, looping, settling, Run, Agent, Event, invokes, begun, ensured, injects,
  loop_ended, settles, terminates, clears, nth, set_nth, remove_nth, invoke, leave, begin_reply,
  ensure_reply, inject, end_loop, settle, start_next, step_run, step, run, at, complete, drain_mode,
  Completion, LoopReply, rejects, gives, completes, fails_before, fails_after, register,
  activate_terminate, write_status, plan_of, is_stopped, has_failed,
}
use agynio.Agent.Terminate.Doomed.{
  of_phase, of_run, NotAnswering, RunNotAnswering, IsDoomed, insert-unfinished, write-unfinished,
  second-unfinished, complete-unfinished, move-IsDoomed, leave-IsDoomed, cleared_signal,
}

module _ (id : String) where
  module _ (random_uuid : ℕ → String) (mode : ProcessBuffer) where
    invoke-IsDoomed :
        (thread : String) (ms : List BufferMessage) (now : ℕ) (s : Agent)
        → IsDoomed id s
        → IsDoomed id (invoke random_uuid mode thread ms now s)
    unfolding invoke
    invoke-IsDoomed thread ms now s d = go (has s.running_threads thread)
      where
        r : Run
        r = record { thread = thread; phase = beginning ms }

        go :
            (busy : Bool)
            → IsDoomed id (
                if busy
                then record s { buffer = enqueue random_uuid thread ms now s.buffer }
                else record s {
                  running_threads = s.running_threads ++ thread ∷ [];
                  in_flight = s.in_flight ++ r ∷ [];
                })
        go true = record {
          is_open = record {
            one = d.is_open.one;
            unanswered = d.is_open.unanswered;
            unfinished = d.is_open.unfinished;
          };
          asked = d.asked;
        }
        go false = record {
          is_open = record {
            one = omega (arith, sum-snoc (of_run id) s.in_flight r, d.is_open.one);
            unanswered =
                All-append (RunNotAnswering id) s.in_flight (r ∷ []) d.is_open.unanswered (tt, tt);
            unfinished = d.is_open.unfinished;
          };
          asked = elim d.asked [
            | inl gone ↦ inl (omega (arith, sum-snoc (of_run id) s.in_flight r, gone))
            | inr active ↦ inr active
          ];
        }

    start_next-IsDoomed :
        (thread : String) (drain : ProcessBuffer) (now : ℕ) (s : Agent)
        → IsDoomed id s
        → IsDoomed id (start_next random_uuid mode thread drain now s)
    unfolding start_next
    start_next-IsDoomed thread drain now s d = go (is_empty taken)
      where
        taken : List BufferMessage
        taken = (try_drain thread drain now s.buffer).0

        s' : Agent
        s' = record s { buffer = (try_drain thread drain now s.buffer).1 }

        d' : IsDoomed id s'
        d' = record {
          is_open = record {
            one = d.is_open.one;
            unanswered = d.is_open.unanswered;
            unfinished = d.is_open.unfinished;
          };
          asked = d.asked;
        }

        go :
            (b : Bool) → IsDoomed id (if b then s' else invoke random_uuid mode thread taken now s')
        go true = d'
        go false = invoke-IsDoomed thread taken now s' d'

    not_mine-NotAnswering :
        (run_id : String) (b : Option Behavior) (plan : Plan)
        → str_eq run_id id ≡ false
        → NotAnswering id (settling run_id b plan)
    not_mine-NotAnswering run_id b answers h = h
    not_mine-NotAnswering run_id b stops h = tt
    not_mine-NotAnswering run_id b throws h = tt

    stopped-NotAnswering :
        (run_id : String) (b : Option Behavior) (reply : LoopReply)
        → NotAnswering id (settling run_id b (plan_of true reply))
    unfolding plan_of
    stopped-NotAnswering run_id b rejects = tt
    stopped-NotAnswering run_id b (gives finish last) = tt

    module _ (s : Agent) (d : IsDoomed id s) (i : ℕ) (r : Run)
        (here : nth i s.in_flight ≡ some r) where
      mine-stopped :
          (run_id : String)
          → of_phase id r.phase ≡ (if str_eq run_id id then 1 else 0)
          → str_eq run_id id ≡ true
          → is_stopped run_id s ≡ true
      unfolding is_stopped
      mine-stopped run_id e same = elim d.asked [
        | inl gone ↦
            let mine : of_phase id r.phase ≡ 1 = e ∙ ap (λ b. if b then 1 else 0) same in
            absurd (omega (arith, gone, mine, sum-remove_nth (of_run id) i s.in_flight r here))
        | inr active ↦ rw ((eq_iff run_id id).0 same, active) refl
      ]

      end-NotAnswering :
          (run_id : String) (b : Behavior) (reply : LoopReply)
          → of_phase id r.phase ≡ (if str_eq run_id id then 1 else 0)
          → NotAnswering id (settling run_id (some b) (plan_of (is_stopped run_id s) reply))
      end-NotAnswering run_id b reply e = elim (Bool-cases (str_eq run_id id)) [
        | inl same ↦ rw (mine-stopped run_id e same) (stopped-NotAnswering run_id (some b) reply)
        | inr other ↦ not_mine-NotAnswering run_id (some b) _ other
      ]

      inject-IsDoomed :
          (run_id : String) (b : Behavior) (recorded : Bool) (now : ℕ)
          → of_phase id r.phase ≡ (if str_eq run_id id then 1 else 0)
          → IsDoomed id (inject i r run_id b recorded now s)
      unfolding inject
      inject-IsDoomed run_id b recorded now e =
          go (not b.inject_after_tools || is_empty taken) recorded
        where
          taken : List BufferMessage
          taken = (try_drain r.thread b.process_buffer now s.buffer).0

          buffer' : MessagesBuffer
          buffer' = (try_drain r.thread b.process_buffer now s.buffer).1

          failed : Phase
          failed = settling run_id (some b) throws

          go :
              (nothing w : Bool)
              → IsDoomed id (
                  if nothing
                  then s
                  else if w
                  then record s { buffer = buffer'; handed = s.handed ++ (r.thread, taken) ∷ [] }
                  else record s {
                    buffer = buffer';
                    dropped = s.dropped ++ (r.thread, taken) ∷ [];
                    in_flight = set_nth i (record r { phase = failed }) s.in_flight;
                  })
          go true w = d
          go false true = record {
            is_open = record {
              one = d.is_open.one;
              unanswered = d.is_open.unanswered;
              unfinished = d.is_open.unfinished;
            };
            asked = d.asked;
          }
          go false false =
              move-IsDoomed id s d i r here failed _ (sym e) tt refl d.is_open.unfinished (λ h. h)

      settle-IsDoomed :
          (run_id : String) (b : Option Behavior) (plan : Plan) (first second : Completion)
          (now : ℕ)
          → of_phase id r.phase ≡ (if str_eq run_id id then 1 else 0)
          → NotAnswering id (settling run_id b plan)
          → IsDoomed id (settle random_uuid mode i r run_id b plan first second now s)
      unfolding settle leave
      settle-IsDoomed run_id b plan first second now e n =
          go (complete plan first second run_id s.statuses).1
        where
          left : Agent
          left =
              leave i r (some run_id)
                (record s { statuses = (complete plan first second run_id s.statuses).0 })

          d' : IsDoomed id left
          d' =
              leave-IsDoomed id s d i r here left (cleared_signal id s d i r here run_id e) refl (
                complete-unfinished id b plan first second run_id s.statuses n d.is_open.unfinished)

          go :
              (thrown : Bool)
              → IsDoomed id (
                  if thrown
                  then left
                  else start_next random_uuid mode r.thread
                      (drain_mode random_uuid mode b)
                      now
                      left)
          go true = d'
          go false = start_next-IsDoomed r.thread (drain_mode random_uuid mode b) now left d'

      register-asked :
          (run_id : String)
          → lookup id s.signals ≡ some true
          → lookup id (register run_id s.signals) ≡ some true
      unfolding register
      register-asked run_id h = ground (
        arith,
        h,
        lookup-insert run_id id (get_or (lookup run_id s.signals) false) s.signals,
        eq_iff run_id id,
      )

      step_run-IsDoomed :
          (e : Event) (p : Phase)
          → r.phase ≡ p
          → NotAnswering id p
          → Avoids id e
          → IsDoomed id (step_run random_uuid mode e i r p s)
      unfolding step_run begin_reply ensure_reply end_loop leave
      step_run-IsDoomed (begun _ none) (beginning ms) e n a =
          leave-IsDoomed id s d i r here _ (inr (ap (of_phase id) e, refl)) refl
            d.is_open.unfinished
      step_run-IsDoomed (begun _ (some run_id)) (beginning ms) e n a =
          move-IsDoomed id s d i r here (ensuring run_id) _
            (ap (λ b. if b then 1 else 0) a ∙ sym (ap (of_phase id) e)) tt refl
            (insert-unfinished id run_id running s.statuses (λ h. cc) d.is_open.unfinished) (λ h. h)
      step_run-IsDoomed (ensured _ none) (ensuring run_id) e n a =
          move-IsDoomed id s d i r here (settling run_id none throws) _ (sym (ap (of_phase id) e))
            tt refl d.is_open.unfinished (λ h. h)
      step_run-IsDoomed (ensured _ (some b)) (ensuring run_id) e n a =
          move-IsDoomed id s d i r here (looping run_id b) _ (sym (ap (of_phase id) e)) tt refl
            d.is_open.unfinished (register-asked run_id)
      step_run-IsDoomed (injects _ recorded now) (looping run_id b) e n a =
          inject-IsDoomed run_id b recorded now (ap (of_phase id) e)
      step_run-IsDoomed (loop_ended _ reply) (looping run_id b) e n a =
          move-IsDoomed id s d i r here
            (settling run_id (some b) (plan_of (is_stopped run_id s) reply)) _
            (sym (ap (of_phase id) e)) (end-NotAnswering run_id b reply (ap (of_phase id) e)) refl
            d.is_open.unfinished (λ h. h)
      step_run-IsDoomed (settles _ first second now) (settling run_id b plan) e n a =
          settle-IsDoomed run_id b plan first second now (ap (of_phase id) e) n
      step_run-IsDoomed _ _ e n a = d

    at-IsDoomed :
        (i : ℕ) (e : Event) (s : Agent)
        → IsDoomed id s
        → Avoids id e
        → IsDoomed id (at random_uuid mode i e s)
    at-IsDoomed i e s d a = go (nth i s.in_flight) refl
      where
        go :
            (o : Option Run)
            → nth i s.in_flight ≡ o
            → IsDoomed id (elim o [ none ↦ s | some r ↦ step_run random_uuid mode e i r r.phase s ])
        go none here = d
        go (some r) here =
            step_run-IsDoomed s d i r here e r.phase refl
              (All-nth (RunNotAnswering id) i s.in_flight r here d.is_open.unanswered) a

    signal-IsDoomed :
        (s s' : Agent)
        → IsDoomed id s
        → s'.in_flight ≡ s.in_flight
        → s'.statuses ≡ s.statuses
        → (lookup id s.signals ≡ some true → lookup id s'.signals ≡ some true)
        → IsDoomed id s'
    signal-IsDoomed s s' d same rows kept = record {
      is_open = record {
        one = rw same d.is_open.one;
        unanswered = rw same d.is_open.unanswered;
        unfinished = rw rows d.is_open.unfinished;
      };
      asked = elim d.asked [
        | inl gone ↦ inl (ap (sum (of_run id)) same ∙ gone)
        | inr active ↦ inr (kept active)
      ];
    }

    ask-signal :
        (run_id : String) (signals : Assoc Bool)
        → lookup id signals ≡ some true
        → lookup id (activate_terminate run_id signals) ≡ some true
    unfolding activate_terminate
    ask-signal run_id signals h = ground (arith, h, lookup-insert run_id id true signals)

    step-IsDoomed :
        (e : Event) (s : Agent)
        → IsDoomed id s
        → Avoids id e
        → IsDoomed id (step random_uuid mode e s)
    unfolding step
    step-IsDoomed (invokes thread ms now) s d a = invoke-IsDoomed thread ms now s d
    step-IsDoomed (terminates run_id) s d a =
        signal-IsDoomed s _ d refl refl (ask-signal run_id s.signals)
    step-IsDoomed (clears thread) s d a = signal-IsDoomed s _ d refl refl (λ h. h)
    step-IsDoomed (begun i reply) s d a = at-IsDoomed i (begun i reply) s d a
    step-IsDoomed (ensured i reply) s d a = at-IsDoomed i (ensured i reply) s d tt
    step-IsDoomed (injects i recorded now) s d a = at-IsDoomed i (injects i recorded now) s d tt
    step-IsDoomed (loop_ended i reply) s d a = at-IsDoomed i (loop_ended i reply) s d tt
    step-IsDoomed (settles i first second now) s d a =
        at-IsDoomed i (settles i first second now) s d tt

    run-IsDoomed :
        (es : List Event) (s : Agent)
        → IsDoomed id s
        → All (Avoids id) es
        → IsDoomed id (run random_uuid mode es s)
    unfolding run
    run-IsDoomed [] s d a = d
    run-IsDoomed (e ∷ es) s d a = run-IsDoomed es _ (step-IsDoomed e s d a.0) a.1

    -- Once a run that has not ended its loop with an answer is asked to terminate, be it before or
    -- after its signal is registered, it is never recorded as finished, however messages arrive,
    -- runs go on and writes fail, as long as no other run begins under its id.
    pub run-unfinished :
        (es : List Event) (s : Agent)
        → IsOpen id s
        → All (Avoids id) es
        → lookup id (run random_uuid mode (terminates id ∷ es) s).statuses ≢ some finished
    unfolding run step activate_terminate
    run-unfinished es s o a = (run-IsDoomed es asked_state doomed a).is_open.unfinished
      where
        asked_state : Agent
        asked_state = record s { signals = activate_terminate id s.signals }

        doomed : IsDoomed id asked_state
        doomed = record {
          is_open = record { one = o.one; unanswered = o.unanswered; unfinished = o.unfinished };
          asked = inr (ground (arith, lookup-insert id id true s.signals, eq_refl id));
        }
