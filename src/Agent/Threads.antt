-- ===== src/Agent/Threads.antt =====
-- At most one run of an agent is in flight for each thread.
use mathlib.Core.List.{map-append}
use agynio.Prelude.{
  ℕ, zero, suc, ◌≡◌, refl, sym, ap, ◌∙◌, String, Bool, true, false, Option, none, some, List, [],
  ◌∷◌, ◌++◌, map, str_eq, eq_iff, eq_refl, arith, has, if◌then◌else◌, Bool-cases, inl, inr, not,
  ◌||◌,
}
use agynio.Buffer.Readiness.{is_empty}
use agynio.Buffer.{BufferMessage, ProcessBuffer, try_drain, MessagesBuffer}
use agynio.Agent.{
  Behavior, Plan, throws, Phase, beginning, ensuring, looping, settling, Run, Agent, Event, invokes,
  begun, ensured, injects, loop_ended, settles, terminates, clears, nth, set_nth, remove_nth,
  without, invoke, leave, begin_reply, ensure_reply, inject, end_loop, settle, start_next, step_run,
  step, run, at, complete, drain_mode, Completion,
}

abbrev pub Distinct : List String → Type 0
Distinct [] = Unit
Distinct (x ∷ xs) = (has xs x ≡ false) × Distinct xs

abbrev pub threads_of : List Run → List String
threads_of = map λ (r : Run). r.thread

-- The set of running threads is that of the runs in flight, no two of which share a thread.
pub record IsExclusive (s : Agent) : Type 0 where
  pub same : s.running_threads ≡ threads_of s.in_flight
  pub apart : Distinct s.running_threads

has-snoc : (xs : List String) (x k : String) → has (xs ++ x ∷ []) k ≡ (has xs k || str_eq x k)
has-snoc [] x k = ground arith
has-snoc (y ∷ xs) x k = ground (arith, has-snoc xs x k)

Distinct-snoc :
    (xs : List String) (x : String) → has xs x ≡ false → Distinct xs → Distinct (xs ++ x ∷ [])
Distinct-snoc [] x h d = (refl, tt)
Distinct-snoc (y ∷ xs) x h d =
    let split : (str_eq y x ≡ false) × (has xs x ≡ false) = ground (arith, h) in
    (
      ground (arith, has-snoc xs x y, eq_iff x y, eq_iff y x, d.0, split.0),
      Distinct-snoc xs x split.1 d.1,
    )

without-absent : (k : String) (xs : List String) → has xs k ≡ false → without k xs ≡ xs
without-absent k [] h = refl
without-absent k (x ∷ xs) h = ground (arith, without-absent k xs)

without-head :
    (k x : String) (xs : List String) → x ≡ k → has xs x ≡ false → without k (x ∷ xs) ≡ xs
without-head k x xs e h = ground (arith, e, h, eq_iff x k, without-absent k xs)

has-without : (k j : String) (xs : List String) → has xs j ≡ false → has (without k xs) j ≡ false
has-without k j [] h = refl
has-without k j (x ∷ xs) h = ground (arith, has-without k j xs)

Distinct-without : (k : String) (xs : List String) → Distinct xs → Distinct (without k xs)
Distinct-without k [] d = tt
Distinct-without k (x ∷ xs) d = elim (Bool-cases (str_eq x k)) [
  | inl same ↦ rw same (Distinct-without k xs d.1)
  | inr other ↦ rw other (has-without k x xs d.0, Distinct-without k xs d.1)
]

has-threads :
    (i : ℕ) (l : List Run) (r : Run) → nth i l ≡ some r → has (threads_of l) r.thread ≡ true
has-threads i [] r e = cc
has-threads zero (x ∷ l) r e = ground (arith, e, eq_refl r.thread)
has-threads (suc i) (x ∷ l) r e = ground (arith, has-threads i l r e)

-- Among distinct threads the one of a run stands at the place of the run only.
pub without-threads :
    (i : ℕ) (l : List Run) (r : Run)
    → nth i l ≡ some r
    → Distinct (threads_of l)
    → without r.thread (threads_of l) ≡ threads_of (remove_nth i l)
without-threads i [] r e d = cc
without-threads zero (x ∷ l) r e d =
    let same : x.thread ≡ r.thread = ground (arith, e) in
    without-head r.thread x.thread (threads_of l) same d.0
without-threads (suc i) (x ∷ l) r e d =
    let other : str_eq x.thread r.thread ≡ false =
      ground (arith, has-threads i l r e, d.0, eq_iff x.thread r.thread) in
    rw other (ap (◌∷◌ x.thread) (without-threads i l r e d.1))

threads-set_nth :
    (i : ℕ) (l : List Run) (r : Run) (p : Phase)
    → nth i l ≡ some r
    → threads_of (set_nth i (record r { phase = p }) l) ≡ threads_of l
threads-set_nth i [] r p e = refl
threads-set_nth zero (x ∷ l) r p e = ground (arith, e)
threads-set_nth (suc i) (x ∷ l) r p e = ap (◌∷◌ x.thread) (threads-set_nth i l r p e)

module _ (s : Agent) (x : IsExclusive s) where
  move-IsExclusive :
      (i : ℕ) (r : Run) (p : Phase) (s' : Agent)
      → nth i s.in_flight ≡ some r
      → s'.running_threads ≡ s.running_threads
      → s'.in_flight ≡ set_nth i (record r { phase = p }) s.in_flight
      → IsExclusive s'
  move-IsExclusive i r p s' e same moved = record {
    same = same ∙ x.same ∙ sym (ap threads_of moved ∙ threads-set_nth i s.in_flight r p e);
    apart = rw same x.apart;
  }

  leave-IsExclusive :
      (i : ℕ) (r : Run) (s' : Agent)
      → nth i s.in_flight ≡ some r
      → s'.running_threads ≡ without r.thread s.running_threads
      → s'.in_flight ≡ remove_nth i s.in_flight
      → IsExclusive s'
  leave-IsExclusive i r s' e left moved =
      let distinct : Distinct (threads_of s.in_flight) = rw (← x.same) x.apart in
      record {
        same =
            left
            ∙ ap (without r.thread) x.same
            ∙ without-threads i s.in_flight r e distinct
            ∙ sym (ap threads_of moved);
        apart = rw left (Distinct-without r.thread s.running_threads x.apart);
      }

module _ (random_uuid : ℕ → String) (mode : ProcessBuffer) where
  invoke-IsExclusive :
      (thread : String) (ms : List BufferMessage) (now : ℕ) (s : Agent)
      → IsExclusive s
      → IsExclusive (invoke random_uuid mode thread ms now s)
  unfolding invoke
  invoke-IsExclusive thread ms now s x = elim (Bool-cases (has s.running_threads thread)) [
    | inl busy ↦ rw busy (record { same = x.same; apart = x.apart })
    | inr idle ↦ rw idle (record {
      same =
          ap (λ l. l ++ thread ∷ []) x.same
          ∙ sym (map-append (λ (r : Run). r.thread) s.in_flight _);
      apart = Distinct-snoc s.running_threads thread idle x.apart;
    })
  ]

  start_next-IsExclusive :
      (thread : String) (drain : ProcessBuffer) (now : ℕ) (s : Agent)
      → IsExclusive s
      → IsExclusive (start_next random_uuid mode thread drain now s)
  unfolding start_next
  start_next-IsExclusive thread drain now s x = elim (Bool-cases (is_empty taken)) [
    | inl nothing ↦ rw nothing (record { same = x.same; apart = x.apart })
    | inr more ↦ rw more (
        invoke-IsExclusive thread taken now (record s { buffer = buffer' })
          (record { same = x.same; apart = x.apart }))
  ]
    where
      taken : List BufferMessage
      taken = (try_drain thread drain now s.buffer).0

      buffer' : MessagesBuffer
      buffer' = (try_drain thread drain now s.buffer).1

  module _ (s : Agent) (x : IsExclusive s) (i : ℕ) (r : Run)
      (here : nth i s.in_flight ≡ some r) where
    inject-IsExclusive :
        (run_id : String) (b : Behavior) (recorded : Bool) (now : ℕ)
        → IsExclusive (inject i r run_id b recorded now s)
    unfolding inject
    inject-IsExclusive run_id b recorded now =
        elim (Bool-cases (not b.inject_after_tools || is_empty taken)) [
          | inl nothing ↦ rw nothing x
          | inr more ↦ rw more (go recorded)
        ]
      where
        taken : List BufferMessage
        taken = (try_drain r.thread b.process_buffer now s.buffer).0

        buffer' : MessagesBuffer
        buffer' = (try_drain r.thread b.process_buffer now s.buffer).1

        go :
            (w : Bool)
            → IsExclusive (
                if w
                then record s { buffer = buffer'; handed = s.handed ++ (r.thread, taken) ∷ [] }
                else record s {
                  buffer = buffer';
                  dropped = s.dropped ++ (r.thread, taken) ∷ [];
                  in_flight =
                      set_nth i (record r { phase = settling run_id (some b) throws }) s.in_flight;
                })
        go true = record { same = x.same; apart = x.apart }
        go false = move-IsExclusive s x i r (settling run_id (some b) throws) _ here refl refl

    settle-IsExclusive :
        (run_id : String) (b : Option Behavior) (plan : Plan) (first second : Completion) (now : ℕ)
        → IsExclusive (settle random_uuid mode i r run_id b plan first second now s)
    unfolding settle
    settle-IsExclusive run_id b plan first second now =
        go (complete plan first second run_id s.statuses).1
      where
        left : Agent
        left =
            leave i r (some run_id)
              (record s { statuses = (complete plan first second run_id s.statuses).0 })

        go :
            (thrown : Bool)
            → IsExclusive (
                if thrown
                then left
                else start_next random_uuid mode r.thread (drain_mode random_uuid mode b) now left)
        go true = leave-IsExclusive s x i r left here refl refl
        go false =
            start_next-IsExclusive r.thread (drain_mode random_uuid mode b) now left
              (leave-IsExclusive s x i r left here refl refl)

    step_run-IsExclusive :
        (e : Event) (p : Phase) → IsExclusive (step_run random_uuid mode e i r p s)
    unfolding step_run begin_reply ensure_reply end_loop
    step_run-IsExclusive (begun _ none) (beginning ms) = leave-IsExclusive s x i r _ here refl refl
    step_run-IsExclusive (begun _ (some run_id)) (beginning ms) =
        move-IsExclusive s x i r (ensuring run_id) _ here refl refl
    step_run-IsExclusive (ensured _ none) (ensuring run_id) =
        move-IsExclusive s x i r (settling run_id none throws) _ here refl refl
    step_run-IsExclusive (ensured _ (some b)) (ensuring run_id) =
        move-IsExclusive s x i r (looping run_id b) _ here refl refl
    step_run-IsExclusive (injects _ recorded now) (looping run_id b) =
        inject-IsExclusive run_id b recorded now
    step_run-IsExclusive (loop_ended _ reply) (looping run_id b) =
        move-IsExclusive s x i r _ _ here refl refl
    step_run-IsExclusive (settles _ first second now) (settling run_id b plan) =
        settle-IsExclusive run_id b plan first second now
    step_run-IsExclusive _ _ = x

  at-IsExclusive :
      (i : ℕ) (e : Event) (s : Agent) → IsExclusive s → IsExclusive (at random_uuid mode i e s)
  at-IsExclusive i e s x = go (nth i s.in_flight) refl
    where
      go :
          (o : Option Run)
          → nth i s.in_flight ≡ o
          → IsExclusive (elim o [ none ↦ s | some r ↦ step_run random_uuid mode e i r r.phase s ])
      go none here = x
      go (some r) here = step_run-IsExclusive s x i r here e r.phase

  step-IsExclusive :
      (e : Event) (s : Agent) → IsExclusive s → IsExclusive (step random_uuid mode e s)
  unfolding step
  step-IsExclusive (invokes thread ms now) s x = invoke-IsExclusive thread ms now s x
  step-IsExclusive (terminates run_id) s x = record { same = x.same; apart = x.apart }
  step-IsExclusive (clears thread) s x = record { same = x.same; apart = x.apart }
  step-IsExclusive (begun i reply) s x = at-IsExclusive i (begun i reply) s x
  step-IsExclusive (ensured i reply) s x = at-IsExclusive i (ensured i reply) s x
  step-IsExclusive (injects i recorded now) s x = at-IsExclusive i (injects i recorded now) s x
  step-IsExclusive (loop_ended i reply) s x = at-IsExclusive i (loop_ended i reply) s x
  step-IsExclusive (settles i first second now) s x =
      at-IsExclusive i (settles i first second now) s x

  -- However messages arrive and runs go on: the set of running threads stays that of the runs in
  -- flight, no two of which share a thread.
  pub run-IsExclusive :
      (es : List Event) (s : Agent) → IsExclusive s → IsExclusive (run random_uuid mode es s)
  unfolding run
  run-IsExclusive [] s x = x
  run-IsExclusive (e ∷ es) s x = run-IsExclusive es _ (step-IsExclusive e s x)
