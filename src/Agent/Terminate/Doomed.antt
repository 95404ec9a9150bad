-- ===== src/Agent/Terminate/Doomed.antt =====
-- A run that is asked to terminate, in a state that no step leaves.
use agynio.Prelude.{
  remove, ℕ, ◌+◌, ◌≤◌, ◌≡◌, ◌≢◌, ap, ◌∙◌, String, Bool, true, false, Option, none, some, str_eq,
  arith, if◌then◌else◌, Bool-cases, inl, inr, lookup, lookup-insert, lookup-remove, ◌⊎◌, All,
  insert, Assoc,
}
use agynio.Agent.Places.{sum, sum-remove_nth, sum-set_nth, All-remove_nth, All-set_nth}
use agynio.Agent.{
  Behavior, RunStatus, finished, terminated, Plan, answers, stops, throws, Phase, beginning,
  ensuring, looping, settling, Run, Agent, Event, begun, nth, set_nth, remove_nth, complete,
  Completion, completes, fails_before, fails_after, write_status, has_failed,
}

module _ (id : String) where
  abbrev pub of_phase : Phase → ℕ
  of_phase (beginning ms) = 0
  of_phase (ensuring run_id) = if str_eq run_id id then 1 else 0
  of_phase (looping run_id b) = if str_eq run_id id then 1 else 0
  of_phase (settling run_id b plan) = if str_eq run_id id then 1 else 0

  abbrev pub of_run : Run → ℕ
  of_run r = of_phase r.phase

  -- The run with the id does not await to be recorded as finished.
  abbrev pub NotAnswering : Phase → Type 0
  NotAnswering (settling run_id b answers) = str_eq run_id id ≡ false
  NotAnswering _ = Unit

  abbrev pub RunNotAnswering : Run → Type 0
  RunNotAnswering r = NotAnswering r.phase

  -- At most one run has the id, and it has not ended its loop with an answer.
  pub record IsOpen (s : Agent) : Type 0 where
    pub one : sum of_run s.in_flight ≤ 1
    pub unanswered : All RunNotAnswering s.in_flight
    pub unfinished : lookup id s.statuses ≢ some finished

  pub record IsDoomed (s : Agent) : Type 0 where
    pub is_open : IsOpen s
    pub asked : (sum of_run s.in_flight ≡ 0) ⊎ (lookup id s.signals ≡ some true)

  -- No run begins under the id.
  abbrev pub Avoids : Event → Type 0
  Avoids (begun i (some run_id)) = str_eq run_id id ≡ false
  Avoids _ = Unit

  pub insert-unfinished :
      (run_id : String) (status : RunStatus) (statuses : Assoc RunStatus)
      → (status ≡ finished → str_eq run_id id ≡ false)
      → lookup id statuses ≢ some finished
      → lookup id (insert run_id status statuses) ≢ some finished
  insert-unfinished run_id status statuses h u e =
      ground (arith, lookup-insert run_id id status statuses, h, u)

  pub write-unfinished :
      (c : Completion) (run_id : String) (status : RunStatus) (statuses : Assoc RunStatus)
      → (status ≡ finished → str_eq run_id id ≡ false)
      → lookup id statuses ≢ some finished
      → lookup id (write_status c run_id status statuses) ≢ some finished
  unfolding write_status
  write-unfinished fails_before run_id status statuses h u = u
  write-unfinished completes run_id status statuses h u =
      insert-unfinished run_id status statuses h u
  write-unfinished fails_after run_id status statuses h u =
      insert-unfinished run_id status statuses h u

  pub second-unfinished :
      (failed : Bool) (second : Completion) (run_id : String) (statuses : Assoc RunStatus)
      → lookup id statuses ≢ some finished
      → (let p : Assoc RunStatus × Bool =
            if failed
            then (write_status second run_id terminated statuses, true)
            else (statuses, false) in
          lookup id (p.0) ≢ some finished)
  second-unfinished true second run_id statuses u =
      write-unfinished second run_id terminated statuses (λ h. cc) u
  second-unfinished false second run_id statuses u = u

  pub complete-unfinished :
      (b : Option Behavior) (plan : Plan) (first second : Completion) (run_id : String)
      (statuses : Assoc RunStatus)
      → NotAnswering (settling run_id b plan)
      → lookup id statuses ≢ some finished
      → lookup id (complete plan first second run_id statuses).0 ≢ some finished
  unfolding complete
  complete-unfinished b throws first second run_id statuses n u =
      write-unfinished second run_id terminated statuses (λ h. cc) u
  complete-unfinished b answers first second run_id statuses n u =
      second-unfinished (has_failed first) second run_id _
        (write-unfinished first run_id finished statuses (λ h. n) u)
  complete-unfinished b stops first second run_id statuses n u =
      second-unfinished (has_failed first) second run_id _
        (write-unfinished first run_id terminated statuses (λ h. cc) u)

  module _ (s : Agent) (d : IsDoomed s) (i : ℕ) (r : Run) (here : nth i s.in_flight ≡ some r) where
    -- A run moves to a phase of the same id.
    pub move-IsDoomed :
        (p : Phase) (s' : Agent)
        → of_phase p ≡ of_phase r.phase
        → NotAnswering p
        → s'.in_flight ≡ set_nth i (record r { phase = p }) s.in_flight
        → lookup id s'.statuses ≢ some finished
        → (lookup id s.signals ≡ some true → lookup id s'.signals ≡ some true)
        → IsDoomed s'
    move-IsDoomed p s' e n moved u kept =
        let count : sum of_run s'.in_flight ≡ sum of_run s.in_flight = omega (
          arith,
          e,
          ap (sum of_run) moved,
          sum-set_nth of_run i s.in_flight r (record r { phase = p }) here,
        ) in
        record {
          is_open = record {
            one = omega (arith, count, d.is_open.one);
            unanswered = rw moved (
                All-set_nth RunNotAnswering i s.in_flight (record r { phase = p }) n
                  d.is_open.unanswered);
            unfinished = u;
          };
          asked = elim d.asked [ inl gone ↦ inl (count ∙ gone) | inr active ↦ inr (kept active) ];
        }

    -- A run leaves: the one with the id, or another, which leaves the signal as it is.
    pub leave-IsDoomed :
        (s' : Agent)
        → (of_phase r.phase ≡ 1)
          ⊎ ((of_phase r.phase ≡ 0) × (lookup id s'.signals ≡ lookup id s.signals))
        → s'.in_flight ≡ remove_nth i s.in_flight
        → lookup id s'.statuses ≢ some finished
        → IsDoomed s'
    leave-IsDoomed s' who moved u = record {
      is_open = record {
        one = omega (arith, count, d.is_open.one);
        unanswered = rw moved (All-remove_nth RunNotAnswering i s.in_flight d.is_open.unanswered);
        unfinished = u;
      };
      asked = elim who [
        | inl mine ↦ inl (omega (arith, count, mine, d.is_open.one))
        | inr other ↦ elim d.asked [
          | inl gone ↦ inl (omega (arith, count, gone, other.0))
          | inr active ↦ inr (other.1 ∙ active)
        ]
      ];
    }
      where
        count : sum of_run s.in_flight ≡ sum of_run s'.in_flight + of_phase r.phase
        count = omega (arith, ap (sum of_run) moved, sum-remove_nth of_run i s.in_flight r here)

    pub cleared_signal :
        (run_id : String)
        → of_phase r.phase ≡ (if str_eq run_id id then 1 else 0)
        → (of_phase r.phase ≡ 1)
          ⊎ ((of_phase r.phase ≡ 0) × (lookup id (remove run_id s.signals) ≡ lookup id s.signals))
    cleared_signal run_id e = elim (Bool-cases (str_eq run_id id)) [
      | inl same ↦ inl (e ∙ ap (λ b. if b then 1 else 0) same)
      | inr other ↦ inr (
        e ∙ ap (λ b. if b then 1 else 0) other,
        lookup-remove run_id id s.signals ∙ ap (λ b. if b then none else lookup id s.signals) other,
      )
    ]
