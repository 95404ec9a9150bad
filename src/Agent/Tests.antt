-- ===== src/Agent/Tests.antt =====
-- Runs of one agent on a thread to which a second message comes while the first run is in flight.
use agynio.Prelude.{
  ℕ, ◌+◌, ◌≡◌, ◌≢◌, refl, String, true, false, none, some, List, [], ◌∷◌, lookup, not, ◌&&◌, arith,
}
use agynio.Prelude.Int.{pos}
use agynio.Buffer.{human, all_together, next_ready_at}
use agynio.Buffer.Readiness.{is_due}
use agynio.Agent.{
  Behavior, finished, answers, looping, settling, Agent, Event, invokes, begun, ensured, loop_ended,
  settles, terminates, gives, response, completes, run, step, complete,
}
use agynio.Agent.Threads.{IsExclusive, run-IsExclusive}
use agynio.Agent.Conserve.{weigh, weigh_agent, received_all, cleared_all, run-weigh}
use agynio.Agent.Terminate.{run-unfinished}
use agynio.Agent.Next.{Next, settles-Next}

abbrev uuid : ℕ → String
uuid n = "q"

abbrev prompt : Behavior
prompt = record { debounce_ms = pos 0; process_buffer = all_together; inject_after_tools = true }

abbrev idle : Agent
idle = record {
  buffer = record { debounce_ms = 0; threads = []; drawn = 0 };
  running_threads = [];
  in_flight = [];
  signals = [];
  statuses = [];
  handed = [];
  dropped = [];
}

abbrev first_run : List Event
first_run =
    invokes "t" (human "a" ∷ []) 1
    ∷ begun 0 (some "r")
    ∷ ensured 0 (some prompt)
    ∷ invokes "t" (human "b" ∷ []) 2
    ∷ loop_ended 0 (gives false response)
    ∷ []

abbrev settled : Event
settled = settles 0 completes completes 5

abbrev answered : Agent
answered = record {
  buffer = record {
    debounce_ms = 0;
    threads =
        (
          "t",
          record {
            queue = record { id = "q"; msg = human "b"; token_id = none; ts = 2 } ∷ [];
            last_enqueue_at = 2;
          },
        )
        ∷ [];
    drawn = 1;
  };
  running_threads = "t" ∷ [];
  in_flight = record { thread = "t"; phase = settling "r" (some prompt) answers } ∷ [];
  signals = ("r", false) ∷ [];
  statuses = [];
  handed = [];
  dropped = [];
}

abbrev in_loop : Agent
in_loop = record answered { in_flight = record { thread = "t"; phase = looping "r" prompt } ∷ [] }

run-IsExclusive_example : IsExclusive (run uuid all_together first_run idle)
run-IsExclusive_example =
    run-IsExclusive uuid all_together first_run idle (record { same = refl; apart = tt })

run-weigh_example :
    weigh_agent (λ m. 1) "t" (run uuid all_together (first_run) idle)
      + weigh (λ m. 1) (cleared_all uuid all_together "t" first_run idle)
    ≡ weigh_agent (λ m. 1) "t" idle + weigh (λ m. 1) (received_all "t" first_run)
run-weigh_example = run-weigh uuid all_together "t" (λ m. 1) first_run idle

unfinished : lookup "r" in_loop.statuses ≢ some finished
unfolding lookup
unfinished e = cc

run-unfinished_example :
    lookup "r"
      (run uuid all_together
        (terminates "r" ∷ loop_ended 0 (gives false response) ∷ settled ∷ [])
        in_loop).statuses
    ≢ some finished
run-unfinished_example =
    run-unfinished "r" uuid all_together (loop_ended 0 (gives false response) ∷ settled ∷ [])
      in_loop (record { one = omega arith; unanswered = (tt, tt); unfinished = unfinished })
      (tt, (tt, tt))

settles-Next_example :
    Next uuid all_together 0
      (record { thread = "t"; phase = settling "r" (some prompt) answers })
      (not (complete answers completes completes "r" []).1
        && is_due (next_ready_at "t" 5 answered.buffer) 5)
      answered
      (step uuid all_together settled answered)
settles-Next_example =
    settles-Next uuid all_together 0
      (record { thread = "t"; phase = settling "r" (some prompt) answers }) answered
      (record { same = refl; apart = (refl, tt) }) refl "r" (some prompt) answers completes
      completes 5 refl
