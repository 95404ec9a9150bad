-- ===== src/Summarization/Tests.antt =====
-- The summarization on concrete inputs.
use agynio.Prelude.{true, ◌*◌, String, ◌≡◌, refl, false, none, some, List, [], ◌∷◌}
use agynio.Prelude.Text.{codes}
use agynio.Summarization.{
  Answers, LlmMessage, response, tool_output, other_message, LlmState, LlmContextState, Params,
  Outcome, returns, throws, split_head_tail, invoke,
}
use agynio.Summarization.Split.{Splits, split-Splits}

abbrev messages : List LlmMessage
messages =
    record { kind = response ("x" ∷ []); size = 8 }
    ∷ record { kind = response ("y" ∷ []); size = 8 }
    ∷ record { kind = tool_output "x"; size = 8 }
    ∷ record { kind = other_message; size = 8 }
    ∷ []

abbrev context : LlmContextState
context = record {
  message_ids = "1" ∷ "2" ∷ "3" ∷ "4" ∷ [];
  memory = [];
  summary = none;
  system = none;
  pending_new_context_item_ids = none;
}

abbrev state : LlmState
state = record { messages = messages; summary = none; context = some context }

abbrev limits : Params
limits = record { keep_tokens = 6; max_tokens = 7 }

split-Splits_example : Splits (4 * 6) messages (split_head_tail messages 6)
split-Splits_example = split-Splits messages 6

-- The summary is stored under a new id; or the store fails.
abbrev stores : Answers
stores = record {
  text = some (codes " s ");
  records = true;
  publishes = true;
  creates = some (some "i");
}

abbrev fails : Answers
fails = record stores { creates = none }

invoke-fails :
    invoke limits false fails state
    ≡ throws (some (record { summary_text = codes "s"; new_context_count = 2 }))
unfolding invoke agynio.Summarization.should_summarize agynio.Summarization.summarize
    agynio.Summarization.move_orphans split_head_tail
invoke-fails = refl

abbrev ids_of : Outcome → List String
ids_of (throws e) = []
ids_of (returns s e) = elim s.context [ none ↦ [] | some c ↦ c.message_ids ]

-- The first and the third message are folded away; the ids that go are those of the first two.
ids-folded : ids_of (invoke limits false stores state) ≡ "3" ∷ "4" ∷ []
unfolding invoke agynio.Summarization.should_summarize agynio.Summarization.summarize
    agynio.Summarization.move_orphans split_head_tail
ids-folded = refl

-- With fewer tokens than are to be kept, nothing is kept.
split-few : (split_head_tail messages 9).1 ≡ []
unfolding split_head_tail
split-few = refl
