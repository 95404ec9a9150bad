-- ===== src/Summarization/Whole.antt =====
-- What `invoke` makes of a conversation.
use agynio.Prelude.{true, false, ℕ, ◌≡◌, ◌⊎◌, Option, none, some, List, ◌++◌, length}
use agynio.Prelude.Text.{trim}
use agynio.Summarization.{
  Answers, Summarization, LlmMessage, LlmState, Outcome, returns, throws, call_ids,
}
use agynio.Summarization.Orphans.{NoOrphans, kept}

abbrev trimmed : Option (List ℕ) → Option (List ℕ)
trimmed none = none
trimmed (some s) = some (trim s)

-- The new messages are the last ones of the old, without orphans.
pub record Kept (messages messages' : List LlmMessage) : Type 0 where
  pub tail : List LlmMessage
  pub head : List LlmMessage
  pub whole : tail ++ head ≡ messages
  pub those : messages' ≡ kept (call_ids head) head
  pub closed : NoOrphans messages'

-- The event tells of the summary and of the messages.
abbrev pub Tells : Option (List ℕ) → List LlmMessage → Summarization → Type 0
Tells answer messages event =
    (trimmed answer ≡ some event.summary_text) × (event.new_context_count ≡ length messages)

-- What may come out for a state and the answers of the calls.
abbrev pub Folds : Answers → LlmState → Outcome → Type 0
Folds a s (throws none) = (a.text ≡ none) ⊎ (a.records ≡ false)
Folds a s (throws (some event)) =
    ((a.publishes ≡ false) ⊎ (a.creates ≡ none))
    × ((head : List LlmMessage) × Kept s.messages head × Tells a.text head event)
Folds a s (returns s' none) = (s' ≡ s) ⊎ (Kept s.messages s'.messages × (s'.summary ≡ s.summary))
Folds a s (returns s' (some event)) =
    Kept s.messages s'.messages
    × (s'.summary ≡ trimmed a.text)
    × Tells a.text s'.messages event
    × (a.records ≡ true)
    × (a.publishes ≡ true)
