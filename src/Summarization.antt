-- ===== src/Summarization.antt =====
-- llm/reducers/summarization.llm.reducer.ts: folding old messages of a conversation into a summary. Of
-- a message the reducer reads the ids of the tool calls it makes or answers, and the length of its YAML
-- text. A quarter of a text's length counts as tokens, so lengths are compared with four times a limit.
-- What the language model answers, and what the event store, the bus and the context store do, are
-- arguments.
pub mod Split
pub mod Orphans
pub mod Whole
pub mod Tests
use agynio.Prelude.{
  ◌||◌, ◌||◌, not, truthy, ℕ, ◌+◌, ◌*◌, String, Bool, true, false, ◌&&◌, Option, none, some, List,
  [], ◌∷◌, ◌++◌, leb, ltb, ◌==◌, has, length, drop, if◌then◌else◌,
}
use agynio.Prelude.Text.{same_text, trim}

pub data MessageKind : Type 0 where
  response : List String → MessageKind
  tool_output : String → MessageKind
  other_message : MessageKind

pub record LlmMessage : Type 0 where
  pub kind : MessageKind
  pub size : ℕ

pub record SummaryItem : Type 0 where
  pub id : Option String
  pub text : Option (List ℕ)

pub record LlmContextState : Type 0 where
  pub message_ids : List String
  pub memory : List (Option String × String)
  pub summary : Option SummaryItem
  pub system : Option (Option String)
  pub pending_new_context_item_ids : Option (List String)

pub record LlmState : Type 0 where
  pub messages : List LlmMessage
  pub summary : Option (List ℕ)
  pub context : Option LlmContextState

pub record Params : Type 0 where
  pub keep_tokens : ℕ
  pub max_tokens : ℕ

-- `text.length` counts UTF-16 units.
text_length : List ℕ → ℕ
text_length [] = 0
text_length (c ∷ s) = (if ltb c 0x10000 then 1 else 2) + text_length s

pub total_size : List LlmMessage → ℕ
total_size [] = 0
total_size (m ∷ ms) = m.size + total_size ms

abbrev summary_size : Option (List ℕ) → ℕ
summary_size none = 0
summary_size (some s) = text_length s

pub should_summarize : Params → LlmState → Bool
unfolding total_size text_length
should_summarize p s = ltb (4 * p.max_tokens) (total_size s.messages + summary_size s.summary)

-- The loop from the last message to the first: the size that it has summed up, and where it broke off,
-- the messages before and from there.
abbrev pub look_back :
    ℕ
    → LlmMessage
    → List LlmMessage
    → ℕ × Option (List LlmMessage × List LlmMessage)
    → ℕ × Option (List LlmMessage × List LlmMessage)
look_back keep m ms (total, some (tail, head)) = (total, some (m ∷ tail, head))
look_back keep m ms (total, none) =
    let total' = total + m.size in (total', if leb keep total' then some ([], m ∷ ms) else none)

pub scan : ℕ → List LlmMessage → ℕ × Option (List LlmMessage × List LlmMessage)
scan keep [] = (0, none)
scan keep (m ∷ ms) = look_back keep m ms (scan keep ms)

abbrev pub or_all :
    List LlmMessage → Option (List LlmMessage × List LlmMessage) → List LlmMessage × List LlmMessage
or_all messages none = (messages, [])
or_all messages (some parts) = parts

-- `splitHeadTailByTokens`: the tail, older, and the head.
pub split_head_tail : List LlmMessage → ℕ → List LlmMessage × List LlmMessage
unfolding scan
split_head_tail messages keep_tokens = or_all messages (scan (4 * keep_tokens) messages).1

abbrev pub calls_of : MessageKind → List String
calls_of (response ids) = ids
calls_of (tool_output id) = []
calls_of other_message = []

pub call_ids : List LlmMessage → List String
call_ids [] = []
call_ids (m ∷ ms) = calls_of m.kind ++ call_ids ms

-- A tool output whose call is not among the ids.
abbrev pub is_orphan : List String → MessageKind → Bool
is_orphan ids (tool_output id) = not (has ids id)
is_orphan ids (response calls) = false
is_orphan ids other_message = false

pub partition_orphans : List String → List LlmMessage → List LlmMessage × List LlmMessage
partition_orphans ids [] = ([], [])
partition_orphans ids (m ∷ ms) =
    let (kept, orphans) = partition_orphans ids ms in
    if is_orphan ids m.kind then (kept, m ∷ orphans) else (m ∷ kept, orphans)

-- `moveOrphanToolOutputsToTail`: the new head and the new tail.
pub move_orphans : List LlmMessage → List LlmMessage → List LlmMessage × List LlmMessage
unfolding call_ids partition_orphans
move_orphans head tail =
    let (kept, orphans) = partition_orphans (call_ids head) head in (kept, tail ++ orphans)

abbrev pub clone_context : Option LlmContextState → LlmContextState
clone_context none = record {
  message_ids = [];
  memory = [];
  summary = none;
  system = none;
  pending_new_context_item_ids = some [];
}
clone_context (some c) = c

abbrev pub left_ids : ℕ → List String → List String
left_ids n ids = if leb (length ids) n then [] else drop n ids

-- The id of the summary's context item: the one at hand if the text is the same, or a new one.
abbrev pub same_summary : List ℕ → Option SummaryItem → Option String
same_summary text none = none
same_summary text (some item) = elim item.text [
  | none ↦ none
  | some old ↦ if same_text old text then item.id else none
]

-- What the calls that a summarization makes answer: the text of the language model, `none` if its call
-- fails; whether recording and publishing the event succeed; and the id of a new context item, if the
-- store gives one, `none` if it fails.
pub record Answers : Type 0 where
  pub text : Option (List ℕ)
  pub records : Bool
  pub publishes : Bool
  pub creates : Option (Option String)

-- The id of the summary's context item: the store is asked only if there is none. An empty id counts
-- as none. `none` if the store fails.
abbrev pub summary_id : Option (Option String) → Option String → Option (Option String)
summary_id creates old = elim (truthy old) [ none ↦ creates | some id ↦ some (some id) ]

abbrev pub with_id : List ℕ → Option (Option String) → Option (Option SummaryItem)
with_id text none = none
with_id text (some id) = some (some (record { id = id; text = some text }))

abbrev pub stored_summary :
    Option (Option String) → List ℕ → Option SummaryItem → Option (Option SummaryItem)
stored_summary creates text old =
    if same_text text []
    then some none
    else with_id text (summary_id creates (same_summary text old))

-- What a summarization records as an event.
pub record Summarization : Type 0 where
  pub summary_text : List ℕ
  pub new_context_count : ℕ

-- What comes out, with the event that was recorded.
pub data Outcome : Type 0 where
  returns : LlmState → Option Summarization → Outcome
  throws : Option Summarization → Outcome

abbrev pub end_fold :
    LlmContextState
    → List LlmMessage
    → List LlmMessage
    → List ℕ
    → Option (Option SummaryItem)
    → Outcome
end_fold context head tail text none =
    throws (some (record { summary_text = text; new_context_count = length head }))
end_fold context head tail text (some summary) =
    returns
      (record {
        messages = head;
        summary = some text;
        context = some (record context {
          message_ids = left_ids (length tail) context.message_ids;
          summary = summary;
        });
      })
      (some (record { summary_text = text; new_context_count = length head }))

-- After the language model has answered: the event is recorded, then published, then the summary is
-- stored as a context item.
abbrev pub record_fold :
    Answers → LlmContextState → List LlmMessage → List LlmMessage → List ℕ → Outcome
record_fold answers context head tail text =
    let event : Summarization = record { summary_text = text; new_context_count = length head } in
    if not answers.records
    then throws none
    else if not answers.publishes
    then throws (some event)
    else end_fold context head tail text (stored_summary answers.creates text context.summary)

abbrev pub answered :
    Answers → LlmContextState → List LlmMessage → List LlmMessage → Option (List ℕ) → Outcome
answered answers context head tail none = throws none
answered answers context head tail (some answer) =
    record_fold answers context head tail (trim answer)

-- `summarize` once the messages are split.
abbrev pub fold_tail :
    Answers → LlmState → LlmContextState → List LlmMessage → List LlmMessage → Outcome
fold_tail answers s context head [] =
    returns (record s { messages = head; context = some context }) none
fold_tail answers s context head (m ∷ tail) = answered answers context head (m ∷ tail) answers.text

pub summarize : Params → Bool → Answers → LlmState → Outcome
summarize p terminated answers s =
    let (tail, head) = split_head_tail s.messages p.keep_tokens in
    let (head', tail') = move_orphans head tail in
    if terminated || length s.messages == 0
    then returns s none
    else fold_tail answers s (clone_context s.context) head' tail'

pub invoke : Params → Bool → Answers → LlmState → Outcome
invoke p terminated answers s =
    if p.max_tokens == 0 || terminated || not (should_summarize p s)
    then returns s none
    else summarize p terminated answers s
