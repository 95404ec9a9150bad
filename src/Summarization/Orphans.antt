-- ===== src/Summarization/Orphans.antt =====
-- The tool outputs whose calls are folded away go with them.
use agynio.Prelude.{
  String, ◌≡◌, refl, true, false, not, List, [], ◌∷◌, ◌++◌, ap, filter, All, inl, inr, Bool-cases,
}
use agynio.Summarization.{
  LlmMessage, MessageKind, response, tool_output, other_message, calls_of, call_ids, is_orphan,
  partition_orphans, move_orphans,
}

-- No tool output lacks its call.
abbrev pub NoOrphans : List LlmMessage → Type 0
NoOrphans ms = All (λ (m : LlmMessage). is_orphan (call_ids ms) m.kind ≡ false) ms

abbrev pub kept : List String → List LlmMessage → List LlmMessage
kept ids = filter λ (m : LlmMessage). not (is_orphan ids m.kind)

abbrev pub orphans : List String → List LlmMessage → List LlmMessage
orphans ids = filter λ (m : LlmMessage). is_orphan ids m.kind

partition-filters :
    (ids : List String) (ms : List LlmMessage)
    → partition_orphans ids ms ≡ (kept ids ms, orphans ids ms)
unfolding partition_orphans
partition-filters ids [] = refl
partition-filters ids (m ∷ ms) = elim (Bool-cases (is_orphan ids m.kind)) [
  | inl y ↦ rw (y, partition-filters ids ms) refl
  | inr n ↦ rw (n, partition-filters ids ms) refl
]

orphan-calls : (ids : List String) (k : MessageKind) → is_orphan ids k ≡ true → calls_of k ≡ []
orphan-calls ids (response calls) h = cc
orphan-calls ids (tool_output id) h = refl
orphan-calls ids other_message h = refl

-- Messages that are kept make the calls that all of them made.
call_ids-kept : (ids : List String) (ms : List LlmMessage) → call_ids (kept ids ms) ≡ call_ids ms
unfolding call_ids
call_ids-kept ids [] = refl
call_ids-kept ids (m ∷ ms) = elim (Bool-cases (is_orphan ids m.kind)) [
  | inl y ↦ rw (y, orphan-calls ids m.kind y) (call_ids-kept ids ms)
  | inr n ↦ rw n (ap (λ rest. calls_of m.kind ++ rest) (call_ids-kept ids ms))
]

kept-All :
    (ids : List String) (ms : List LlmMessage)
    → All (λ (m : LlmMessage). is_orphan ids m.kind ≡ false) (kept ids ms)
kept-All ids [] = tt
kept-All ids (m ∷ ms) = elim (Bool-cases (is_orphan ids m.kind)) [
  | inl y ↦ rw y (kept-All ids ms)
  | inr n ↦ rw n (n, kept-All ids ms)
]

pub kept-NoOrphans : (ms : List LlmMessage) → NoOrphans (kept (call_ids ms) ms)
kept-NoOrphans ms = rw (call_ids-kept (call_ids ms) ms) (kept-All (call_ids ms) ms)

pub move_orphans-filters :
    (head tail : List LlmMessage)
    → move_orphans head tail ≡ (kept (call_ids head) head, tail ++ orphans (call_ids head) head)
unfolding move_orphans
move_orphans-filters head tail = rw (partition-filters (call_ids head) head) refl
