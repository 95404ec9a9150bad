-- ===== src/Summarization/Split.antt =====
-- The split of the messages: where it is, and what it keeps.
use agynio.Prelude.{
  zero, suc, ℕ, ◌+◌, ◌*◌, ◌≤◌, ◌<◌, ◌≡◌, ◌⊎◌, refl, Option, none, some, List, [], ◌∷◌, ◌++◌, ap,
  arith, leb, leb→le, inl, inr, Bool-cases,
}
use agynio.Summarization.{LlmMessage, total_size, look_back, scan, or_all, split_head_tail}
use mathlib.Core.List.{append-nil}

-- A head that reaches a size, and would not without its first message; with nothing to keep, it is one
-- message.
abbrev pub Reaches : ℕ → List LlmMessage → Type 0
Reaches keep [] = ⊥
Reaches keep (m ∷ rest) =
    (keep ≤ total_size (m ∷ rest))
    × (((keep ≡ 0) × (rest ≡ [])) ⊎ ((0 < keep) × (total_size rest < keep)))

abbrev Scanned : ℕ → List LlmMessage → ℕ × Option (List LlmMessage × List LlmMessage) → Type 0
Scanned keep ms (total, none) = (total ≡ total_size ms) × ((ms ≡ []) ⊎ (total < keep))
Scanned keep ms (total, some (tail, head)) =
    (tail ++ head ≡ ms) × Reaches keep head × (keep ≤ total_size ms)

-- What stands behind the first message of the head.
minimal :
    (keep total : ℕ) (ms : List LlmMessage)
    → total ≡ total_size ms
    → (ms ≡ []) ⊎ (total < keep)
    → ((keep ≡ 0) × (ms ≡ [])) ⊎ ((0 < keep) × (total_size ms < keep))
unfolding total_size
minimal keep total ms e (inr small) = inr (omega (arith, small), omega (arith, small, e))
minimal zero total ms e (inl last) = inl (refl, last)
minimal (suc keep) total ms e (inl last) =
    let none_left : total_size ms ≡ 0 = ap total_size last in
    inr (omega arith, omega (arith, none_left))

look_back-Scanned :
    (keep : ℕ) (m : LlmMessage) (ms : List LlmMessage)
    (r : ℕ × Option (List LlmMessage × List LlmMessage))
    → Scanned keep ms r
    → Scanned keep (m ∷ ms) (look_back keep m ms r)
unfolding total_size
look_back-Scanned keep m ms (total, some (tail, head)) h = (ap (◌∷◌ m) h.0, h.1, omega (arith, h.2))
look_back-Scanned keep m ms (total, none) h = elim (Bool-cases (leb keep (total + m.size))) [
  | inl reached ↦ rw reached (
      let big = leb→le keep (total + m.size) reached in
      (refl, (omega (arith, big, h.0), minimal keep total ms h.0 h.1), omega (arith, big, h.0)))
  | inr short ↦ rw short (omega (arith, h.0), inr (ground (arith, short)))
]

scan-Scanned : (keep : ℕ) (ms : List LlmMessage) → Scanned keep ms (scan keep ms)
unfolding scan total_size
scan-Scanned keep [] = (refl, inl refl)
scan-Scanned keep (m ∷ ms) = look_back-Scanned keep m ms (scan keep ms) (scan-Scanned keep ms)

-- How the messages are split for a size to keep.
pub record Splits (keep : ℕ) (messages : List LlmMessage)
    (parts : List LlmMessage × List LlmMessage) : Type 0 where
  pub whole : parts.0 ++ parts.1 ≡ messages
  pub reached : keep ≤ total_size messages → (messages ≡ []) ⊎ Reaches keep parts.1
  pub short : total_size messages < keep → parts.1 ≡ []

or_all-Splits :
    (keep : ℕ) (messages : List LlmMessage) (r : ℕ × Option (List LlmMessage × List LlmMessage))
    → Scanned keep messages r
    → Splits keep messages (or_all messages r.1)
or_all-Splits keep messages (total, none) h = record {
  whole = append-nil messages;
  reached = λ big. elim h.1 [ inl e ↦ inl e | inr small ↦ absurd (omega (arith, big, h.0, small)) ];
  short = λ small. refl;
}
or_all-Splits keep messages (total, some (tail, head)) h = record {
  whole = h.0;
  reached = λ big. inr h.1;
  short = λ small. absurd (omega (arith, small, h.2));
}

-- The messages are split into an older part and a newer one, in order. If together they have the
-- tokens to keep, the newer part has them, and would not without its first message; with no tokens to
-- keep, it is the last message, if there is one. If they do not have them, the newer part is empty.
pub split-Splits :
    (messages : List LlmMessage) (keep_tokens : ℕ)
    → Splits (4 * keep_tokens) messages (split_head_tail messages keep_tokens)
unfolding split_head_tail
split-Splits messages keep_tokens =
    or_all-Splits (4 * keep_tokens) messages (scan (4 * keep_tokens) messages)
      (scan-Scanned (4 * keep_tokens) messages)
