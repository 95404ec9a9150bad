-- ===== src/Buffer/Tokens.antt =====
-- The token counts that `tryDrainDescriptor` reports, and what `dropTokens` does to them.
use agynio.Prelude.{
  ℕ, ◌+◌, String, ◌≡◌, refl, ap, ◌≤◌, inl, inr, Option-cases, Option, Bool, true, false, none, some,
  List, [], ◌∷◌, ◌++◌, arith, str_eq, eq_iff, if◌then◌else◌, truthy, get_or, filter, has, Assoc,
  lookup, lookup-insert,
}
use agynio.Buffer.{
  ProcessBuffer, QueuedItem, ThreadState, MessagesBuffer, add_part, count_parts, drain_items,
  messages_of, Drained, try_drain_descriptor, is_kept, drop_state, drop_tokens, items,
}
use agynio.Buffer.Fifo.{drain_items-Takes, items-store}

-- The items that carry a token; an empty token is none.
abbrev pub carries : String → QueuedItem → Bool
carries token q = elim (truthy q.token_id) [ none ↦ false | some t ↦ str_eq t token ]

abbrev pub count_token : String → List QueuedItem → ℕ
count_token token [] = 0
count_token token (q ∷ qs) = (if carries token q then 1 else 0) + count_token token qs

abbrev pub count_in : String → Assoc ℕ → ℕ
count_in token parts = get_or (lookup token parts) 0

count-add_part :
    (token : String) (parts : Assoc ℕ) (q : QueuedItem)
    → count_in token (add_part parts q) ≡ count_in token parts + (if carries token q then 1 else 0)
unfolding add_part
count-add_part token parts q = elim (Option-cases (truthy q.token_id)) [
  | inl e ↦ ground (arith, e)
  | inr (t, e) ↦
      ground (arith, e, eq_iff t token, lookup-insert t token (get_or (lookup t parts) 0 + 1) parts)
]

count-count_parts :
    (token : String) (parts : Assoc ℕ) (qs : List QueuedItem)
    → count_in token (count_parts parts qs) ≡ count_in token parts + count_token token qs
unfolding count_parts
count-count_parts token parts [] = omega arith
count-count_parts token parts (q ∷ qs) =
    omega (arith, count-add_part token parts q, count-count_parts token (add_part parts q) qs)

count_parts-empty :
    (token : String) (qs : List QueuedItem)
    → count_in token (count_parts [] qs) ≡ count_token token qs
unfolding lookup
count_parts-empty token qs = omega (arith, count-count_parts token [] qs)

-- What a drain with descriptor returns: the messages of the front of the queue, in order, and for
-- every token how many of those items carry it (0 where it is not listed).
pub record Describes (thread : String) (b : MessagesBuffer) (r : Drained × MessagesBuffer)
    : Type 0 where
  pub taken : List QueuedItem
  pub front : items thread b ≡ taken ++ items thread r.1
  pub messages : r.0.messages ≡ messages_of taken
  pub counts : (token : String) → count_in token r.0.token_parts ≡ count_token token taken

-- For any state, thread, mode and time, the drained messages are those of a front of the thread's
-- queue whose rest stays queued, and the reported count of every token is the number of drained
-- items that carry it.
pub drain_descriptor-Describes :
    (thread : String) (mode : ProcessBuffer) (now : ℕ) (b : MessagesBuffer)
    → Describes thread b (try_drain_descriptor thread mode now b)
unfolding try_drain_descriptor
drain_descriptor-Describes thread mode now b = record {
  taken = (drain_items thread mode now b).0;
  front = (drain_items-Takes thread mode now b).front;
  messages = refl;
  counts = λ token. count_parts-empty token (drain_items thread mode now b).0;
}

abbrev pub is_plain : QueuedItem → Bool
is_plain q = elim (truthy q.token_id) [ none ↦ true | some t ↦ false ]

-- Dropping the tokens `ids` of a thread, seen from outside.
pub record Drops (thread : String) (ids : List String) (b b' : MessagesBuffer) : Type 0 where
  pub gone :
      (k : String) (mode : ProcessBuffer) (now : ℕ)
      → has ids k ≡ true
      → count_in k (try_drain_descriptor thread mode now b').0.token_parts ≡ 0
  pub kept :
      (k : String)
      → has ids k ≡ false
      → count_token k (items thread b') ≡ count_token k (items thread b)
  pub plain : filter is_plain (items thread b') ≡ filter is_plain (items thread b)
  pub others : (j : String) → str_eq thread j ≡ false → items j b' ≡ items j b

module _ (ids : List String) where
  filter-gone :
      (k : String) (qs : List QueuedItem)
      → has ids k ≡ true
      → count_token k (filter (is_kept ids) qs) ≡ 0
  filter-gone k [] h = refl
  filter-gone k (q ∷ qs) h = elim (Option-cases (truthy q.token_id)) [
    | inl e ↦ ground (arith, e, filter-gone k qs h)
    | inr (t, e) ↦ ground (arith, e, eq_iff t k, filter-gone k qs h)
  ]

  filter-kept :
      (k : String) (qs : List QueuedItem)
      → has ids k ≡ false
      → count_token k (filter (is_kept ids) qs) ≡ count_token k qs
  filter-kept k [] h = refl
  filter-kept k (q ∷ qs) h = elim (Option-cases (truthy q.token_id)) [
    | inl e ↦ ground (arith, e, filter-kept k qs h)
    | inr (t, e) ↦ ground (arith, e, eq_iff t k, filter-kept k qs h)
  ]

  filter-plain :
      (qs : List QueuedItem) → filter is_plain (filter (is_kept ids) qs) ≡ filter is_plain qs
  filter-plain [] = refl
  filter-plain (q ∷ qs) = ground (arith, filter-plain qs)

module _ (thread : String) (ids : List String) (b : MessagesBuffer) where
  items-drop_state :
      (j : String) (o : Option ThreadState)
      → lookup thread b.threads ≡ o
      → items j (drop_state b thread ids o)
        ≡ (if str_eq thread j then filter (is_kept ids) (items j b) else items j b)
  unfolding drop_state items
  items-drop_state j none e = ground (arith, e, eq_iff thread j)
  items-drop_state j (some s) e =
      ground (arith, e, eq_iff thread j, items-store b thread j s (filter (is_kept ids) s.queue))

  items-drop_tokens :
      (j : String)
      → items j (drop_tokens thread ids b)
        ≡ (if str_eq thread j then filter (is_kept ids) (items j b) else items j b)
  unfolding drop_tokens
  items-drop_tokens j = items-drop_state j (lookup thread b.threads) refl

  items-drop_self : items thread (drop_tokens thread ids b) ≡ filter (is_kept ids) (items thread b)
  items-drop_self = ground (arith, items-drop_tokens thread, eq_iff thread thread)

count_token-append :
    (k : String) (xs ys : List QueuedItem)
    → count_token k (xs ++ ys) ≡ count_token k xs + count_token k ys
count_token-append k [] ys = omega arith
count_token-append k (x ∷ xs) ys = omega (arith, count_token-append k xs ys)

-- A descriptor never counts more of a token than the thread's queue holds.
count-descriptor-le :
    (k thread : String) (mode : ProcessBuffer) (now : ℕ) (b : MessagesBuffer)
    → count_in k (try_drain_descriptor thread mode now b).0.token_parts
      ≤ count_token k (items thread b)
count-descriptor-le k thread mode now b =
    let d = drain_descriptor-Describes thread mode now b in
    omega (
      arith,
      d.counts k,
      ap (count_token k) d.front,
      count_token-append k d.taken (items thread (try_drain_descriptor thread mode now b).1),
    )

-- After `dropTokens` on a thread no drain of it, in any mode at any time, reports a dropped token;
-- the counts of every other token and the items without a token, in their order, are as before;
-- and no other thread's queue changes.
pub drop_tokens-Drops :
    (thread : String) (ids : List String) (b : MessagesBuffer)
    → Drops thread ids b (drop_tokens thread ids b)
drop_tokens-Drops thread ids b = record {
  gone = λ k mode now h. omega (
    arith,
    count-descriptor-le k thread mode now (drop_tokens thread ids b),
    ap (count_token k) (items-drop_self thread ids b),
    filter-gone ids k (items thread b) h,
  );
  kept = λ k h. rw (items-drop_self thread ids b) (filter-kept ids k (items thread b) h);
  plain = rw (items-drop_self thread ids b) (filter-plain ids (items thread b));
  others = λ j h. ground (arith, items-drop_tokens thread ids b j);
}
