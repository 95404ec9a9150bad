-- ===== src/Memory/Replaced.antt =====
-- `update` replaces a text by another in a document.
use mathlib.Core.List.{append-nil, append_assoc}
use agynio.Prelude.{
  ℕ, zero, suc, ◌-◌, Bool, true, false, none, some, List, [], ◌∷◌, ◌++◌, ◌==◌, if◌then◌else◌,
  length, drop, ◌≡◌, refl, sym, ap, ◌∙◌, arith, All, Bool-cases, inl, inr, ==_iff,
}
use agynio.Prelude.Text.{starts_with}
use agynio.Memory.Store.{MemoryEntity, RepoFilter, Store, resolve_path, update_content, set_content}
use agynio.Memory.Resolve.{resolve_from-set_content, map_option}
use agynio.Memory.Pieces.{Lacks, pieces-Lacks}
use agynio.Memory.Documents.{
  done, content_of, split_text, join_text, replace_in, update_at, read_at, or_not_found,
}

starts_with-append : (t s : List ℕ) → starts_with t s ≡ true → s ≡ t ++ drop (length t) s
starts_with-append [] s h = refl
starts_with-append (d ∷ t) [] h = cc
starts_with-append (d ∷ t) (c ∷ s) h = ground (arith, h, starts_with-append t s)

module _ (separator : List ℕ) where
  split_text-nonempty :
      (skip : ℕ) (piece s : List ℕ)
      → (first : List ℕ) × (rest : List (List ℕ)) × (split_text separator skip piece s
          ≡ first ∷ rest)
  unfolding split_text
  split_text-nonempty skip piece [] = (piece, [], refl)
  split_text-nonempty (suc skip) piece (x ∷ s) = split_text-nonempty skip piece s
  split_text-nonempty zero piece (x ∷ s) = elim (Bool-cases (starts_with separator (x ∷ s))) [
    | inl found ↦ (piece, split_text separator (length separator - 1) [] s, rw found refl)
    | inr other ↦ rw other (split_text-nonempty zero (piece ++ x ∷ []) s)
  ]

  join-cons :
      (piece : List ℕ) (parts : List (List ℕ)) (first : List ℕ) (rest : List (List ℕ))
      → parts ≡ first ∷ rest
      → join_text separator (piece ∷ parts) ≡ piece ++ separator ++ join_text separator parts
  unfolding join_text
  join-cons piece parts first rest e = rw e refl

matched :
    (d : ℕ) (t : List ℕ) (x : ℕ) (s : List ℕ)
    → starts_with (d ∷ t) (x ∷ s) ≡ true
    → x ∷ s ≡ (d ∷ t) ++ drop (length (d ∷ t) - 1) s
matched d t x s h =
    let n : length (d ∷ t) - 1 ≡ length t = omega arith in
    rw n (starts_with-append (d ∷ t) (x ∷ s) h)

-- The parts between the separators, joined by the separator, are the text again.
join-split_text :
    (d : ℕ) (t : List ℕ) (skip : ℕ) (piece s : List ℕ)
    → join_text (d ∷ t) (split_text (d ∷ t) skip piece s) ≡ piece ++ drop skip s
unfolding split_text
join-split_text d t zero piece [] = unfold join_text in sym (append-nil piece)
join-split_text d t (suc skip) piece [] = unfold join_text in sym (append-nil piece)
join-split_text d t (suc skip) piece (x ∷ s) = join-split_text d t skip piece s
join-split_text d t zero piece (x ∷ s) =
    go (starts_with (d ∷ t) (x ∷ s)) refl (join-split_text d t (length (d ∷ t) - 1) [] s)
      (join-split_text d t zero (piece ++ x ∷ []) s)
  where
    found : List (List ℕ)
    found = split_text (d ∷ t) (length (d ∷ t) - 1) [] s

    more : List (List ℕ)
    more = split_text (d ∷ t) zero (piece ++ x ∷ []) s

    go :
        (b : Bool)
        → starts_with (d ∷ t) (x ∷ s) ≡ b
        → join_text (d ∷ t) found ≡ drop (length (d ∷ t) - 1) s
        → join_text (d ∷ t) more ≡ (piece ++ x ∷ []) ++ s
        → join_text (d ∷ t) (if b then piece ∷ found else more) ≡ piece ++ x ∷ s
    go true e f m =
        let (first, rest, shape) = split_text-nonempty (d ∷ t) (length (d ∷ t) - 1) [] s in
        join-cons (d ∷ t) piece found first rest shape
        ∙ ap (λ u. (piece ++ d ∷ t) ++ u) f
        ∙ append_assoc piece (d ∷ t) _
        ∙ ap (◌++◌ piece) (sym (matched d t x s e))
    go false e f m = m ∙ append_assoc piece (x ∷ []) s

content-set_content : (e : MemoryEntity) (c : List ℕ) → content_of (set_content e.id c e) ≡ c
unfolding set_content
content-set_content e c = ground (arith, ==_iff e.id e.id)

-- One part is joined to the same text by all separators.
single :
    (old new : List ℕ) (parts : List (List ℕ)) (first : List ℕ) (rest : List (List ℕ))
    → parts ≡ first ∷ rest
    → (length parts - 1 == 0) ≡ true
    → join_text old parts ≡ join_text new parts
unfolding join_text
single old new parts first [] shape h = rw shape refl
single old new parts first (r ∷ rest) shape h =
    let long : length parts ≡ suc (suc (length rest)) = ap length shape in
    absurd (omega (arith, long, (==_iff (length parts - 1) 0).0 h))

module _ (f : RepoFilter) (segments : List (List ℕ)) (segment : List ℕ) (s : Store) (d : ℕ)
    (t : List ℕ) (new : List ℕ) (e : MemoryEntity) where
  abbrev old : List ℕ
  old = d ∷ t

  -- The content is split at the old text, and is joined by the new one.
  pub record Replaces (r : ℕ × Store) : Type 0 where
    pub parts : List (List ℕ)
    pub before : join_text old parts ≡ content_of e
    pub between : All (Lacks d t) parts
    pub count : r.0 ≡ length parts - 1
    pub after : read_at f r.1 (segment ∷ segments) ≡ done (join_text new parts)

  read-row :
      resolve_path f (segment ∷ segments) s ≡ some e
      → read_at f s (segment ∷ segments) ≡ done (content_of e)
  unfolding read_at
  read-row there = ap (λ o. or_not_found {A = List ℕ} o λ x. done (content_of x)) there

  read-update_content :
      resolve_path f (segment ∷ segments) s ≡ some e
      → (c : List ℕ) → read_at f (update_content e.id c s) (segment ∷ segments) ≡ done c
  unfolding read_at resolve_path update_content
  read-update_content there c =
      ap (λ o. or_not_found {A = List ℕ} o λ x. done (content_of x))
        (resolve_from-set_content e.id c f none none (segment ∷ segments) s.rows
          ∙ ap (map_option (set_content e.id c)) there)
      ∙ ap done (content-set_content e c)

  replaced : resolve_path f (segment ∷ segments) s ≡ some e → Replaces (replace_in f s old new e)
  unfolding replace_in
  replaced there = go (length parts - 1 == 0) refl
    where
      parts : List (List ℕ)
      parts = split_text old 0 [] (content_of e)

      before : join_text old parts ≡ content_of e
      before = join-split_text d t 0 [] (content_of e)

      go :
          (b : Bool)
          → (length parts - 1 == 0) ≡ b
          → Replaces (
              if b then (0, s) else (length parts - 1, update_content e.id (join_text new parts) s))
      go true none_found =
          let (first, rest, shape) = split_text-nonempty old 0 [] (content_of e) in
          let alone = single old new parts first rest shape none_found in
          record {
            parts = parts;
            before = before;
            between = pieces-Lacks d t (content_of e);
            count = ground (arith, none_found);
            after = read-row there ∙ ap done (sym before ∙ alone);
          }
      go false found = record {
        parts = parts;
        before = before;
        between = pieces-Lacks d t (content_of e);
        count = refl;
        after = read-update_content there (join_text new parts);
      }

  -- An update of a document at a text that is not empty splits its content at the places of the
  -- text: the parts do not have the text in them, and joined by it are the content again. It
  -- leaves the content as the parts joined by the new text, and returns the number of the places.
  pub update_at-Replaces :
      resolve_path f (segment ∷ segments) s ≡ some e
      → (r : ℕ × Store) × (update_at f s old new (segment ∷ segments) ≡ done r) × Replaces r
  unfolding update_at
  update_at-Replaces there = (
    replace_in f s old new e,
    ap (λ o. or_not_found {A = ℕ × Store} o λ x. done (replace_in f s old new x)) there,
    replaced there,
  )
