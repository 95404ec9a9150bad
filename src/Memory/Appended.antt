-- ===== src/Memory/Appended.antt =====
-- What a document holds after a text is appended to it, and what other documents hold.
use mathlib.Core.List.{append_assoc}
use agynio.Prelude.Text.{starts_with}
use agynio.Prelude.{
  not, ◌&&◌, ◌||◌, ℕ, ◌<◌, Bool, true, false, Option, none, some, List, [], ◌∷◌, ◌++◌, map, ◌==◌,
  if◌then◌else◌, ◌≡◌, refl, sym, ap, ◌∙◌, arith, All, Bool-cases, inl, inr, ==_iff, ◌⊎◌, get_or,
}
use agynio.Memory.Store.{
  MemoryEntity, RepoFilter, Store, resolve_from, resolve_path, ensure_path, set_content,
  update_content,
}
use agynio.Memory.Resolve.{
  Ensured, ensure_from-Ensured, resolve_from-append, resolve_from-set_content, map_option,
}
use agynio.Memory.Drawn.{Below, IsDrawn, Draws, ensure_from-Draws, resolve_from-Below}
use agynio.Memory.Documents.{
  newline, ends_with, done, appended, content_of, append_at, write_at, read_at, or_not_found,
}

-- What stands between the old content and the text.
abbrev pub line_break_between : List ℕ → List ℕ → List ℕ
line_break_between [] text = []
line_break_between (x ∷ old) text =
    if ends_with newline (x ∷ old) || starts_with (newline ∷ []) text then [] else newline ∷ []

appended-eq : (old text : List ℕ) → appended old text ≡ old ++ line_break_between old text ++ text
unfolding appended
appended-eq [] text = refl
appended-eq (x ∷ old) text = go (ends_with newline (x ∷ old)) (starts_with (newline ∷ []) text)
  where
    go :
        (a b : Bool)
        → (if not a && not b then (x ∷ old) ++ newline ∷ text else (x ∷ old) ++ text)
          ≡ (x ∷ old) ++ (if a || b then [] else newline ∷ []) ++ text
    go true b = sym (append_assoc (x ∷ old) [] text)
    go false true = sym (append_assoc (x ∷ old) [] text)
    go false false = sym (append_assoc (x ∷ old) (newline ∷ []) text)

module _ (f : RepoFilter) (segment : List ℕ) (segments : List (List ℕ)) (s : Store)
    (text : List ℕ) where
  abbrev pub path : List (List ℕ)
  path = segment ∷ segments

  -- What the path holds before.
  abbrev pub old_content : Option MemoryEntity → List ℕ
  old_content none = []
  old_content (some d) = content_of d

  abbrev pub is_row_of : Option MemoryEntity → MemoryEntity → Bool
  is_row_of none e = false
  is_row_of (some d) e = e.id == d.id

  abbrev pub new_content : Option MemoryEntity → List ℕ
  new_content before = old_content before ++ line_break_between (old_content before) text ++ text

  -- The path then holds the text behind what it held; every path that led to a row leads to it
  -- still, with its content unchanged unless it is the row of the path.
  pub record Appends (before : Option MemoryEntity) (s' : Store) : Type 0 where
    pub reads : read_at f s' path ≡ done (new_content before)
    pub others :
        (g : RepoFilter) (q : List (List ℕ)) (e : MemoryEntity)
        → resolve_path g q s ≡ some e
        → resolve_path g q s'
          ≡ some
              (if is_row_of before e then record e { content = some (new_content before) } else e)
    pub drawn : IsDrawn s'

  content-set_content : (e : MemoryEntity) (c : List ℕ) → content_of (set_content e.id c e) ≡ c
  unfolding set_content
  content-set_content e c = ground (arith, ==_iff e.id e.id)

  set_content_other : (id : ℕ) (c : List ℕ) (e : MemoryEntity) → e.id < id → set_content id c e ≡ e
  unfolding set_content
  set_content_other id c e h = let other : (e.id == id) ≡ false = ground arith in rw other refl

  set_content-eq :
      (d e e' : MemoryEntity) (c : List ℕ)
      → d ≡ e
      → set_content e.id c e' ≡ (if e'.id == d.id then record e' { content = some c } else e')
  unfolding set_content
  set_content-eq d e e' c same =
      ap (λ (x : MemoryEntity). if e'.id == x.id then record e' { content = some c } else e')
        (sym same)

  some-eq : (d e : MemoryEntity) → some d ≡ some e → d ≡ e
  some-eq d e h = ground (arith, h)

  drawn-set_content :
      (id : ℕ) (c : List ℕ) (n : ℕ) (rows : List MemoryEntity)
      → All (Below n) rows
      → All (Below n) (map (set_content id c) rows)
  unfolding set_content
  drawn-set_content id c n [] all = tt
  drawn-set_content id c n (e ∷ rows) all = elim (Bool-cases (e.id == id)) [
    | inl same ↦ rw same (all.0, drawn-set_content id c n rows all.1)
    | inr other ↦ rw other (all.0, drawn-set_content id c n rows all.1)
  ]

  module _ (before : Option MemoryEntity) (r : Option MemoryEntity × Store)
      (h : Ensured f none none path s r) (e : MemoryEntity) (returned : r.0 ≡ some e)
      (drawn : IsDrawn r.1) where
    written : List ℕ → Store
    written c = update_content e.id c r.1

    resolves-written :
        (c : List ℕ) (g : RepoFilter) (q : List (List ℕ)) (o : Option MemoryEntity)
        → resolve_from g none none q (s.rows ++ h.more) ≡ o
        → resolve_path g q (written c) ≡ map_option (set_content e.id c) o
    unfolding resolve_path update_content written
    resolves-written c g q o there =
        resolve_from-set_content e.id c g none none q r.1.rows
        ∙ ap (λ rows. map_option (set_content e.id c) (resolve_from g none none q rows)) h.rows
        ∙ ap (map_option (set_content e.id c)) there

    read-written : (c : List ℕ) → read_at f (written c) path ≡ done c
    unfolding read_at
    read-written c =
        ap (λ o. or_not_found {A = List ℕ} o λ d. done (content_of d))
          (resolves-written c f path (some e) (h.resolves ∙ returned))
        ∙ ap done (content-set_content e c)

    others-written :
        (c : List ℕ) (g : RepoFilter) (q : List (List ℕ)) (e' : MemoryEntity)
        → resolve_path g q s ≡ some e'
        → resolve_path g q (written c) ≡ some (set_content e.id c e')
    unfolding resolve_path
    others-written c g q e' there =
        resolves-written c g q (some e') (resolve_from-append g none none q s.rows h.more e' there)

    -- The row that is written is the one before, or new and without content.
    written-Appends :
        old_content before ≡ content_of e
        → ((e' : MemoryEntity) (g : RepoFilter) (q : List (List ℕ))
            → resolve_path g q s ≡ some e'
            → set_content e.id (new_content before) e' ≡ (
                if is_row_of before e'
                then record e' { content = some (new_content before) }
                else e'))
        → Appends before (written (appended (content_of e) text))
    written-Appends old sets =
        let same : new_content before ≡ appended (content_of e) text =
          sym (appended-eq (old_content before) text) ∙ ap (λ l. appended l text) old in
        rw (← same) (record {
          reads = read-written (new_content before);
          others = λ g q e' there.
              others-written (new_content before) g q e' there ∙ ap some (sets e' g q there);
          drawn = record {
            below =
                unfold written update_content in
                drawn-set_content e.id (new_content before) r.1.next_id r.1.rows drawn.below;
          };
        })

  module _ (d : IsDrawn s) where
    ensured : Ensured f none none path s (ensure_path f path s)
    unfolding ensure_path
    ensured = ensure_from-Ensured f none none path s

    append_at-eq :
        (e : MemoryEntity)
        → (ensure_path f path s).0 ≡ some e
        → append_at f s text path
          ≡ done (update_content e.id (appended (content_of e) text) (ensure_path f path s).1)
    unfolding append_at write_at
    append_at-eq e returned = ap (λ o. write_at f s text (o, (ensure_path f path s).1)) returned

    draws :
        (new : Bool)
        → (new ≡ false) ⊎ (resolve_path f path s ≡ none)
        → Draws f new s.next_id (ensure_path f path s)
    unfolding ensure_path resolve_path
    draws new asked =
        ensure_from-Draws f segments segment none none s new s.next_id d tt (omega arith) asked

    row-Below :
        (g : RepoFilter) (q : List (List ℕ)) (e' : MemoryEntity)
        → resolve_path g q s ≡ some e'
        → e'.id < s.next_id
    unfolding resolve_path
    row-Below g [] e' there = unfold resolve_from in cc
    row-Below g (x ∷ xs) e' there =
        (resolve_from-Below g xs x none none s.next_id s.rows e' d.below there).0

    append-found :
        (e : MemoryEntity)
        → (ensure_path f path s).0 ≡ some e
        → IsDrawn (ensure_path f path s).1
        → (before : Option MemoryEntity) → old_content before ≡ content_of e
        → ((e' : MemoryEntity) (g : RepoFilter) (q : List (List ℕ))
            → resolve_path g q s ≡ some e'
            → set_content e.id (new_content before) e' ≡ (
                if is_row_of before e'
                then record e' { content = some (new_content before) }
                else e'))
        → (s' : Store) × (append_at f s text path ≡ done s') × Appends before s'
    append-found e returned drawn before old sets = (
      written before (ensure_path f path s) ensured e returned drawn (appended (content_of e) text),
      unfold written in append_at-eq e returned,
      written-Appends before (ensure_path f path s) ensured e returned drawn old sets,
    )

    same-row :
        (e : MemoryEntity)
        → resolve_path f path s ≡ some e
        → (e' : MemoryEntity) → (ensure_path f path s).0 ≡ some e'
        → e ≡ e'
    unfolding resolve_path
    same-row e there e' returned =
        let found = resolve_from-append f none none path s.rows ensured.more e there in
        some-eq e e' (sym found ∙ ensured.resolves ∙ returned)

    -- In a store whose ids are below the next one, appending to a path that is not the root succeeds:
    -- the path then holds the text behind what it held, on a new line unless one of the two has a
    -- line break there or the content is empty; every path that led to a row still leads to it, only
    -- the row of the path has other content, and the ids are below the next one again.
    pub append_at-Appends :
        (s' : Store) × (append_at f s text path ≡ done s') × Appends (resolve_path f path s) s'
    append_at-Appends = go (resolve_path f path s) refl
      where
        go :
            (before : Option MemoryEntity)
            → resolve_path f path s ≡ before
            → (s' : Store) × (append_at f s text path ≡ done s') × Appends before s'
        go none there =
            let n = draws true (inr there) in
            append-found n.row n.returned n.drawn none
              (sym (ap (λ o. get_or {A = List ℕ} o []) (n.blank refl)))
              (λ e' g q there'.
                set_content_other n.row.id (new_content none) e'
                  (omega (arith, n.bound refl, row-Below g q e' there')))
        go (some e) there =
            let n = draws false (inl refl) in
            let same : e ≡ n.row = same-row e there n.row n.returned in
            append-found n.row n.returned n.drawn (some e) (ap content_of same)
              (λ e' g q there'. set_content-eq e n.row e' (new_content (some e)) same)
