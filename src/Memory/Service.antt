-- ===== src/Memory/Service.antt =====
-- Appending to a document of the service, and reading it.
use agynio.Prelude.{
  ◌++◌, if◌then◌else◌, ℕ, Bool, true, false, Option, none, some, List, [], ◌∷◌, if◌then◌else◌, ◌≡◌,
  ◌≢◌, ◌⊎◌, inl, inr, refl, sym, ap, ◌∙◌, arith,
}
use agynio.Prelude.Text.{same_text, contains, trim}
use agynio.Memory.Paths.{
  Checked, ok, refused, path_required, dots_not_allowed, dollar_not_allowed, slash, normalize_path,
  normalize_trimmed, check_path, check_segments, arrange, collapse, get_segments,
}
use agynio.Memory.Joined.{normalize_path-IsNormal}
use agynio.Memory.Store.{MemoryEntity, RepoFilter, Store, resolve_path}
use agynio.Memory.Drawn.{IsDrawn}
use agynio.Memory.Documents.{
  MemoryScope, bad_path, not_found, Reply, done, failed, build_filter, locate, append, read,
  append_at, read_at, bind, content_of, or_not_found,
}
use agynio.Memory.Appended.{line_break_between, old_content, append_at-Appends}

check_path-allow : (p q : List ℕ) → check_path false p ≡ ok q → check_path true p ≡ ok q
unfolding check_path
check_path-allow p q h = go (same_text p (slash ∷ [])) h
  where
    rest : Checked (List ℕ)
    rest =
        if contains (b'.' ∷ b'.' ∷ []) p
        then refused dots_not_allowed
        else if contains (b'$' ∷ []) p
        then refused dollar_not_allowed
        else check_segments p (get_segments p)

    go :
        (root : Bool)
        → (if root then refused path_required else rest) ≡ ok q
        → (if root then ok p else rest) ≡ ok q
    go true e = cc
    go false e = e

normalize_trimmed-allow :
    (s q : List ℕ) → normalize_trimmed false s ≡ ok q → normalize_trimmed true s ≡ ok q
unfolding normalize_trimmed
normalize_trimmed-allow [] q h = cc
normalize_trimmed-allow (x ∷ s) q h =
    check_path-allow (arrange (collapse slash slash false (x ∷ s))) q h

normalize_path-allow :
    (raw q : List ℕ) → normalize_path false raw ≡ ok q → normalize_path true raw ≡ ok q
unfolding normalize_path
normalize_path-allow [] q h = cc
normalize_path-allow (x ∷ s) q h =
    normalize_trimmed-allow (trim (collapse 92 slash false (x ∷ s))) q h

-- A path at which the root is not allowed has a segment.
has_segment :
    (raw q : List ℕ)
    → normalize_path false raw ≡ ok q
    → (segment : List ℕ) × (segments : List (List ℕ)) × (get_segments q ≡ segment ∷ segments)
has_segment raw q h = elim (normalize_path-IsNormal false raw q h) [
  | inl root ↦ cc (root.1)
  | inr n ↦ go (get_segments q) n.some_segment
]
  where
    go :
        (l : List (List ℕ))
        → l ≢ []
        → (segment : List ℕ) × (segments : List (List ℕ)) × (l ≡ segment ∷ segments)
    go [] some_segment = absurd (some_segment refl)
    go (segment ∷ segments) some_segment = (segment, segments, refl)

-- The same filter and segments, in two calls.
record Located (node_id : List ℕ) (scope : MemoryScope) (thread_id : Option (List ℕ))
    (path : List ℕ) : Type 0 where
  filter_of : RepoFilter
  segment : List ℕ
  segments : List (List ℕ)
  inner : locate node_id scope thread_id false path ≡ done (filter_of, segment ∷ segments)
  outer : locate node_id scope thread_id true path ≡ done (filter_of, segment ∷ segments)

module _ (node_id : List ℕ) (scope : MemoryScope) (thread_id : Option (List ℕ))
    (path : List ℕ) where
  abbrev located_with : Reply RepoFilter → Checked (List ℕ) → Reply (RepoFilter × List (List ℕ))
  located_with b n = elim b [
    | failed e ↦ failed e
    | done f ↦ elim n [ refused e ↦ failed (bad_path e) | ok p ↦ done (f, get_segments p) ]
  ]

  located-eq :
      (root : Bool) (f : RepoFilter) (q : List ℕ)
      → build_filter node_id scope thread_id ≡ done f
      → normalize_path root path ≡ ok q
      → (parts : List (List ℕ)) → get_segments q ≡ parts
      → locate node_id scope thread_id root path ≡ done (f, parts)
  unfolding locate
  located-eq root f q eb en parts shape =
      ap (λ b. located_with b (normalize_path root path)) eb
      ∙ ap (located_with (done f)) en
      ∙ ap (λ l. done (f, l)) shape

  located :
      (at : RepoFilter × List (List ℕ))
      → locate node_id scope thread_id false path ≡ done at
      → Located node_id scope thread_id path
  unfolding locate
  located at h = go (build_filter node_id scope thread_id) refl (normalize_path false path) refl h
    where
      go :
          (b : Reply RepoFilter)
          → build_filter node_id scope thread_id ≡ b
          → (n : Checked (List ℕ)) → normalize_path false path ≡ n
          → elim b [
            | failed e ↦ failed e
            | done f ↦ elim n [ refused e ↦ failed (bad_path e) | ok p ↦ done (f, get_segments p) ]
          ]
            ≡ done at
          → Located node_id scope thread_id path
      go (failed e) eb n en k = cc
      go (done f) eb (refused e) en k = cc
      go (done f) eb (ok q) en k =
          let (segment, segments, shape) = has_segment path q en in
          record {
            filter_of = f;
            segment = segment;
            segments = segments;
            inner = located-eq false f q eb en (segment ∷ segments) shape;
            outer =
                located-eq true f q eb (normalize_path-allow path q en) (segment ∷ segments) shape;
          }

  read-eq :
      (f : RepoFilter) (parts : List (List ℕ)) (s : Store)
      → locate node_id scope thread_id true path ≡ done (f, parts)
      → read node_id scope thread_id path s ≡ read_at f s parts
  unfolding read
  read-eq f parts s at = ap (λ r. bind r λ a. read_at (a.0) s (a.1)) at

  append-eq :
      (f : RepoFilter) (parts : List (List ℕ)) (s : Store) (text : List ℕ)
      → locate node_id scope thread_id false path ≡ done (f, parts)
      → append node_id scope thread_id path s text ≡ append_at f s text parts
  unfolding append
  append-eq f parts s text at = ap (λ r. bind r λ a. append_at (a.0) s text (a.1)) at

-- What a path with a segment holds, and how it reads.
read_at-old :
    (f : RepoFilter) (segment : List ℕ) (segments : List (List ℕ)) (s : Store) (text : List ℕ)
    (o : Option MemoryEntity)
    → resolve_path f (segment ∷ segments) s ≡ o
    → (read_at f s (segment ∷ segments) ≡ done (old_content f segment segments s text o))
      ⊎ ((read_at f s (segment ∷ segments) ≡ failed not_found)
          × (old_content f segment segments s text o ≡ []))
unfolding read_at
read_at-old f segment segments s text none e =
    inr (ap (λ o. or_not_found {A = List ℕ} o λ d. done (content_of d)) e, refl)
read_at-old f segment segments s text (some d) e =
    inl (ap (λ o. or_not_found {A = List ℕ} o λ d'. done (content_of d')) e)

done-eq : (s t : Store) → done s ≡ done t → s ≡ t
done-eq s t h = ground (arith, h)

-- In a store whose ids are below the next one, when the service appends a text at a path without
-- refusing: the same path reads, after, as an old content with the text behind it, where it read
-- as that content before, or was not found and the old content is empty. One line break stands
-- between them unless the old content is empty or ends with one, or the text starts with one. The
-- ids are below the next one again.
pub append-read :
    (node_id : List ℕ) (scope : MemoryScope) (thread_id : Option (List ℕ)) (path : List ℕ)
    (s s' : Store) (text : List ℕ)
    → IsDrawn s
    → append node_id scope thread_id path s text ≡ done s'
    → (old : List ℕ) × ((read node_id scope thread_id path s ≡ done old)
        ⊎ ((read node_id scope thread_id path s ≡ failed not_found) × (old ≡ [])))
      × (read node_id scope thread_id path s' ≡ done (old ++ line_break_between old text ++ text))
      × IsDrawn s'
unfolding append
append-read node_id scope thread_id path s s' text drawn h =
    go (locate node_id scope thread_id false path) refl h
  where
    go :
        (r : Reply (RepoFilter × List (List ℕ)))
        → locate node_id scope thread_id false path ≡ r
        → bind r (λ at. append_at (at.0) s text (at.1)) ≡ done s'
        → (old : List ℕ) × ((read node_id scope thread_id path s ≡ done old)
            ⊎ ((read node_id scope thread_id path s ≡ failed not_found) × (old ≡ [])))
          × (read node_id scope thread_id path s'
              ≡ done (old ++ line_break_between old text ++ text))
          × IsDrawn s'
    go (failed e) there k = cc
    go (done at) there k =
        let l = located node_id scope thread_id path at there in
        let (t, e, a) = append_at-Appends l.filter_of l.segment l.segments s text drawn in
        let same : t ≡ s' = done-eq t s' (
          sym e
          ∙ sym (
              append-eq node_id scope thread_id path l.filter_of (l.segment ∷ l.segments) s text
                l.inner)
          ∙ h) in
        let reads = read-eq node_id scope thread_id path l.filter_of (l.segment ∷ l.segments) in
        let o = resolve_path l.filter_of (l.segment ∷ l.segments) s in
        (
          old_content l.filter_of l.segment l.segments s text o,
          rw (reads s l.outer) (read_at-old l.filter_of l.segment l.segments s text o refl),
          reads s' l.outer
              ∙ ap (λ z. read_at l.filter_of z (l.segment ∷ l.segments)) (sym same)
              ∙ a.reads,
          rw (← same) a.drawn,
        )
