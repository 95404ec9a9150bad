-- ===== src/Memory/Resolve.antt =====
-- How paths resolve after rows are added and contents are set.
use mathlib.Core.List.{append_assoc, append-nil}
use agynio.Prelude.{
  ℕ, Bool, true, false, Option, none, some, List, [], ◌∷◌, ◌++◌, map, ◌==◌, if◌then◌else◌, find,
  ◌≡◌, refl, sym, ap, ◌∙◌, arith, All, Bool-cases, inl, inr, ==_iff,
}
use agynio.Prelude.Text.{same_text_iff}
use agynio.Memory.Store.{
  MemoryEntity, RepoFilter, Store, same_thread, same_parent, in_filter, is_child, find_child,
  resolve_from, create, add_row, ensure_from, set_content,
}

module _ {ℓ} {A : Type ℓ} (p : A → Bool) where
  find-append : (xs ys : List A) (x : A) → find p xs ≡ some x → find p (xs ++ ys) ≡ some x
  find-append [] ys x e = cc
  find-append (y ∷ xs) ys x e = ground (arith, e, find-append xs ys x)

  find-append_none : (xs ys : List A) → find p xs ≡ none → find p (xs ++ ys) ≡ find p ys
  find-append_none [] ys e = refl
  find-append_none (y ∷ xs) ys e = ground (arith, e, find-append_none xs ys)

  pub find-All {κ} : (P : A → Type κ) (xs : List A) (x : A) → All P xs → find p xs ≡ some x → P x
  find-All P [] x all e = cc
  find-All P (y ∷ xs) x all e = elim (Bool-cases (p y)) [
    | inl here ↦
        let same : y ≡ x = some-eq y x (ap (λ b. if b then some y else find p xs) (sym here) ∙ e) in
        rw (← same) all.0
    | inr later ↦ find-All P xs x all.1 (ap (λ b. if b then some y else find p xs) (sym later) ∙ e)
  ]
    where
      some-eq : (y x : A) → some y ≡ some x → y ≡ x
      some-eq y x h = ground (arith, h)

same_thread_refl : (t : Option (List ℕ)) → same_thread t t ≡ true
unfolding same_thread
same_thread_refl none = refl
same_thread_refl (some t) = (same_text_iff t t).1 refl

same_parent_refl : (t : Option ℕ) → same_parent t t ≡ true
unfolding same_parent
same_parent_refl none = refl
same_parent_refl (some n) = (==_iff n n).1 refl

is_child-create :
    (f : RepoFilter) (parent : Option ℕ) (name : List ℕ) (s : Store)
    → is_child f parent name (create f parent name s) ≡ true
unfolding is_child create in_filter
is_child-create f parent name s = ground (
  arith,
  same_thread_refl f.thread_id,
  same_parent_refl parent,
  same_text_iff f.node_id f.node_id,
  same_text_iff name name,
)

found_fresh :
    (f : RepoFilter) (parent : Option ℕ) (name : List ℕ) (s : Store)
    → find_child f parent name s.rows ≡ none
    → find_child f parent name (s.rows ++ create f parent name s ∷ [])
      ≡ some (create f parent name s)
unfolding find_child
found_fresh f parent name s none_there =
    find-append_none (is_child f parent name) s.rows (create f parent name s ∷ []) none_there
    ∙ ap (λ b. if b then some (create f parent name s) else none) (is_child-create f parent name s)

find_child-append :
    (f : RepoFilter) (parent : Option ℕ) (name : List ℕ) (rows more : List MemoryEntity)
    (e : MemoryEntity)
    → find_child f parent name rows ≡ some e
    → find_child f parent name (rows ++ more) ≡ some e
unfolding find_child
find_child-append f parent name = find-append (is_child f parent name)

pub resolve-found :
    (f : RepoFilter) (parent : Option ℕ) (current : Option MemoryEntity) (segment : List ℕ)
    (segments : List (List ℕ)) (rows : List MemoryEntity) (e : MemoryEntity)
    → find_child f parent segment rows ≡ some e
    → resolve_from f parent current (segment ∷ segments) rows
      ≡ resolve_from f (some e.id) (some e) segments rows
unfolding resolve_from
resolve-found f parent current segment segments rows e found =
    ap (λ o. elim o [ none ↦ none | some c ↦ resolve_from f (some c.id) (some c) segments rows ])
      found

-- What resolves still resolves when rows are added.
pub resolve_from-append :
    (f : RepoFilter) (parent : Option ℕ) (current : Option MemoryEntity) (segments : List (List ℕ))
    (rows more : List MemoryEntity) (e : MemoryEntity)
    → resolve_from f parent current segments rows ≡ some e
    → resolve_from f parent current segments (rows ++ more) ≡ some e
unfolding resolve_from
resolve_from-append f parent current [] rows more e h = h
resolve_from-append f parent current (segment ∷ segments) rows more e h =
    go (find_child f parent segment rows) refl h
      (λ c. resolve_from-append f (some c.id) (some c) segments rows more e)
  where
    go :
        (o : Option MemoryEntity)
        → find_child f parent segment rows ≡ o
        → elim o [ none ↦ none | some c ↦ resolve_from f (some c.id) (some c) segments rows ]
          ≡ some e
        → ((c : MemoryEntity)
            → resolve_from f (some c.id) (some c) segments rows ≡ some e
            → resolve_from f (some c.id) (some c) segments (rows ++ more) ≡ some e)
        → resolve_from f parent current (segment ∷ segments) (rows ++ more) ≡ some e
    go none found h' ih = cc
    go (some c) found h' ih =
        resolve-found f parent current segment segments (rows ++ more) c
          (find_child-append f parent segment rows more c found)
        ∙ ih c h'

-- What `ensurePath` adds, and that the path then resolves to what it returns.
pub record Ensured (f : RepoFilter) (parent : Option ℕ) (current : Option MemoryEntity)
    (segments : List (List ℕ)) (s : Store) (r : Option MemoryEntity × Store) : Type 0 where
  pub more : List MemoryEntity
  pub rows : r.1.rows ≡ s.rows ++ more
  pub resolves : resolve_from f parent current segments (s.rows ++ more) ≡ r.0

ensure_step :
    (f : RepoFilter) (parent : Option ℕ) (current : Option MemoryEntity) (segment : List ℕ)
    (segments : List (List ℕ)) (s : Store) (e : MemoryEntity) (s' : Store)
    (added : List MemoryEntity)
    → s'.rows ≡ s.rows ++ added
    → find_child f parent segment (s.rows ++ added) ≡ some e
    → (r : Option MemoryEntity × Store) → Ensured f (some e.id) (some e) segments s' r
    → Ensured f parent current (segment ∷ segments) s r
ensure_step f parent current segment segments s e s' added grown found r h = record {
  more = added ++ h.more;
  rows = h.rows ∙ ap (λ l. l ++ h.more) grown ∙ append_assoc s.rows added h.more;
  resolves =
      resolve-found f parent current segment segments (s.rows ++ (added ++ h.more)) e (
        ap (find_child f parent segment) (sym (append_assoc s.rows added h.more))
        ∙ find_child-append f parent segment (s.rows ++ added) h.more e found)
      ∙ ap (resolve_from f (some e.id) (some e) segments)
          (sym (append_assoc s.rows added h.more) ∙ ap (λ l. l ++ h.more) (sym grown))
      ∙ h.resolves;
}

pub ensure_from-Ensured :
    (f : RepoFilter) (parent : Option ℕ) (current : Option MemoryEntity) (segments : List (List ℕ))
    (s : Store)
    → Ensured f parent current segments s (ensure_from f parent current segments s)
unfolding ensure_from
ensure_from-Ensured f parent current [] s = record {
  more = [];
  rows = sym (append-nil s.rows);
  resolves = unfold resolve_from in refl;
}
ensure_from-Ensured f parent current (segment ∷ segments) s =
    go (find_child f parent segment s.rows) refl
      (λ e s'. ensure_from-Ensured f (some e.id) (some e) segments s')
  where
    fresh : MemoryEntity
    fresh = create f parent segment s

    go :
        (o : Option MemoryEntity)
        → find_child f parent segment s.rows ≡ o
        → ((e : MemoryEntity) (s' : Store)
            → Ensured f
                (some e.id)
                (some e)
                segments
                s'
                (ensure_from f (some e.id) (some e) segments s'))
        → (let p : MemoryEntity × Store = elim o [
          | some e ↦ (e, s)
          | none ↦ (fresh, add_row fresh s)
        ] in
            Ensured f parent current
              (segment ∷ segments)
              s
              (ensure_from f (some (p.0.id)) (some (p.0)) segments (p.1)))
    go (some e) found ih =
        ensure_step f parent current segment segments s e s [] (sym (append-nil s.rows))
          (rw (append-nil s.rows) found) _ (ih e s)
    go none found ih =
        ensure_step f parent current segment segments s fresh (add_row fresh s) (fresh ∷ [])
          (unfold add_row in refl) (found_fresh f parent segment s found) _
          (ih fresh (add_row fresh s))

abbrev pub map_option {ℓ} : {A : Type ℓ} → (A → A) → Option A → Option A
map_option f none = none
map_option f (some a) = some (f a)

module _ (id : ℕ) (content : List ℕ) where
  set_content_id : (e : MemoryEntity) → (set_content id content e).id ≡ e.id
  unfolding set_content
  set_content_id e = ground arith

  is_child-set_content :
      (f : RepoFilter) (parent : Option ℕ) (name : List ℕ) (e : MemoryEntity)
      → is_child f parent name (set_content id content e) ≡ is_child f parent name e
  unfolding is_child set_content in_filter
  is_child-set_content f parent name e = elim (Bool-cases (e.id == id)) [
    | inl same ↦ rw same refl
    | inr other ↦ rw other refl
  ]

  find_child-set_content :
      (f : RepoFilter) (parent : Option ℕ) (name : List ℕ) (rows : List MemoryEntity)
      → find_child f parent name (map (set_content id content) rows)
        ≡ map_option (set_content id content) (find_child f parent name rows)
  unfolding find_child
  find_child-set_content f parent name [] = refl
  find_child-set_content f parent name (e ∷ rows) =
      rw (is_child-set_content f parent name e, find_child-set_content f parent name rows)
        (go (is_child f parent name e))
    where
      go :
          (b : Bool)
          → (if b
              then some (set_content id content e)
              else map_option (set_content id content) (find (is_child f parent name) rows))
            ≡ map_option
                (set_content id content)
                (if b then some e else find (is_child f parent name) rows)
      go true = refl
      go false = refl

  pub resolve_from-set_content :
      (f : RepoFilter) (parent : Option ℕ) (current : Option MemoryEntity)
      (segments : List (List ℕ)) (rows : List MemoryEntity)
      → resolve_from f parent
          (map_option (set_content id content) current)
          segments
          (map (set_content id content) rows)
        ≡ map_option (set_content id content) (resolve_from f parent current segments rows)
  unfolding resolve_from
  resolve_from-set_content f parent current [] rows = refl
  resolve_from-set_content f parent current (segment ∷ segments) rows =
      ap
        (λ o. elim o [
          | none ↦ none
          | some e ↦
              resolve_from f (some e.id) (some e) segments (map (set_content id content) rows)
        ])
        (find_child-set_content f parent segment rows)
      ∙ go (find_child f parent segment rows)
          (λ e. resolve_from-set_content f (some e.id) (some e) segments rows)
    where
      u : MemoryEntity → MemoryEntity
      u = set_content id content

      go :
          (o : Option MemoryEntity)
          → ((e : MemoryEntity)
              → resolve_from f (some e.id) (some (u e)) segments (map u rows)
                ≡ map_option u (resolve_from f (some e.id) (some e) segments rows))
          → elim (map_option u o) [
            | none ↦ none
            | some e ↦ resolve_from f (some e.id) (some e) segments (map u rows)
          ]
            ≡ map_option u (elim o [
              | none ↦ none
              | some e ↦ resolve_from f (some e.id) (some e) segments rows
            ])
      go none ih = refl
      go (some e) ih =
          ap (λ n. resolve_from f (some n) (some (u e)) segments (map u rows)) (set_content_id e)
          ∙ ih e
