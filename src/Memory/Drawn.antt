-- ===== src/Memory/Drawn.antt =====
-- The ids of the rows, which are drawn one after another, and those of the rows that a path adds.
use agynio.Prelude.{
  ℕ, suc, ◌<◌, ◌≤◌, Bool, true, false, Option, none, some, List, [], ◌∷◌, ◌≡◌, refl, sym, ap, ◌∙◌,
  ◌⊎◌, inl, inr, arith, All, All-append, All-weaken,
}
use agynio.Memory.Store.{
  MemoryEntity, RepoFilter, Store, find_child, resolve_from, ensure_from, create, add_row,
  same_parent, is_child,
}
use agynio.Memory.Resolve.{find-All, resolve-found}

-- Ids and parents were drawn before.
abbrev pub ParentBelow : Option ℕ → ℕ → Type 0
ParentBelow none n = Unit
ParentBelow (some p) n = p < n

abbrev pub Below : ℕ → MemoryEntity → Type 0
Below n e = (e.id < n) × ParentBelow e.parent_id n

pub record IsDrawn (s : Store) : Type 0 where
  pub below : All (Below s.next_id) s.rows

ParentBelow-suc : (p : Option ℕ) (n : ℕ) → ParentBelow p n → ParentBelow p (suc n)
ParentBelow-suc none n h = tt
ParentBelow-suc (some p) n h = omega (arith, h)

abbrev NotBelow : ℕ → MemoryEntity → Type 0
NotBelow id e = same_parent e.parent_id (some id) ≡ false

NotBelow-drawn : (p : Option ℕ) (n : ℕ) → ParentBelow p n → same_parent p (some n) ≡ false
unfolding same_parent
NotBelow-drawn none n h = refl
NotBelow-drawn (some p) n h = ground arith

module _ (f : RepoFilter) where
  find_child-none :
      (id : ℕ) (name : List ℕ) (rows : List MemoryEntity)
      → All (NotBelow id) rows
      → find_child f (some id) name rows ≡ none
  unfolding find_child is_child
  find_child-none id name [] all = refl
  find_child-none id name (e ∷ rows) all = ground (arith, all.0, find_child-none id name rows all.1)

  add_row-IsDrawn :
      (parent : Option ℕ) (name : List ℕ) (s : Store)
      → IsDrawn s
      → ParentBelow parent s.next_id
      → IsDrawn (add_row (create f parent name s) s)
  unfolding add_row create
  add_row-IsDrawn parent name s d p = record {
    below =
        All-append (Below (suc s.next_id)) s.rows (create f parent name s ∷ [])
          (All-weaken (Below s.next_id) (Below (suc s.next_id)) s.rows
            (λ e b. (omega (arith, b.0), ParentBelow-suc e.parent_id s.next_id b.1)) d.below)
          ((omega arith, ParentBelow-suc parent s.next_id p), tt);
  }

  module _ (parent : Option ℕ) (current : Option MemoryEntity) (segment : List ℕ)
      (segments : List (List ℕ)) (s : Store) where
    then_ensure : Option MemoryEntity → Option MemoryEntity × Store
    then_ensure o =
        let p : MemoryEntity × Store = elim o [
          | some e ↦ (e, s)
          | none ↦ (create f parent segment s, add_row (create f parent segment s) s)
        ] in
        ensure_from f (some (p.0.id)) (some (p.0)) segments (p.1)

    ensure-found :
        (c : MemoryEntity)
        → find_child f parent segment s.rows ≡ some c
        → ensure_from f parent current (segment ∷ segments) s
          ≡ ensure_from f (some c.id) (some c) segments s
    unfolding ensure_from then_ensure
    ensure-found c found = ap then_ensure found

    ensure-created :
        (let c = create f parent segment s in
          find_child f parent segment s.rows ≡ none
          → ensure_from f parent current (segment ∷ segments) s
            ≡ ensure_from f (some c.id) (some c) segments (add_row c s))
    unfolding ensure_from then_ensure
    ensure-created found = ap then_ensure found

  -- What ensuring a path returns: a row, which if it is new has no content and an id of at least a
  -- bound; and ids that were drawn.
  pub record Draws (new : Bool) (n : ℕ) (r : Option MemoryEntity × Store) : Type 0 where
    pub row : MemoryEntity
    pub returned : r.0 ≡ some row
    pub bound : new ≡ true → n ≤ row.id
    pub blank : new ≡ true → row.content ≡ none
    pub drawn : IsDrawn r.1

  fresh-lone :
      (parent : Option ℕ) (name : List ℕ) (s : Store)
      → IsDrawn s
      → ParentBelow parent s.next_id
      → (let c = create f parent name s in All (NotBelow c.id) (add_row c s).rows)
  unfolding create add_row
  fresh-lone parent name s d below =
      All-append (NotBelow s.next_id) s.rows (create f parent name s ∷ [])
        (All-weaken (Below s.next_id) (NotBelow s.next_id) s.rows
          (λ e b. NotBelow-drawn e.parent_id s.next_id b.1) d.below)
        (NotBelow-drawn parent s.next_id below, tt)

  -- Below a row that has no rows below it, a path adds all its rows.
  ensure_from-fresh :
      (segments : List (List ℕ)) (c : MemoryEntity) (s : Store) (new : Bool) (n : ℕ)
      → IsDrawn s
      → c.id < s.next_id
      → n ≤ c.id
      → c.content ≡ none
      → All (NotBelow c.id) s.rows
      → Draws new n (ensure_from f (some c.id) (some c) segments s)
  ensure_from-fresh [] c s new n d drawn above blank lone = record {
    row = c;
    returned = unfold ensure_from in refl;
    bound = λ _. above;
    blank = λ _. blank;
    drawn = unfold ensure_from in d;
  }
  ensure_from-fresh (segment ∷ segments) c s new n d drawn above blank lone =
      let c' = create f (some c.id) segment s in
      rw
        (ensure-created (some c.id) (some c) segment segments s
          (find_child-none c.id segment s.rows lone))
        (ensure_from-fresh segments c' (add_row c' s) new n
          (add_row-IsDrawn (some c.id) segment s d drawn) (unfold create add_row in omega arith)
          (unfold create in omega (arith, above, drawn)) (unfold create in refl)
          (fresh-lone (some c.id) segment s d drawn))

  find_child-Below :
      (n : ℕ) (parent : Option ℕ) (name : List ℕ) (rows : List MemoryEntity) (c : MemoryEntity)
      → All (Below n) rows
      → find_child f parent name rows ≡ some c
      → Below n c
  unfolding find_child
  find_child-Below n parent name = find-All (is_child f parent name) (Below n)

  resolve_step-Below :
      (segments : List (List ℕ)) (segment : List ℕ) (parent : Option ℕ)
      (current : Option MemoryEntity) (n : ℕ) (rows : List MemoryEntity) (e : MemoryEntity)
      → All (Below n) rows
      → resolve_from f parent current (segment ∷ segments) rows ≡ some e
      → ((c : MemoryEntity)
          → Below n c
          → resolve_from f (some c.id) (some c) segments rows ≡ some e
          → Below n e)
      → Below n e
  unfolding resolve_from
  resolve_step-Below segments segment parent current n rows e all h rest =
      go (find_child f parent segment rows) refl h
    where
      go :
          (o : Option MemoryEntity)
          → find_child f parent segment rows ≡ o
          → elim o [ none ↦ none | some c ↦ resolve_from f (some c.id) (some c) segments rows ]
            ≡ some e
          → Below n e
      go none found g = cc
      go (some c) found g = rest c (find_child-Below n parent segment rows c all found) g

  -- What a path resolves to was drawn before.
  pub resolve_from-Below :
      (segments : List (List ℕ)) (segment : List ℕ) (parent : Option ℕ)
      (current : Option MemoryEntity) (n : ℕ) (rows : List MemoryEntity) (e : MemoryEntity)
      → All (Below n) rows
      → resolve_from f parent current (segment ∷ segments) rows ≡ some e
      → Below n e
  resolve_from-Below [] segment parent current n rows e all h =
      resolve_step-Below [] segment parent current n rows e all h
        λ c b g. let same : c ≡ e = unfold resolve_from in ground (arith, g) in rw (← same) b
  resolve_from-Below (next ∷ segments) segment parent current n rows e all h =
      resolve_step-Below (next ∷ segments) segment parent current n rows e all h
        λ c b. resolve_from-Below segments next (some c.id) (some c) n rows e all

  abbrev pub IsNew : Bool → List (List ℕ) → Option ℕ → Option MemoryEntity → Store → Type 0
  IsNew new path parent current s =
      (new ≡ false) ⊎ (resolve_from f parent current path s.rows ≡ none)

  ensure_step-Draws :
      (segments : List (List ℕ)) (segment : List ℕ) (parent : Option ℕ)
      (current : Option MemoryEntity) (s : Store) (new : Bool) (n : ℕ)
      → IsDrawn s
      → ParentBelow parent s.next_id
      → n ≤ s.next_id
      → IsNew new (segment ∷ segments) parent current s
      → ((c : MemoryEntity)
          → c.id < s.next_id
          → IsNew new segments (some c.id) (some c) s
          → Draws new n (ensure_from f (some c.id) (some c) segments s))
      → Draws new n (ensure_from f parent current (segment ∷ segments) s)
  ensure_step-Draws segments segment parent current s new n d below le asked rest =
      go (find_child f parent segment s.rows) refl
    where
      c' : MemoryEntity
      c' = create f parent segment s

      go :
          (o : Option MemoryEntity)
          → find_child f parent segment s.rows ≡ o
          → Draws new n (ensure_from f parent current (segment ∷ segments) s)
      go none found = rw (ensure-created parent current segment segments s found) (
          ensure_from-fresh segments c' (add_row c' s) new n
            (add_row-IsDrawn parent segment s d below) (unfold create add_row in omega arith)
            (unfold create in le) (unfold create in refl) (fresh-lone parent segment s d below))
      go (some c) found = rw (ensure-found parent current segment segments s c found) (
          rest c (find_child-Below s.next_id parent segment s.rows c d.below found).0 (elim asked [
            | inl z ↦ inl z
            | inr h ↦ inr (sym (resolve-found f parent current segment segments s.rows c found) ∙ h)
          ]))

  -- A path that does not resolve ends with a row of a new id.
  pub ensure_from-Draws :
      (segments : List (List ℕ)) (segment : List ℕ) (parent : Option ℕ)
      (current : Option MemoryEntity) (s : Store) (new : Bool) (n : ℕ)
      → IsDrawn s
      → ParentBelow parent s.next_id
      → n ≤ s.next_id
      → IsNew new (segment ∷ segments) parent current s
      → Draws new n (ensure_from f parent current (segment ∷ segments) s)
  ensure_from-Draws [] segment parent current s new n d below le asked =
      ensure_step-Draws [] segment parent current s new n d below le asked λ c drawn asked'.
        record {
          row = c;
          returned = unfold ensure_from in refl;
          bound = λ yes_new. unfold resolve_from in elim asked' [ inl z ↦ cc | inr h ↦ cc ];
          blank = λ yes_new. unfold resolve_from in elim asked' [ inl z ↦ cc | inr h ↦ cc ];
          drawn = unfold ensure_from in d;
        }
  ensure_from-Draws (next ∷ segments) segment parent current s new n d below le asked =
      ensure_step-Draws (next ∷ segments) segment parent current s new n d below le asked
        λ c drawn asked'.
          ensure_from-Draws segments next (some c.id) (some c) s new n d drawn le asked'
