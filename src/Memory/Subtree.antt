-- ===== src/Memory/Subtree.antt =====
-- `deleteSubtree` collects exactly the rows below a row, and ends.
use agynio.Prelude.{
  ℕ, zero, suc, ◌+◌, ◌-◌, filter, ◌≤◌, Bool, true, false, not, ◌&&◌, ◌||◌, Option, none, some, List,
  [], ◌∷◌, ◌==◌, if◌then◌else◌, length, any, ◌≡◌, ◌↔◌, inl, inr, refl, sym, ap, ◌∙◌, arith, All,
  Bool-cases, ==_iff,
}
use agynio.Memory.Store.{
  MemoryEntity, RepoFilter, Store, in_filter, same_parent, has_id, children_of, push_all, collect,
  delete_ids, delete_descendants, delete_below, delete_subtree,
}

module _ (nodes : List MemoryEntity) where
  -- One of the rows has an id, and another as its parent.
  abbrev pub is_edge : ℕ → ℕ → Bool
  is_edge p c = any (λ (e : MemoryEntity). same_parent e.parent_id (some p) && e.id == c) nodes

  -- The ids from which parents lead to the root.
  pub data Under (root : ℕ) : ℕ → Type 0 where
    here : Under root root
    below : (p c : ℕ) → Under root p → is_edge p c ≡ true → Under root c

has_id-children_of :
    (p c : ℕ) (nodes : List MemoryEntity) → has_id (children_of p nodes) c ≡ is_edge nodes p c
unfolding children_of
has_id-children_of p c [] = refl
has_id-children_of p c (e ∷ nodes) = ground (arith, has_id-children_of p c nodes)

has_id-push_all :
    (ns stack : List ℕ) (k : ℕ) → has_id (push_all ns stack) k ≡ (has_id ns k || has_id stack k)
has_id-push_all [] stack k = refl
has_id-push_all (n ∷ ns) stack k = ground (arith, has_id-push_all ns (n ∷ stack) k)

length-push_all : (ns stack : List ℕ) → length (push_all ns stack) ≡ length ns + length stack
length-push_all [] stack = omega arith
length-push_all (n ∷ ns) stack = omega (arith, length-push_all ns (n ∷ stack))

-- How many rows stand below none of the ids.
abbrev waits : List ℕ → Option ℕ → ℕ
waits ids none = 0
waits ids (some p) = if has_id ids p then 0 else 1

abbrev waiting : List ℕ → List MemoryEntity → ℕ
waiting ids [] = 0
waiting ids (e ∷ nodes) = waits ids e.parent_id + waiting ids nodes

waits-cons :
    (ids : List ℕ) (k : ℕ) (parent : Option ℕ)
    → has_id ids k ≡ false
    → waits (k ∷ ids) parent + (if same_parent parent (some k) then 1 else 0) ≡ waits ids parent
unfolding same_parent
waits-cons ids k none h = refl
waits-cons ids k (some p) h = elim (Bool-cases (k == p)) [
  | inl same ↦
      let absent : has_id ids p ≡ false = ap (has_id ids) (sym ((==_iff k p).0 same)) ∙ h in
      ground (arith, absent)
  | inr other ↦ ground arith
]

waiting-cons :
    (ids : List ℕ) (k : ℕ) (nodes : List MemoryEntity)
    → has_id ids k ≡ false
    → waiting (k ∷ ids) nodes + length (children_of k nodes) ≡ waiting ids nodes
unfolding children_of
waiting-cons ids k [] h = refl
waiting-cons ids k (e ∷ nodes) h =
    let one = waits-cons ids k e.parent_id h in ground (arith, one, waiting-cons ids k nodes h)

waiting-le : (ids : List ℕ) (nodes : List MemoryEntity) → waiting ids nodes ≤ length nodes
waiting-le ids [] = omega arith
waiting-le ids (e ∷ nodes) =
    let one = waits-le ids e.parent_id in omega (arith, one, waiting-le ids nodes)
  where
    waits-le : (ids' : List ℕ) (p : Option ℕ) → waits ids' p ≤ 1
    waits-le ids' none = omega arith
    waits-le ids' (some p) = ground arith

module _ (nodes : List MemoryEntity) (root : ℕ) where
  -- What a round of the loop keeps: all that was met is below the root, and what is below it is met.
  record Inv (queue ids : List ℕ) : Type 0 where
    queued : All (Under nodes root) queue
    collected : All (Under nodes root) ids
    started : (has_id queue root || has_id ids root) ≡ true
    closed :
        (p c : ℕ)
        → has_id ids p ≡ true
        → is_edge nodes p c ≡ true
        → (has_id queue c || has_id ids c) ≡ true

  All-push_all :
      (ns stack : List ℕ)
      → All (Under nodes root) ns
      → All (Under nodes root) stack
      → All (Under nodes root) (push_all ns stack)
  All-push_all [] stack h g = g
  All-push_all (n ∷ ns) stack h g = All-push_all ns (n ∷ stack) h.1 (h.0, g)

  All-ids : (P : ℕ → Type 0) (ids : List ℕ) → ((c : ℕ) → has_id ids c ≡ true → P c) → All P ids
  All-ids P [] h = tt
  All-ids P (n ∷ ids) h =
      (h n (ground (arith, ==_iff n n)), All-ids P ids λ c m. h c (ground (arith, m)))

  Inv-known :
      (current : ℕ) (queue ids : List ℕ)
      → has_id ids current ≡ true
      → Inv (current ∷ queue) ids
      → Inv queue ids
  Inv-known current queue ids known v = record {
    queued = v.queued.1;
    collected = v.collected;
    started = elim (Bool-cases (current == root)) [
      | inl same ↦
          let met : has_id ids root ≡ true =
            ap (has_id ids) (sym ((==_iff current root).0 same)) ∙ known in
          ground (arith, met)
      | inr other ↦ ground (arith, v.started)
    ];
    closed = λ p c met edge. elim (Bool-cases (current == c)) [
      | inl same ↦
          let met_c : has_id ids c ≡ true =
            ap (has_id ids) (sym ((==_iff current c).0 same)) ∙ known in
          ground (arith, met_c)
      | inr other ↦ ground (arith, v.closed p c met edge)
    ];
  }

  Inv-new :
      (current : ℕ) (queue ids : List ℕ)
      → Inv (current ∷ queue) ids
      → Inv (push_all (children_of current nodes) queue) (current ∷ ids)
  Inv-new current queue ids v = record {
    queued =
        All-push_all (children_of current nodes) queue
          (All-ids (Under nodes root) (children_of current nodes)
            λ c m. below current c v.queued.0 (sym (has_id-children_of current c nodes) ∙ m))
          v.queued.1;
    collected = (v.queued.0, v.collected);
    started = ground (arith, v.started, has_id-push_all (children_of current nodes) queue root);
    closed = λ p c met edge. elim (Bool-cases (current == p)) [
      | inl same ↦
          let child : has_id (children_of current nodes) c ≡ true =
            has_id-children_of current c nodes
            ∙ ap (λ q. is_edge nodes q c) ((==_iff current p).0 same)
            ∙ edge in
          ground (arith, child, has_id-push_all (children_of current nodes) queue c)
      | inr other ↦
          let met' : has_id ids p ≡ true = ground (arith, met, other) in
          ground
            (arith, v.closed p c met' edge, has_id-push_all (children_of current nodes) queue c)
    ];
  }

  collect-round :
      (rounds current : ℕ) (queue ids : List ℕ) (b : Bool)
      → has_id ids current ≡ b
      → collect (suc rounds) nodes (current ∷ queue) ids ≡ elim b [
        | true ↦ collect rounds nodes queue ids
        | false ↦ collect rounds nodes (push_all (children_of current nodes) queue) (current ∷ ids)
      ]
  unfolding collect
  collect-round rounds current queue ids b e =
      ap
        (λ known. elim known [
          | true ↦ collect rounds nodes queue ids
          | false ↦
              collect rounds nodes (push_all (children_of current nodes) queue) (current ∷ ids)
        ])
        e

  -- The loop ends within the rows that wait and the queue, with what is below the root.
  collect-ends :
      (rounds : ℕ) (queue ids : List ℕ)
      → length queue + waiting ids nodes ≤ rounds
      → Inv queue ids
      → (all : List ℕ) × (collect rounds nodes queue ids ≡ some all) × Inv [] all
  collect-ends zero [] ids enough v = unfold collect in (ids, refl, v)
  collect-ends (suc rounds) [] ids enough v = unfold collect in (ids, refl, v)
  collect-ends zero (current ∷ queue) ids enough v = absurd (omega (arith, enough))
  collect-ends (suc rounds) (current ∷ queue) ids enough v =
      go (has_id ids current) refl
        (λ known.
          collect-ends rounds queue ids (omega (arith, enough))
            (Inv-known current queue ids known v))
        (λ new.
          collect-ends rounds (push_all (children_of current nodes) queue) (current ∷ ids)
            (omega (
              arith,
              enough,
              length-push_all (children_of current nodes) queue,
              waiting-cons ids current nodes new,
            ))
            (Inv-new current queue ids v))
    where
      go :
          (b : Bool)
          → has_id ids current ≡ b
          → (has_id ids current ≡ true
              → (all : List ℕ) × (collect rounds nodes queue ids ≡ some all) × Inv [] all)
          → (has_id ids current ≡ false
              → (all : List ℕ) × (collect rounds nodes
                    (push_all (children_of current nodes) queue)
                    (current ∷ ids)
                  ≡ some all)
                × Inv [] all)
          → (all : List ℕ) × (collect (suc rounds) nodes (current ∷ queue) ids ≡ some all)
            × Inv [] all
      go true e known new =
          let (all, r, v') = known e in (all, collect-round rounds current queue ids true e ∙ r, v')
      go false e known new =
          let (all, r, v') = new e in (all, collect-round rounds current queue ids false e ∙ r, v')

  Under-met : (ids : List ℕ) → Inv [] ids → (c : ℕ) → Under nodes root c → has_id ids c ≡ true
  Under-met ids v c here = v.started
  Under-met ids v c (below p c' u edge) = v.closed p c' (Under-met ids v p u) edge

  met-Under :
      (ids : List ℕ) (c : ℕ) → All (Under nodes root) ids → has_id ids c ≡ true → Under nodes root c
  met-Under [] c h m = cc
  met-Under (n ∷ ids) c h m = elim (Bool-cases (n == c)) [
    | inl same ↦ rw (← (==_iff n c).0 same) h.0
    | inr other ↦ met-Under ids c h.1 (ground (arith, m, other))
  ]

  -- With one round more than there are rows, the loop of `deleteSubtree` ends, whatever the rows, and
  -- has collected exactly the ids from which parents lead to the root.
  pub collect-Under :
      (ids : List ℕ) × (collect (suc (length nodes)) nodes (root ∷ []) [] ≡ some ids)
      × ((c : ℕ) → (has_id ids c ≡ true) ↔ Under nodes root c)
  collect-Under =
      let (ids, ends, v) =
        collect-ends (suc (length nodes)) (root ∷ []) [] (omega (arith, waiting-le [] nodes))
          (record {
            queued = (here, tt);
            collected = tt;
            started = ground (arith, ==_iff root root);
            closed = λ p c met edge. cc;
          }) in
      (ids, ends, λ c. (met-Under ids c v.collected, Under-met ids v c))

-- What deleting the rows below a row does.
pub record Removes (nodes : List MemoryEntity) (id : ℕ) (s : Store) (r : ℕ × Store) : Type 0 where
  pub ids : List ℕ
  pub kept : r.1.rows ≡ filter (λ (e : MemoryEntity). not (has_id ids e.id)) s.rows
  pub exact : (c : ℕ) → (has_id ids c ≡ true) ↔ Under nodes id c
  pub count : r.0 ≡ length s.rows - length r.1.rows

-- Deleting below a row, in a filter that has rows, ends; it removes exactly the rows to which parents
-- lead from that row within the filter, itself included, and returns their number.
pub delete_subtree-Removes :
    (f : RepoFilter) (id : ℕ) (s : Store) (e : MemoryEntity) (rest : List MemoryEntity)
    → filter (in_filter f) s.rows ≡ e ∷ rest
    → (r : ℕ × Store) × (delete_subtree f (some id) s ≡ some r)
      × Removes (filter (in_filter f) s.rows) id s r
unfolding delete_subtree delete_below delete_ids
delete_subtree-Removes f id s e rest there =
    let (ids, ends, exact) = collect-Under (e ∷ rest) id in
    let s' = delete_ids ids s in
    (
      (length s.rows - length s'.rows, s'),
      ap (λ nodes. delete_below id nodes s) there ∙ ap (λ o. delete_descendants o s) ends,
      record { ids = ids; kept = refl; exact = rw there exact; count = refl },
    )
