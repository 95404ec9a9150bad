-- ===== src/Container/Termination/Threads.antt =====
-- Which containers the end of a thread marks.
use agynio.Prelude.{
  Assoc, refl, ℕ, String, ◌≡◌, Bool, true, false, ◌||◌, Option, List, [], ◌∷◌, ◌++◌, ◌∙◌, arith,
  has, filter, str_eq, eq_iff, Bool-cases, inl, inr,
}
use agynio.Container.{Row, Table, find_unique}
use agynio.Container.Registry.Lookup.{IsThere}
use agynio.Container.Termination.Claims.{AtMostClaimed, each-AtMost}
use agynio.Container.Termination.{
  Cached, process_each, Draws, is_open, ids_of, add_ids, pending_ids, fill_cache,
  terminate_by_thread,
}
use agynio.Container.Termination.Marks.{Marked, each-Marked, each-other}

has-append :
    (ids : List String) (id j : String) → has (ids ++ id ∷ []) j ≡ (has ids j || str_eq id j)
has-append [] id j = ground arith
has-append (x ∷ ids) id j = ground (arith, has-append ids id j)

has-add_ids :
    (more ids : List String) (j : String) → has (add_ids more ids) j ≡ (has ids j || has more j)
unfolding add_ids
has-add_ids [] ids j = ground arith
has-add_ids (id ∷ more) ids j = elim (Bool-cases (has ids id)) [
  | inl old ↦ rw old (has-add_ids more ids j ∙ ground (arith, old, eq_iff id j))
  | inr new ↦
      rw new (has-add_ids more (ids ++ id ∷ []) j ∙ ground (arith, has-append ids id j, new))
]

-- Whether Docker finds a container by the thread's label, or the registry has it open in the thread.
abbrev pub belongs : String → List String → Table → String → Bool
belongs thread discovered t j = has discovered j || has (ids_of (filter (is_open thread) t)) j

has-pending :
    (thread : String) (discovered : List String) (t : Table) (j : String)
    → has (pending_ids thread discovered t) j ≡ belongs thread discovered t j
unfolding pending_ids
has-pending thread discovered t j = ground (
  arith,
  has-add_ids discovered (add_ids (ids_of (filter (is_open thread) t)) []) j,
  has-add_ids (ids_of (filter (is_open thread) t)) [] j,
)

-- What becomes of a row: as it was if it does not belong to the thread; marked if it does, and at most
-- claimed if its update throws.
abbrev pub Left : Draws → String → ℕ → Option Row → Option Row → Bool → Bool → Type 0
Left draws id now before after true false = Marked now after
Left draws id now before after true true = AtMostClaimed (draws.candidate id) now before after
Left draws id now before after false throws = after ≡ before

-- For every thread, answers of Docker, claims and updates that throw, and registered container: if
-- Docker finds the container by the thread's label or the registry has it running or terminating in the
-- thread, and its update does not throw, it ends terminating with the reason thread_closed and due for
-- a sweep from that moment on, and its metadata has no mounts and no time of a last event; if its
-- update throws, its row is unchanged, or that of a running container with the claim of this service.
-- The row of every other container is unchanged.
pub terminate_by_thread-Left :
    (thread : String) (discovered : List String) (draws : Draws) (now : ℕ) (t : Table) (j : String)
    → str_eq j "" ≡ false
    → IsThere (find_unique j t)
    → Left draws j now
        (find_unique j t)
        (find_unique j (terminate_by_thread thread discovered draws now t))
        (belongs thread discovered t j)
        (draws.update_throws j)
unfolding terminate_by_thread
terminate_by_thread-Left thread discovered draws now t j named there =
    go (belongs thread discovered t j) (draws.update_throws j) refl refl
  where
    ids : List String
    ids = pending_ids thread discovered t

    cache : Assoc Cached
    cache = fill_cache (filter (is_open thread) t) []

    go :
        (b throws : Bool)
        → belongs thread discovered t j ≡ b
        → draws.update_throws j ≡ throws
        → Left draws j now
            (find_unique j t)
            (find_unique j (process_each draws cache now ids t))
            b
            throws
    go true false y works =
        each-Marked draws now cache ids j t works (has-pending thread discovered t j ∙ y) named
          there
    go true true y throws = each-AtMost draws now cache ids j t throws
    go false throws n e = each-other draws now cache ids j t (has-pending thread discovered t j ∙ n)
