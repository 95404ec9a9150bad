-- ===== src/Memory/Store.antt =====
-- nodes/memory/memory.repository.ts: the table of documents, each below its parent.
use agynio.Prelude.{
  ℕ, zero, suc, ◌-◌, Bool, true, false, not, ◌&&◌, ◌||◌, Option, none, some, List, [], ◌∷◌, ◌++◌,
  map, ◌==◌, if◌then◌else◌, length, find, filter, any,
}
use agynio.Prelude.Text.{same_text}

pub record MemoryEntity : Type 0 where
  pub id : ℕ
  pub node_id : List ℕ
  pub thread_id : Option (List ℕ)
  pub parent_id : Option ℕ
  pub name : List ℕ
  pub content : Option (List ℕ)

pub record RepoFilter : Type 0 where
  pub node_id : List ℕ
  pub thread_id : Option (List ℕ)

pub record Store : Type 0 where
  pub rows : List MemoryEntity
  pub next_id : ℕ

unfoldable pub same_thread : Option (List ℕ) → Option (List ℕ) → Bool
same_thread none none = true
same_thread (some s) (some t) = same_text s t
same_thread _ _ = false

unfoldable pub same_parent : Option ℕ → Option ℕ → Bool
same_parent none none = true
same_parent (some m) (some n) = m == n
same_parent _ _ = false

unfoldable pub in_filter : RepoFilter → MemoryEntity → Bool
unfolding same_thread
in_filter f e = same_text e.node_id f.node_id && same_thread e.thread_id f.thread_id

unfoldable pub is_child : RepoFilter → Option ℕ → List ℕ → MemoryEntity → Bool
unfolding in_filter same_parent
is_child f parent name e = in_filter f e && same_parent e.parent_id parent && same_text e.name name

unfoldable pub find_child : RepoFilter → Option ℕ → List ℕ → List MemoryEntity → Option MemoryEntity
unfolding is_child
find_child f parent name rows = find (is_child f parent name) rows

-- The loop of `traverse`: `current` is the row of the segments so far.
unfoldable pub resolve_from :
    RepoFilter
    → Option ℕ
    → Option MemoryEntity
    → List (List ℕ)
    → List MemoryEntity
    → Option MemoryEntity
resolve_from f parent current [] rows = current
resolve_from f parent current (segment ∷ segments) rows = elim (find_child f parent segment rows) [
  | none ↦ none
  | some e ↦ resolve_from f (some e.id) (some e) segments rows
]

unfoldable pub resolve_path : RepoFilter → List (List ℕ) → Store → Option MemoryEntity
unfolding resolve_from
resolve_path f segments s = resolve_from f none none segments s.rows

unfoldable pub create : RepoFilter → Option ℕ → List ℕ → Store → MemoryEntity
create f parent name s = record {
  id = s.next_id;
  node_id = f.node_id;
  thread_id = f.thread_id;
  parent_id = parent;
  name = name;
  content = none;
}

unfoldable pub add_row : MemoryEntity → Store → Store
add_row e s = record { rows = s.rows ++ e ∷ []; next_id = suc s.next_id }

unfoldable pub find_or_create : RepoFilter → Option ℕ → List ℕ → Store → MemoryEntity × Store
unfolding create add_row
find_or_create f parent name s = elim (find_child f parent name s.rows) [
  | some e ↦ (e, s)
  | none ↦ (create f parent name s, add_row (create f parent name s) s)
]

-- The loop of `traverse` in its transaction, which creates what is missing.
unfoldable pub ensure_from :
    RepoFilter
    → Option ℕ
    → Option MemoryEntity
    → List (List ℕ)
    → Store
    → Option MemoryEntity × Store
unfolding find_or_create
ensure_from f parent current [] s = (current, s)
ensure_from f parent current (segment ∷ segments) s =
    let (e, s') = find_or_create f parent segment s in
    ensure_from f (some e.id) (some e) segments s'

unfoldable pub ensure_path : RepoFilter → List (List ℕ) → Store → Option MemoryEntity × Store
unfolding ensure_from
ensure_path f segments s = ensure_from f none none segments s

unfoldable pub set_content : ℕ → List ℕ → MemoryEntity → MemoryEntity
set_content id content e = if e.id == id then record e { content = some content } else e

unfoldable pub update_content : ℕ → List ℕ → Store → Store
unfolding set_content
update_content id content s = record s { rows = map (set_content id content) s.rows }

unfoldable pub entity_has_children : ℕ → List MemoryEntity → Bool
unfolding same_parent
entity_has_children id rows = any (λ (e : MemoryEntity). same_parent e.parent_id (some id)) rows

-- The database orders the rows by name; `by_name` is that order.
unfoldable pub list_children :
    (List MemoryEntity → List MemoryEntity)
    → RepoFilter
    → Option ℕ
    → List MemoryEntity
    → List (MemoryEntity × Bool)
unfolding in_filter same_parent entity_has_children
list_children by_name f parent rows =
    map (λ (e : MemoryEntity). (e, entity_has_children e.id rows))
      (by_name
        (filter (λ (e : MemoryEntity). in_filter f e && same_parent e.parent_id parent) rows))

-- `includes` of a set of ids.
abbrev pub has_id : List ℕ → ℕ → Bool
has_id [] n = false
has_id (m ∷ ms) n = m == n || has_id ms n

-- `childrenByParent[id]`
unfoldable pub children_of : ℕ → List MemoryEntity → List ℕ
unfolding same_parent
children_of id [] = []
children_of id (e ∷ rows) =
    let rest = children_of id rows in
    if same_parent e.parent_id (some id) then e.id ∷ rest else rest

abbrev pub push_all : List ℕ → List ℕ → List ℕ
push_all [] stack = stack
push_all (n ∷ ns) stack = push_all ns (n ∷ stack)

-- The loop of `deleteSubtree`; the end of the queue, where it pushes and pops, is the head here.
-- `none` when the rounds that are allowed do not do.
unfoldable pub collect : ℕ → List MemoryEntity → List ℕ → List ℕ → Option (List ℕ)
collect rounds nodes [] descendants = some descendants
collect zero nodes (current ∷ queue) descendants = none
collect (suc rounds) nodes (current ∷ queue) descendants = elim (has_id descendants current) [
  | true ↦ collect rounds nodes queue descendants
  | false ↦
      collect rounds nodes (push_all (children_of current nodes) queue) (current ∷ descendants)
]

-- The schema deletes children with their parent. They have its filter, as `create` gives it to them, so
-- that the ids that `delete_subtree` collects are all there is to delete.
unfoldable pub delete_ids : List ℕ → Store → Store
delete_ids ids s = record s { rows = filter (λ (e : MemoryEntity). not (has_id ids e.id)) s.rows }

abbrev pub delete_descendants : Option (List ℕ) → Store → Option (ℕ × Store)
delete_descendants none s = none
delete_descendants (some ids) s =
    let s' = delete_ids ids s in some (length s.rows - length s'.rows, s')

unfoldable pub delete_below : ℕ → List MemoryEntity → Store → Option (ℕ × Store)
unfolding collect delete_ids
delete_below id [] s = some (0, s)
delete_below id (e ∷ nodes) s =
    delete_descendants (collect (suc (length (e ∷ nodes))) (e ∷ nodes) (id ∷ []) []) s

unfoldable pub delete_all : RepoFilter → Store → ℕ × Store
unfolding in_filter
delete_all f s =
    let s' = record s { rows = filter (λ (e : MemoryEntity). not (in_filter f e)) s.rows } in
    (length s.rows - length s'.rows, s')

-- The count of removed rows, and the store; `none` as in `collect`.
unfoldable pub delete_subtree : RepoFilter → Option ℕ → Store → Option (ℕ × Store)
unfolding delete_all delete_below in_filter
delete_subtree f none s = some (delete_all f s)
delete_subtree f (some id) s = delete_below id (filter (in_filter f) s.rows) s
