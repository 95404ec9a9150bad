-- ===== src/Memory/Documents.antt =====
-- The operations of nodes/memory/memory.service.ts on the documents of a node, by path.
use agynio.Prelude.{
  ℕ, zero, suc, ◌-◌, Bool, true, false, not, ◌&&◌, Option, none, some, List, [], ◌∷◌, ◌++◌, map,
  ◌==◌, if◌then◌else◌, length, get_or,
}
use agynio.Prelude.Text.{same_text, trim, starts_with}
use agynio.Memory.Paths.{PathError, ok, refused, get_segments, normalize_path}
use agynio.Memory.Store.{
  MemoryEntity, RepoFilter, Store, resolve_path, ensure_path, update_content, entity_has_children,
  list_children, delete_subtree,
}

pub data MemoryScope : Type 0 where
  global per_thread : MemoryScope

pub data MemoryError : Type 0 where
  bad_path : PathError → MemoryError
  thread_required document_required not_found : MemoryError

-- What a call returns, with the store that it leaves, or throws.
pub data Reply {ℓ} (A : Type ℓ) : Type ℓ where
  done : A → Reply A
  failed : MemoryError → Reply A

unfoldable pub build_filter : List ℕ → MemoryScope → Option (List ℕ) → Reply RepoFilter
build_filter node_id global thread_id = done (record { node_id = node_id; thread_id = none })
build_filter node_id per_thread none = failed thread_required
build_filter node_id per_thread (some thread_id) =
    if same_text (trim thread_id) []
    then failed thread_required
    else done (record { node_id = node_id; thread_id = some (trim thread_id) })

-- The filter and the segments of a call; `normalizePath` comes second.
unfoldable pub locate :
    List ℕ → MemoryScope → Option (List ℕ) → Bool → List ℕ → Reply (RepoFilter × List (List ℕ))
unfolding build_filter
locate node_id scope thread_id allow_root path = elim (build_filter node_id scope thread_id) [
  | failed e ↦ failed e
  | done f ↦ elim (normalize_path allow_root path) [
    | refused e ↦ failed (bad_path e)
    | ok p ↦ done (f, get_segments p)
  ]
]

abbrev pub newline : ℕ
newline = 10

unfoldable pub ends_with : ℕ → List ℕ → Bool
ends_with c [] = false
ends_with c (x ∷ []) = x == c
ends_with c (x ∷ y ∷ s) = ends_with c (y ∷ s)

-- What `append` makes of the content and the text.
unfoldable pub appended : List ℕ → List ℕ → List ℕ
unfolding ends_with
appended [] text = text
appended (x ∷ base) text =
    if not (ends_with newline (x ∷ base)) && not (starts_with (newline ∷ []) text)
    then (x ∷ base) ++ newline ∷ text
    else (x ∷ base) ++ text

abbrev pub content_of : MemoryEntity → List ℕ
content_of e = get_or e.content []

-- `s.split(separator)` of a separator that is not empty; `skip` units of it are still to be passed
-- over, and `piece` is the piece that is open, in order.
unfoldable pub split_text : List ℕ → ℕ → List ℕ → List ℕ → List (List ℕ)
split_text separator skip piece [] = piece ∷ []
split_text separator (suc skip) piece (x ∷ s) = split_text separator skip piece s
split_text separator zero piece (x ∷ s) =
    let found = split_text separator (length separator - 1) [] s in
    let more = split_text separator zero (piece ++ x ∷ []) s in
    if starts_with separator (x ∷ s) then piece ∷ found else more

-- `parts.join(separator)`
unfoldable pub join_text : List ℕ → List (List ℕ) → List ℕ
join_text separator [] = []
join_text separator (part ∷ []) = part
join_text separator (part ∷ next ∷ parts) = part ++ separator ++ join_text separator (next ∷ parts)

pub record StatResult : Type 0 where
  pub found : Bool
  pub has_subdocs : Bool
  pub content_length : ℕ

abbrev pub or_not_found {ℓ} :
    {A : Type ℓ} → Option MemoryEntity → (MemoryEntity → Reply A) → Reply A
or_not_found none f = failed not_found
or_not_found (some e) f = f e

module _ (f : RepoFilter) (s : Store) where
  unfoldable pub read_at : List (List ℕ) → Reply (List ℕ)
  read_at [] = done []
  read_at (segment ∷ segments) =
      or_not_found (resolve_path f (segment ∷ segments) s) λ e. done (content_of e)

  unfoldable pub write_at : List ℕ → Option MemoryEntity × Store → Reply Store
  unfolding appended
  write_at text (none, s') = failed document_required
  write_at text (some e, s') = done (update_content e.id (appended (content_of e) text) s')

  unfoldable pub append_at : List ℕ → List (List ℕ) → Reply Store
  unfolding write_at
  append_at text [] = failed document_required
  append_at text (segment ∷ segments) = write_at text (ensure_path f (segment ∷ segments) s)

  -- The number of replaced texts, and the store.
  unfoldable pub replace_in : List ℕ → List ℕ → MemoryEntity → ℕ × Store
  unfolding split_text join_text
  replace_in old new e =
      let parts = split_text old 0 [] (content_of e) in
      if same_text old []
      then (0, s)
      else if length parts - 1 == 0
      then (0, s)
      else (length parts - 1, update_content e.id (join_text new parts) s)

  unfoldable pub update_at : List ℕ → List ℕ → List (List ℕ) → Reply (ℕ × Store)
  unfolding replace_in
  update_at old new segments =
      or_not_found (resolve_path f segments s) λ e. done (replace_in old new e)

  -- `none` as in `collect`.
  unfoldable pub delete_at : List (List ℕ) → Option (ℕ × Store)
  delete_at [] = delete_subtree f none s
  delete_at (segment ∷ segments) = elim (resolve_path f (segment ∷ segments) s) [
    | none ↦ some (0, s)
    | some e ↦ delete_subtree f (some e.id) s
  ]

  -- `byte_length` is `Buffer.byteLength`.
  unfoldable pub stat_at :
      (List ℕ → ℕ) → (List MemoryEntity → List MemoryEntity) → List (List ℕ) → StatResult
  stat_at byte_length by_name [] = record {
    found = true;
    has_subdocs = elim (list_children by_name f none s.rows) [ [] ↦ false | c ∷ cs ↦ true ];
    content_length = 0;
  }
  stat_at byte_length by_name (segment ∷ segments) = elim (resolve_path f (segment ∷ segments) s) [
    | none ↦ record { found = false; has_subdocs = false; content_length = 0 }
    | some e ↦ record {
      found = true;
      has_subdocs = entity_has_children e.id s.rows;
      content_length = elim e.content [ none ↦ 0 | some c ↦ byte_length c ];
    }
  ]

  unfoldable pub entries_of : List (MemoryEntity × Bool) → List (List ℕ × Bool)
  entries_of = map λ (c : MemoryEntity × Bool). (c.0.name, c.1)

  unfoldable pub list_at :
      (List MemoryEntity → List MemoryEntity) → List (List ℕ) → List (List ℕ × Bool)
  unfolding entries_of
  list_at by_name [] = entries_of (list_children by_name f none s.rows)
  list_at by_name (segment ∷ segments) = elim (resolve_path f (segment ∷ segments) s) [
    | none ↦ []
    | some e ↦ entries_of (list_children by_name f (some e.id) s.rows)
  ]

abbrev pub bind {ℓ κ} : {A : Type ℓ} {B : Type κ} → Reply A → (A → Reply B) → Reply B
bind (done a) f = f a
bind (failed e) f = failed e

module _ (node_id : List ℕ) (scope : MemoryScope) (thread_id : Option (List ℕ)) (path : List ℕ)
    (s : Store) where
  unfoldable pub read : Reply (List ℕ)
  unfolding locate read_at
  read = bind (locate node_id scope thread_id true path) λ at. read_at (at.0) s (at.1)

  unfoldable pub append : List ℕ → Reply Store
  unfolding locate append_at
  append text =
      bind (locate node_id scope thread_id false path) λ at. append_at (at.0) s text (at.1)

  unfoldable pub update : List ℕ → List ℕ → Reply (ℕ × Store)
  unfolding locate update_at
  update old new =
      bind (locate node_id scope thread_id false path) λ at. update_at (at.0) s old new (at.1)

  unfoldable pub delete : Reply (Option (ℕ × Store))
  unfolding locate delete_at
  delete = bind (locate node_id scope thread_id true path) λ at. done (delete_at (at.0) s (at.1))

  unfoldable pub ensure_dir : Reply Store
  unfolding locate
  ensure_dir =
      bind (locate node_id scope thread_id true path) λ at. done (ensure_path (at.0) (at.1) s).1

  unfoldable pub stat : (List ℕ → ℕ) → (List MemoryEntity → List MemoryEntity) → Reply StatResult
  unfolding locate stat_at
  stat byte_length by_name =
      bind (locate node_id scope thread_id true path)
        λ at. done (stat_at (at.0) s byte_length by_name (at.1))

  unfoldable pub list : (List MemoryEntity → List MemoryEntity) → Reply (List (List ℕ × Bool))
  unfolding locate list_at
  list by_name =
      bind (locate node_id scope thread_id true path) λ at. done (list_at (at.0) s by_name (at.1))
