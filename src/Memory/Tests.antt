-- ===== src/Memory/Tests.antt =====
-- Documents of one node.
use agynio.Prelude.{
  ◌++◌, ◌++◌, ℕ, Bool, true, false, Option, none, some, List, [], ◌∷◌, ◌≡◌, ◌⊎◌, refl, arith,
  filter,
}
use agynio.Prelude.Text.{codes}
use agynio.Memory.Paths.{
  ok, refused, dots_not_allowed, slash, normalize_path, get_segments, is_valid_segment,
}
use agynio.Memory.Joined.{IsNormal, join_path, normalize_path-IsNormal}
use agynio.Memory.Roundtrip.{normalize_path-join}
use agynio.Memory.Store.{
  MemoryEntity, RepoFilter, Store, in_filter, delete_subtree, resolve_path, find_child,
}
use agynio.Memory.Documents.{done, failed, global, not_found, append_at, update_at, read, append}
use agynio.Memory.Drawn.{IsDrawn}
use agynio.Memory.Service.{append-read}
use agynio.Memory.Appended.{line_break_between, Appends, append_at-Appends}
use agynio.Memory.Subtree.{Removes, delete_subtree-Removes}
use agynio.Memory.Replaced.{Replaces, update_at-Replaces}

abbrev row : ℕ → Option ℕ → List ℕ → Option (List ℕ) → MemoryEntity
row id parent name content = record {
  id = id;
  node_id = codes "n";
  thread_id = none;
  parent_id = parent;
  name = name;
  content = content;
}

abbrev of_node : RepoFilter
of_node = record { node_id = codes "n"; thread_id = none }

-- /a/b with a text, and /c.
abbrev three : Store
three = record {
  rows =
      row 0 none (codes "a") none
      ∷ row 1 (some 0) (codes "b") (some (codes "x, y"))
      ∷ row 2 none (codes "c") none
      ∷ [];
  next_id = 3;
}

-- The same with more text.
abbrev more_text : Store
more_text = record {
  rows =
      row 0 none (codes "a") none
      ∷ row 1 (some 0) (codes "b") (some (codes "x, y\nz"))
      ∷ row 2 none (codes "c") none
      ∷ [];
  next_id = 3;
}

appends : append (codes "n") global none (codes " a\\b/") three (codes "z") ≡ done more_text
unfolding append normalize_path agynio.Memory.Store.ensure_path agynio.Memory.Store.update_content
    find_child
appends = refl

tidied : normalize_path false (codes " a\\b//c/ ") ≡ ok (codes "/a/b/c")
unfolding normalize_path
tidied = refl

refuses_dots : normalize_path true (codes "/a/../b") ≡ refused dots_not_allowed
unfolding normalize_path
refuses_dots = refl

-- The path below keeps its space: `/d ` names no such document.
keeps_space : normalize_path false (codes "/d /") ≡ ok (codes "/d ")
unfolding normalize_path
keeps_space = refl

drops_space : normalize_path false (codes "/d ") ≡ ok (codes "/d")
unfolding normalize_path
drops_space = refl

normalize_path-IsNormal_example :
    ((codes "/a/b/c" ≡ slash ∷ []) × (◌≡◌ {A = Bool} false true)) ⊎ IsNormal (codes "/a/b/c")
normalize_path-IsNormal_example =
    normalize_path-IsNormal false (codes " a\\b//c/ ") (codes "/a/b/c") tidied

normalize_path-join_example :
    (normalize_path true (join_path (codes "a" ∷ codes "b" ∷ []))
      ≡ ok (join_path (codes "a" ∷ codes "b" ∷ [])))
    × (get_segments (join_path (codes "a" ∷ codes "b" ∷ [])) ≡ codes "a" ∷ codes "b" ∷ [])
unfolding join_path is_valid_segment
normalize_path-join_example =
    normalize_path-join (codes "a") (codes "b" ∷ []) (refl, (refl, tt)) true refl refl

append_at-Appends_example :
    (s' : Store) × (append_at of_node three (codes "z") (codes "a" ∷ codes "b" ∷ []) ≡ done s')
    × Appends of_node
        (codes "a")
        (codes "b" ∷ [])
        three
        (codes "z")
        (resolve_path of_node (codes "a" ∷ codes "b" ∷ []) three)
        s'
append_at-Appends_example =
    append_at-Appends of_node (codes "a") (codes "b" ∷ []) three (codes "z")
      (record { below = omega arith })

delete_subtree-Removes_example :
    (r : ℕ × Store) × (delete_subtree of_node (some 0) three ≡ some r)
    × Removes (filter (in_filter of_node) three.rows) 0 three r
unfolding in_filter
delete_subtree-Removes_example =
    delete_subtree-Removes of_node 0 three (row 0 none (codes "a") none)
      (row 1 (some 0) (codes "b") (some (codes "x, y")) ∷ row 2 none (codes "c") none ∷ []) refl

update_at-Replaces_example :
    (r : ℕ × Store) × (update_at of_node three (codes ", ") (codes "-") (codes "a" ∷ codes "b" ∷ [])
      ≡ done r)
    × Replaces of_node
        (codes "b" ∷ [])
        (codes "a")
        three
        b','
        (codes " ")
        (codes "-")
        (row 1 (some 0) (codes "b") (some (codes "x, y")))
        r
unfolding resolve_path find_child
update_at-Replaces_example =
    update_at-Replaces of_node (codes "b" ∷ []) (codes "a") three b',' (codes " ") (codes "-")
      (row 1 (some 0) (codes "b") (some (codes "x, y"))) refl

append-read_example :
    (old : List ℕ) × ((read (codes "n") global none (codes " a\\b/") three ≡ done old)
      ⊎ ((read (codes "n") global none (codes " a\\b/") three ≡ failed not_found) × (old ≡ [])))
    × (read (codes "n") global none (codes " a\\b/") more_text
        ≡ done (old ++ line_break_between old (codes "z") ++ codes "z"))
    × IsDrawn more_text
append-read_example =
    append-read (codes "n") global none (codes " a\\b/") three more_text (codes "z")
      (record { below = omega arith }) appends
