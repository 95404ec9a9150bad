-- ===== src/Memory/Paths.antt =====
-- `normalizePath` and `getSegments` of nodes/memory/memory.service.ts.
use agynio.Prelude.{
  ℕ, Bool, true, false, ◌&&◌, ◌||◌, List, [], ◌∷◌, ◌++◌, leb, ltb, ◌==◌, if◌then◌else◌, length,
}
use agynio.Prelude.Text.{same_text, trim, contains}

pub data PathError : Type 0 where
  path_required dots_not_allowed dollar_not_allowed : PathError
  invalid_segment : List ℕ → PathError

pub data Checked {ℓ} (A : Type ℓ) : Type ℓ where
  ok : A → Checked A
  refused : PathError → Checked A

abbrev pub slash : ℕ
slash = b'/'

-- `replace(/c+/g, d)`: each run of `c` becomes one `d`; `run` says that the last unit was a `c`.
unfoldable pub collapse : ℕ → ℕ → Bool → List ℕ → List ℕ
collapse c d run [] = []
collapse c d run (x ∷ s) =
    let inside = collapse c d true s in
    let outside = collapse c d false s in
    if x == c then (if run then inside else d ∷ inside) else x ∷ outside

-- `replace(/c+$/g, '')`
unfoldable pub strip_end : ℕ → List ℕ → List ℕ
strip_end c [] = []
strip_end c (x ∷ s) = elim (strip_end c s) [
  | [] ↦ if x == c then [] else x ∷ []
  | y ∷ t ↦ x ∷ y ∷ t
]

abbrev pub starts_with_slash : List ℕ → Bool
starts_with_slash [] = false
starts_with_slash (x ∷ s) = x == slash

-- `s.split(c)`: the pieces between the `c`; `piece` is the one that is open, in order.
unfoldable pub split : ℕ → List ℕ → List ℕ → List (List ℕ)
split c piece [] = piece ∷ []
split c piece (x ∷ s) =
    let next = split c [] s in
    let same = split c (piece ++ x ∷ []) s in if x == c then piece ∷ next else same

abbrev pub tail : List ℕ → List ℕ
tail [] = []
tail (x ∷ s) = s

unfoldable pub get_segments : List ℕ → List (List ℕ)
unfolding split
get_segments p = if same_text p (slash ∷ []) then [] else split slash [] (tail p)

-- `[A-Za-z0-9_. -]`
unfoldable pub is_valid_unit : ℕ → Bool
is_valid_unit x =
    leb b'A' x && leb x b'Z'
    || leb b'a' x && leb x b'z'
    || leb b'0' x && leb x b'9'
    || x == b'_'
    || x == b'.'
    || x == b' '
    || x == b'-'

unfoldable pub all_valid : List ℕ → Bool
unfolding is_valid_unit
all_valid [] = true
all_valid (x ∷ s) = is_valid_unit x && all_valid s

-- `VALID_SEGMENT`
unfoldable pub is_valid_segment : List ℕ → Bool
unfolding all_valid
is_valid_segment [] = false
is_valid_segment (x ∷ s) = all_valid (x ∷ s)

unfoldable pub check_segments : List ℕ → List (List ℕ) → Checked (List ℕ)
unfolding is_valid_segment
check_segments p [] = ok p
check_segments p (segment ∷ segments) =
    let rest = check_segments p segments in
    if is_valid_segment segment then rest else refused (invalid_segment segment)

-- The tests on a path whose slashes are in order.
unfoldable pub check_path : Bool → List ℕ → Checked (List ℕ)
unfolding get_segments check_segments
check_path allow_root p =
    if same_text p (slash ∷ [])
    then (if allow_root then ok p else refused path_required)
    else if contains (b'.' ∷ b'.' ∷ []) p
    then refused dots_not_allowed
    else if contains (b'$' ∷ []) p
    then refused dollar_not_allowed
    else check_segments p (get_segments p)

-- From a path with no run of slashes to one that starts with a slash and ends with none.
unfoldable pub arrange : List ℕ → List ℕ
unfolding collapse strip_end
arrange s =
    let p = collapse slash slash false (if starts_with_slash s then s else slash ∷ s) in
    let q = if ltb 1 (length p) then strip_end slash p else p in
    if same_text q [] then slash ∷ [] else q

abbrev pub root_or_required : Bool → Checked (List ℕ)
root_or_required allow_root = if allow_root then ok (slash ∷ []) else refused path_required

unfoldable pub normalize_trimmed : Bool → List ℕ → Checked (List ℕ)
unfolding arrange check_path collapse
normalize_trimmed allow_root [] = root_or_required allow_root
normalize_trimmed allow_root (x ∷ s) =
    check_path allow_root (arrange (collapse slash slash false (x ∷ s)))

unfoldable pub normalize_path : Bool → List ℕ → Checked (List ℕ)
unfolding normalize_trimmed collapse
normalize_path allow_root [] = root_or_required allow_root
normalize_path allow_root (x ∷ s) =
    normalize_trimmed allow_root (trim (collapse 92 slash false (x ∷ s)))
