-- ===== src/Memory/Joined.antt =====
-- The shape of normalized paths, and the paths that are their own normal form.
use mathlib.Core.List.{append_assoc}
use agynio.Prelude.{
  ℕ, suc, Bool, true, false, List, [], ◌∷◌, ◌++◌, ltb, ◌==◌, if◌then◌else◌, length, ◌≡◌, ◌≢◌, ◌⊎◌,
  inl, inr, refl, sym, ap, ◌∙◌, arith, All, Bool-cases, ==_iff,
}
use agynio.Prelude.Text.{same_text, same_text_iff, trim, contains}
use agynio.Memory.Paths.{
  path_required, dots_not_allowed, dollar_not_allowed, ok, refused, slash, collapse, strip_end,
  starts_with_slash, split, get_segments, is_valid_segment, check_segments, check_path, arrange,
  normalize_trimmed, normalize_path,
}

-- The path of some segments, each behind a slash.
unfoldable pub join_path : List (List ℕ) → List ℕ
join_path [] = []
join_path (segment ∷ segments) = slash ∷ segment ++ join_path segments

abbrev pub IsValid : List ℕ → Type 0
IsValid segment = is_valid_segment segment ≡ true

-- A path whose segments are valid, with neither `..` nor `$` in it.
pub record IsNormal (p : List ℕ) : Type 0 where
  pub joined : p ≡ join_path (get_segments p)
  pub some_segment : get_segments p ≢ []
  pub valid : All IsValid (get_segments p)
  pub no_dots : contains (b'.' ∷ b'.' ∷ []) p ≡ false
  pub no_dollar : contains (b'$' ∷ []) p ≡ false

join-split : (piece s : List ℕ) → join_path (split slash piece s) ≡ slash ∷ piece ++ s
unfolding join_path split
join-split piece [] = refl
join-split piece (x ∷ s) = elim (Bool-cases (x == slash)) [
  | inl same ↦ rw (same, (==_iff x slash).0 same) (ap (λ t. slash ∷ piece ++ t) (join-split [] s))
  | inr other ↦
      rw other (join-split (piece ++ x ∷ []) s ∙ ap (◌∷◌ slash) (append_assoc piece (x ∷ []) s))
]

split-nonempty : (piece s : List ℕ) → split slash piece s ≢ []
unfolding split
split-nonempty piece [] e = cc
split-nonempty piece (x ∷ s) e = elim (Bool-cases (x == slash)) [
  | inl same ↦ cc (rw same at e)
  | inr other ↦ split-nonempty (piece ++ x ∷ []) s (rw other at e)
]

check_segments-valid :
    (p q : List ℕ) (segments : List (List ℕ))
    → check_segments p segments ≡ ok q
    → (p ≡ q) × All IsValid segments
unfolding check_segments
check_segments-valid p q [] e = (ground (arith, e), tt)
check_segments-valid p q (segment ∷ segments) e = elim (Bool-cases (is_valid_segment segment)) [
  | inl valid ↦
      let rest = check_segments-valid p q segments (rw valid at e) in (rest.0, (valid, rest.1))
  | inr bad ↦ cc (rw bad at e)
]

strip_end-start :
    (c x : ℕ) (s : List ℕ)
    → (strip_end c (x ∷ s) ≡ []) ⊎ ((t : List ℕ) × (strip_end c (x ∷ s) ≡ x ∷ t))
unfolding strip_end
strip_end-start c x s = go (strip_end c s)
  where
    go :
        (rest : List ℕ)
        → (let q : List ℕ = elim rest [ [] ↦ if x == c then [] else x ∷ [] | y ∷ t ↦ x ∷ y ∷ t ] in
            (q ≡ []) ⊎ ((t : List ℕ) × (q ≡ x ∷ t)))
    go [] = elim (Bool-cases (x == c)) [ inl e ↦ inl (rw e refl) | inr e ↦ inr ([], rw e refl) ]
    go (y ∷ t) = inr (y ∷ t, refl)

prefixed-start :
    (s : List ℕ) → (t : List ℕ) × ((if starts_with_slash s then s else slash ∷ s) ≡ slash ∷ t)
prefixed-start [] = ([], refl)
prefixed-start (x ∷ s) = elim (Bool-cases (x == slash)) [
  | inl same ↦ (s, rw (same, (==_iff x slash).0 same) refl)
  | inr other ↦ (x ∷ s, rw other refl)
]

closed-start :
    (q : List ℕ)
    → (q ≡ []) ⊎ ((t : List ℕ) × (q ≡ slash ∷ t))
    → (t : List ℕ) × ((if same_text q [] then slash ∷ [] else q) ≡ slash ∷ t)
closed-start q (inl e) = ([], rw e refl)
closed-start q (inr (t, e)) = (t, rw e refl)

-- What `arrange` returns starts with a slash.
arrange-start : (s : List ℕ) → (t : List ℕ) × (arrange s ≡ slash ∷ t)
unfolding arrange collapse
arrange-start s =
    let (u, e) = prefixed-start s in
    rw e (closed-start _ (go (ltb 1 (suc (length (collapse slash slash true u)))) u))
  where
    go :
        (long : Bool) (u : List ℕ)
        → (let p = collapse slash slash false (slash ∷ u) in
            let q : List ℕ = if long then strip_end slash p else p in
            (q ≡ []) ⊎ ((t : List ℕ) × (q ≡ slash ∷ t)))
    go true u = strip_end-start slash slash (collapse slash slash true u)
    go false u = inr (collapse slash slash true u, refl)

get_segments-start :
    (t : List ℕ)
    → same_text (slash ∷ t) (slash ∷ []) ≡ false
    → (slash ∷ t ≡ join_path (get_segments (slash ∷ t))) × (get_segments (slash ∷ t) ≢ [])
unfolding get_segments
get_segments-start t h = rw h (sym (join-split [] t), split-nonempty [] t)

start_shape :
    (p t : List ℕ)
    → p ≡ slash ∷ t
    → same_text p (slash ∷ []) ≡ false
    → (p ≡ join_path (get_segments p)) × (get_segments p ≢ [])
start_shape p t start h = rw start (get_segments-start t (rw start at h))

root-allowed :
    (allow_root : Bool) (p q : List ℕ)
    → (if allow_root then ok p else refused path_required) ≡ ok q
    → (p ≡ q) × (allow_root ≡ true)
root-allowed true p q h = (ground (arith, h), refl)
root-allowed false p q h = cc

check_path-IsNormal :
    (allow_root : Bool) (p q : List ℕ)
    → ((t : List ℕ) × (p ≡ slash ∷ t))
    → check_path allow_root p ≡ ok q
    → ((q ≡ slash ∷ []) × (allow_root ≡ true)) ⊎ IsNormal q
unfolding check_path
check_path-IsNormal allow_root p q (t, start) e =
    go (same_text p (slash ∷ [])) (contains (b'.' ∷ b'.' ∷ []) p) (contains (b'$' ∷ []) p) refl refl
      refl e
  where
    go :
        (root dots dollar : Bool)
        → same_text p (slash ∷ []) ≡ root
        → contains (b'.' ∷ b'.' ∷ []) p ≡ dots
        → contains (b'$' ∷ []) p ≡ dollar
        → (if root
            then (if allow_root then ok p else refused path_required)
            else if dots
            then refused dots_not_allowed
            else if dollar
            then refused dollar_not_allowed
            else check_segments p (get_segments p))
          ≡ ok q
        → ((q ≡ slash ∷ []) × (allow_root ≡ true)) ⊎ IsNormal q
    go true dots dollar r d l h =
        let (same, allowed) = root-allowed allow_root p q h in
        inl (sym same ∙ (same_text_iff p (slash ∷ [])).0 r, allowed)
    go false true dollar r d l h = cc
    go false false true r d l h = cc
    go false false false r d l h =
        let (same, valid) = check_segments-valid p q (get_segments p) h in
        let shape = start_shape p t start r in
        let normal : IsNormal p = record {
          joined = shape.0;
          some_segment = shape.1;
          valid = valid;
          no_dots = d;
          no_dollar = l;
        } in
        inr (rw (← same) normal)

normalize_trimmed-IsNormal :
    (allow_root : Bool) (s q : List ℕ)
    → normalize_trimmed allow_root s ≡ ok q
    → ((q ≡ slash ∷ []) × (allow_root ≡ true)) ⊎ IsNormal q
unfolding normalize_trimmed
normalize_trimmed-IsNormal allow_root [] q e =
    let (same, allowed) = root-allowed allow_root (slash ∷ []) q e in inl (sym same, allowed)
normalize_trimmed-IsNormal allow_root (x ∷ s) q e =
    check_path-IsNormal allow_root _ q (arrange-start (collapse slash slash false (x ∷ s))) e

-- Whatever a path is normalized to is the root, where it is allowed, or the path of one or more
-- segments that are valid and not empty, with neither `..` nor `$` in it.
pub normalize_path-IsNormal :
    (allow_root : Bool) (raw q : List ℕ)
    → normalize_path allow_root raw ≡ ok q
    → ((q ≡ slash ∷ []) × (allow_root ≡ true)) ⊎ IsNormal q
unfolding normalize_path
normalize_path-IsNormal allow_root [] q e =
    let (same, allowed) = root-allowed allow_root (slash ∷ []) q e in inl (sym same, allowed)
normalize_path-IsNormal allow_root (x ∷ s) q e =
    normalize_trimmed-IsNormal allow_root (trim (collapse 92 slash false (x ∷ s))) q e
