-- ===== src/Memory/Roundtrip.antt =====
-- The path of valid segments is its own normal form, from which the segments are read back.
use mathlib.Core.List.{append-nil, append_assoc}
use agynio.Prelude.{
  ℕ, Bool, true, false, List, [], ◌∷◌, ◌++◌, ltb, ◌==◌, if◌then◌else◌, length, ◌≡◌, refl, ap, ◌∙◌,
  arith, All, All-append, All-weaken,
}
use agynio.Prelude.Text.{same_text, trim, contains}
use agynio.Memory.Paths.{
  ok, slash, collapse, strip_end, split, tail, get_segments, is_valid_unit, all_valid,
  is_valid_segment, check_segments, check_path, arrange, normalize_trimmed, normalize_path,
}
use agynio.Memory.Joined.{join_path, IsValid}

abbrev Lacks : ℕ → List ℕ → Type 0
Lacks c = All λ (x : ℕ). (x == c) ≡ false

valid-lacks :
    (x : ℕ)
    → is_valid_unit x ≡ true
    → ((x == slash) ≡ false) × ((x == 92) ≡ false) × ((x == b'$') ≡ false)
unfolding is_valid_unit
valid-lacks x h = ground arith

all_valid-Lacks : (s : List ℕ) → all_valid s ≡ true → Lacks slash s × Lacks 92 s × Lacks b'$' s
unfolding all_valid
all_valid-Lacks [] h = (tt, tt, tt)
all_valid-Lacks (x ∷ s) h =
    let split_h : (is_valid_unit x ≡ true) × (all_valid s ≡ true) = ground (arith, h) in
    let (a, b, c) = valid-lacks x split_h.0 in
    let (a', b', c') = all_valid-Lacks s split_h.1 in ((a, a'), (b, b'), (c, c'))

-- A valid segment is not empty.
IsValid-shape :
    (s : List ℕ) → IsValid s → (x : ℕ) × (t : List ℕ) × (s ≡ x ∷ t) × (all_valid (x ∷ t) ≡ true)
unfolding is_valid_segment
IsValid-shape [] h = cc
IsValid-shape (x ∷ t) h = (x, t, refl, h)

IsValid-Lacks : (s : List ℕ) → IsValid s → Lacks slash s × Lacks 92 s × Lacks b'$' s
unfolding is_valid_segment
IsValid-Lacks [] h = (tt, tt, tt)
IsValid-Lacks (x ∷ s) h = all_valid-Lacks (x ∷ s) h

join-Lacks :
    (c : ℕ) (segments : List (List ℕ))
    → (slash == c) ≡ false
    → All (Lacks c) segments
    → Lacks c (join_path segments)
unfolding join_path
join-Lacks c [] h all = tt
join-Lacks c (segment ∷ segments) h all = (
  h,
  All-append (λ (x : ℕ). (x == c) ≡ false) segment (join_path segments) all.0
      (join-Lacks c segments h all.1),
)

collapse-Lacks : (c d : ℕ) (s : List ℕ) → Lacks c s → collapse c d false s ≡ s
unfolding collapse
collapse-Lacks c d [] h = refl
collapse-Lacks c d (x ∷ s) h = rw h.0 (ap (◌∷◌ x) (collapse-Lacks c d s h.1))

collapse-append :
    (s t : List ℕ)
    → Lacks slash s
    → collapse slash slash false (s ++ t) ≡ s ++ collapse slash slash false t
unfolding collapse
collapse-append [] t h = refl
collapse-append (x ∷ s) t h = rw h.0 (ap (◌∷◌ x) (collapse-append s t h.1))

collapse-segment :
    (s t : List ℕ)
    → IsValid s
    → collapse slash slash false (slash ∷ s ++ t) ≡ slash ∷ s ++ collapse slash slash false t
unfolding collapse is_valid_segment
collapse-segment [] t h = cc
collapse-segment (x ∷ s) t h =
    let lacks = (IsValid-Lacks (x ∷ s) h).0 in
    rw lacks.0 (ap (λ u. slash ∷ x ∷ u) (collapse-append s t lacks.1))

collapse-join :
    (segments : List (List ℕ))
    → All IsValid segments
    → collapse slash slash false (join_path segments) ≡ join_path segments
unfolding join_path
collapse-join [] all = unfold collapse in refl
collapse-join (s ∷ segments) all =
    collapse-segment s (join_path segments) all.0
    ∙ ap (λ u. slash ∷ s ++ u) (collapse-join segments all.1)

strip_end-Lacks : (c : ℕ) (s : List ℕ) → Lacks c s → strip_end c s ≡ s
unfolding strip_end
strip_end-Lacks c [] h = refl
strip_end-Lacks c (x ∷ s) h = rw (strip_end-Lacks c s h.1) (go s)
  where
    go : (t : List ℕ) → elim t [ [] ↦ if x == c then [] else x ∷ [] | y ∷ u ↦ x ∷ y ∷ u ] ≡ x ∷ t
    go [] = rw h.0 refl
    go (y ∷ u) = refl

strip_end-append :
    (c : ℕ) (s t : List ℕ) (y : ℕ) (u : List ℕ)
    → t ≡ y ∷ u
    → strip_end c t ≡ t
    → strip_end c (s ++ t) ≡ s ++ t
unfolding strip_end
strip_end-append c [] t y u e h = h
strip_end-append c (x ∷ s) t y u e h = rw (strip_end-append c s t y u e h, strip_end) (go s)
  where
    go :
        (r : List ℕ)
        → elim (r ++ t) [ [] ↦ if x == c then [] else x ∷ [] | z ∷ v ↦ x ∷ z ∷ v ] ≡ x ∷ r ++ t
    go [] = rw e refl
    go (z ∷ r) = refl

strip_end-join :
    (s : List ℕ) (segments : List (List ℕ))
    → All IsValid (s ∷ segments)
    → strip_end slash (join_path (s ∷ segments)) ≡ join_path (s ∷ segments)
unfolding join_path
strip_end-join s [] all =
    let (x, t, shape, units) = IsValid-shape s all.0 in
    rw (append-nil s) (
      strip_end-append slash (slash ∷ []) s x t shape
        (strip_end-Lacks slash s (IsValid-Lacks s all.0).0))
strip_end-join s (s' ∷ segments) all =
    strip_end-append slash (slash ∷ s) (join_path (s' ∷ segments)) slash (s' ++ join_path segments)
      refl (strip_end-join s' segments all.1)

split-append :
    (piece s t : List ℕ)
    → Lacks slash s
    → split slash piece (s ++ slash ∷ t) ≡ (piece ++ s) ∷ split slash [] t
unfolding split
split-append piece [] t h = rw (append-nil piece) refl
split-append piece (x ∷ s) t h =
    rw (h.0, split-append (piece ++ x ∷ []) s t h.1, append_assoc piece (x ∷ []) s) refl

split-Lacks : (piece s : List ℕ) → Lacks slash s → split slash piece s ≡ (piece ++ s) ∷ []
unfolding split
split-Lacks piece [] h = rw (append-nil piece) refl
split-Lacks piece (x ∷ s) h =
    rw (h.0, split-Lacks (piece ++ x ∷ []) s h.1, append_assoc piece (x ∷ []) s) refl

split-join :
    (s : List ℕ) (segments : List (List ℕ))
    → All IsValid (s ∷ segments)
    → split slash [] (s ++ join_path segments) ≡ s ∷ segments
unfolding join_path
split-join s [] all = rw (append-nil s) (split-Lacks [] s (IsValid-Lacks s all.0).0)
split-join s (s' ∷ segments) all =
    split-append [] s (s' ++ join_path segments) (IsValid-Lacks s all.0).0
    ∙ ap (◌∷◌ s) (split-join s' segments all.1)

contains-Lacks : (c : ℕ) (s : List ℕ) → Lacks c s → contains (c ∷ []) s ≡ false
contains-Lacks c [] h = refl
contains-Lacks c (x ∷ s) h = ground (arith, h.0, contains-Lacks c s h.1)

check_segments-all :
    (p : List ℕ) (segments : List (List ℕ))
    → All IsValid segments
    → check_segments p segments ≡ ok p
unfolding check_segments
check_segments-all p [] all = refl
check_segments-all p (s ∷ segments) all = rw all.0 (check_segments-all p segments all.1)

arrange-fixed :
    (t : List ℕ)
    → collapse slash slash false (slash ∷ t) ≡ slash ∷ t
    → strip_end slash (slash ∷ t) ≡ slash ∷ t
    → arrange (slash ∷ t) ≡ slash ∷ t
unfolding arrange
arrange-fixed t c e = ap close c ∙ go (ltb 1 (length (slash ∷ t)))
  where
    close : List ℕ → List ℕ
    close u =
        let q = if ltb 1 (length u) then strip_end slash u else u in
        if same_text q [] then slash ∷ [] else q

    go :
        (long : Bool)
        → (let q : List ℕ = if long then strip_end slash (slash ∷ t) else slash ∷ t in
            if same_text q [] then slash ∷ [] else q)
          ≡ slash ∷ t
    go true = ap (λ q. if same_text q [] then slash ∷ [] else q) e
    go false = refl

module _ (s : List ℕ) (segments : List (List ℕ)) (all : All IsValid (s ∷ segments)) where
  not-root : same_text (join_path (s ∷ segments)) (slash ∷ []) ≡ false
  unfolding join_path
  not-root = let (x, t, shape, units) = IsValid-shape s all.0 in rw shape refl

  split-tail : split slash [] (tail (join_path (s ∷ segments))) ≡ s ∷ segments
  unfolding join_path
  split-tail = split-join s segments all

  get_segments-join : get_segments (join_path (s ∷ segments)) ≡ s ∷ segments
  unfolding get_segments
  get_segments-join = rw not-root split-tail

  arrange-join : arrange (join_path (s ∷ segments)) ≡ join_path (s ∷ segments)
  unfolding join_path
  arrange-join =
      arrange-fixed (s ++ join_path segments) (collapse-join (s ∷ segments) all)
        (strip_end-join s segments all)

  Lacks-join :
      (c : ℕ)
      → (slash == c) ≡ false
      → ((t : List ℕ) → IsValid t → Lacks c t)
      → Lacks c (join_path (s ∷ segments))
  Lacks-join c h lacks =
      join-Lacks c (s ∷ segments) h (All-weaken IsValid (Lacks c) (s ∷ segments) lacks all)

  check_path-join :
      (allow_root : Bool)
      → contains (b'.' ∷ b'.' ∷ []) (join_path (s ∷ segments)) ≡ false
      → check_path allow_root (join_path (s ∷ segments)) ≡ ok (join_path (s ∷ segments))
  unfolding check_path
  check_path-join allow_root dots =
      rw
        (
          not-root,
          dots,
          contains-Lacks b'$' _ (Lacks-join b'$' refl (λ t v. (IsValid-Lacks t v).2)),
        )
        (ap (check_segments (join_path (s ∷ segments))) split-tail
          ∙ check_segments-all (join_path (s ∷ segments)) (s ∷ segments) all)

  normalize_trimmed-join :
      (allow_root : Bool)
      → contains (b'.' ∷ b'.' ∷ []) (join_path (s ∷ segments)) ≡ false
      → normalize_trimmed allow_root (join_path (s ∷ segments)) ≡ ok (join_path (s ∷ segments))
  unfolding normalize_trimmed join_path
  normalize_trimmed-join allow_root dots =
      ap (λ p. check_path allow_root (arrange p)) (collapse-join (s ∷ segments) all)
      ∙ ap (check_path allow_root) arrange-join
      ∙ check_path-join allow_root dots

  -- The path of one or more valid segments, without `..` in it and with no space at its end, is its
  -- own normal form, and its segments are read back from it.
  pub normalize_path-join :
      (allow_root : Bool)
      → contains (b'.' ∷ b'.' ∷ []) (join_path (s ∷ segments)) ≡ false
      → trim (join_path (s ∷ segments)) ≡ join_path (s ∷ segments)
      → (normalize_path allow_root (join_path (s ∷ segments)) ≡ ok (join_path (s ∷ segments)))
        × (get_segments (join_path (s ∷ segments)) ≡ s ∷ segments)
  unfolding normalize_path join_path
  normalize_path-join allow_root dots trimmed = (
    ap (λ p. normalize_trimmed allow_root (trim p))
          (collapse-Lacks 92 slash (join_path (s ∷ segments))
            (Lacks-join 92 refl (λ t v. (IsValid-Lacks t v).1)))
        ∙ ap (normalize_trimmed allow_root) trimmed
        ∙ normalize_trimmed-join allow_root dots,
    get_segments-join,
  )
