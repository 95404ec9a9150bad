-- ===== src/Memory/Pieces.antt =====
-- The pieces that `split` makes: the separator is in none of them.
use mathlib.Core.List.{append_assoc}
use agynio.Prelude.{
  ℕ, zero, suc, ◌-◌, false, List, [], ◌∷◌, ◌++◌, length, drop, ◌≡◌, refl, ap, ◌∙◌, arith, All,
  Bool-cases, inl, inr,
}
use agynio.Prelude.Text.{starts_with, contains}
use agynio.Memory.Documents.{split_text}

module _ (d : ℕ) (t : List ℕ) where
  abbrev separator : List ℕ
  separator = d ∷ t

  abbrev pub Lacks : List ℕ → Type 0
  Lacks piece = contains separator piece ≡ false

  -- The separator stands at no place of the piece, before the text that follows.
  Missed : List ℕ → List ℕ → Type 0
  Missed [] s = Unit
  Missed (c ∷ piece) s = (starts_with separator (c ∷ piece ++ s) ≡ false) × Missed piece s

  Missed-append :
      (piece : List ℕ) (x : ℕ) (s : List ℕ)
      → Missed piece (x ∷ s)
      → starts_with separator (x ∷ s) ≡ false
      → Missed (piece ++ x ∷ []) s
  unfolding Missed
  Missed-append [] x s h e = (e, tt)
  Missed-append (c ∷ piece) x s h e = (
    ap (λ u. starts_with separator (c ∷ u)) (append_assoc piece (x ∷ []) s) ∙ h.0,
    Missed-append piece x s h.1 e,
  )

  starts_with-longer : (u a b : List ℕ) → starts_with u (a ++ b) ≡ false → starts_with u a ≡ false
  starts_with-longer [] a b h = cc
  starts_with-longer (c ∷ u) [] b h = refl
  starts_with-longer (c ∷ u) (x ∷ a) b h = ground (arith, h, starts_with-longer u a b)

  Missed-Lacks : (piece s : List ℕ) → Missed piece s → Lacks piece
  unfolding Missed
  Missed-Lacks [] s h = refl
  Missed-Lacks (c ∷ piece) s h =
      rw (starts_with-longer separator (c ∷ piece) s h.0) (Missed-Lacks piece s h.1)

  split-Lacks :
      (skip : ℕ) (piece s : List ℕ)
      → Missed piece (drop skip s)
      → All Lacks (split_text separator skip piece s)
  unfolding split_text
  split-Lacks zero piece [] h = (Missed-Lacks piece [] h, tt)
  split-Lacks (suc skip) piece [] h = (Missed-Lacks piece [] h, tt)
  split-Lacks (suc skip) piece (x ∷ s) h = split-Lacks skip piece s h
  split-Lacks zero piece (x ∷ s) h = elim (Bool-cases (starts_with separator (x ∷ s))) [
    | inl found ↦ rw found (
      Missed-Lacks piece (x ∷ s) h,
      split-Lacks (length separator - 1) [] s (unfold Missed in tt),
    )
    | inr other ↦ rw other (split-Lacks zero (piece ++ x ∷ []) s (Missed-append piece x s h other))
  ]

  pub pieces-Lacks : (s : List ℕ) → All Lacks (split_text separator 0 [] s)
  pieces-Lacks s = split-Lacks 0 [] s (unfold Missed in tt)
