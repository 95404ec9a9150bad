-- ===== src/Agent/Places.antt =====
-- Lists of which one place is changed or taken out.
use agynio.Prelude.{ℕ, zero, suc, ◌+◌, ◌≡◌, some, List, [], ◌∷◌, ◌++◌, arith, All, ap}
use agynio.Agent.{nth, set_nth, remove_nth}

module _ {ℓ} {A : Type ℓ} where
  some-eq : {x y : A} → some x ≡ some y → x ≡ y
  some-eq e = ground (arith, e)

  module _ (f : A → ℕ) where
    abbrev pub sum : List A → ℕ
    sum [] = 0
    sum (x ∷ xs) = f x + sum xs

    pub sum-snoc : (l : List A) (x : A) → sum (l ++ x ∷ []) ≡ sum l + f x
    sum-snoc [] x = omega arith
    sum-snoc (y ∷ l) x = omega (arith, sum-snoc l x)

    pub sum-remove_nth :
        (i : ℕ) (l : List A) (x : A) → nth i l ≡ some x → sum l ≡ sum (remove_nth i l) + f x
    sum-remove_nth i [] x e = cc
    sum-remove_nth zero (y ∷ l) x e = let same = some-eq e in omega (arith, ap f same)
    sum-remove_nth (suc i) (y ∷ l) x e = omega (arith, sum-remove_nth i l x e)

    pub sum-set_nth :
        (i : ℕ) (l : List A) (x y : A) → nth i l ≡ some x → sum l + f y ≡ sum (set_nth i y l) + f x
    sum-set_nth i [] x y e = cc
    sum-set_nth zero (z ∷ l) x y e = let same = some-eq e in omega (arith, ap f same)
    sum-set_nth (suc i) (z ∷ l) x y e = omega (arith, sum-set_nth i l x y e)

  module _ {κ} (P : A → Type κ) where
    pub All-nth : (i : ℕ) (l : List A) (x : A) → nth i l ≡ some x → All P l → P x
    All-nth i [] x e h = cc
    All-nth zero (y ∷ l) x e h = let same : y ≡ x = some-eq e in rw (← same) h.0
    All-nth (suc i) (y ∷ l) x e h = All-nth i l x e h.1

    pub All-remove_nth : (i : ℕ) (l : List A) → All P l → All P (remove_nth i l)
    All-remove_nth i [] h = tt
    All-remove_nth zero (y ∷ l) h = h.1
    All-remove_nth (suc i) (y ∷ l) h = (h.0, All-remove_nth i l h.1)

    pub All-set_nth : (i : ℕ) (l : List A) (x : A) → P x → All P l → All P (set_nth i x l)
    All-set_nth i [] x p h = tt
    All-set_nth zero (y ∷ l) x p h = (p, h.1)
    All-set_nth (suc i) (y ∷ l) x p h = (h.0, All-set_nth i l x p h.1)
