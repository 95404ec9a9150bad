-- ===== src/Container/Registry/Expired.antt =====
-- The rows that a sweep asks for: each is in the table, under an id that no other one has.
use agynio.Prelude.{
  ℕ, String, ◌≡◌, ◌≢◌, refl, Bool, true, false, ◌&&◌, some, List, [], ◌∷◌, ◌++◌, ◌∙◌, arith, eq_iff,
  eq_refl, filter, All, ◌⊎◌, inl, inr, Bool-cases, sym, ap, All-append, All-weaken,
}
use agynio.Container.{Row, Table, terminating, find_unique}
use agynio.Container.Registry.{is_running, is_terminating, is_expired, get_expired}
use agynio.Container.Registry.Lookup.{Keyed}

-- A row of the table that passes a test.
abbrev pub Chosen : (Row → Bool) → Table → Row → Type 0
Chosen p t d = (find_unique d.container_id t ≡ some d) × (p d ≡ true)

-- A list of chosen rows of a table's tail is one of the whole table's.
Chosen-tail :
    (p : Row → Bool) (r : Row) (t : Table) (docs : List Row)
    → All (λ (d : Row). r.container_id ≢ d.container_id) docs
    → All (Chosen p t) docs
    → All (Chosen p (r ∷ t)) docs
Chosen-tail p r t [] ne h = tt
Chosen-tail p r t (d ∷ docs) ne h = (
  (ground (arith, ne.0, h.0.0, eq_iff r.container_id d.container_id), h.0.1),
  Chosen-tail p r t docs ne.1 h.1,
)

filter-other :
    (p : Row → Bool) (id : String) (t : Table)
    → All (λ (d : Row). d.container_id ≢ id) t
    → All (λ (d : Row). d.container_id ≢ id) (filter p t)
filter-other p id [] h = tt
filter-other p id (r ∷ t) h = elim (Bool-cases (p r)) [
  | inl y ↦ rw y (h.0, filter-other p id t h.1)
  | inr n ↦ rw n (filter-other p id t h.1)
]

flip :
    (id : String) (docs : List Row)
    → All (λ (d : Row). d.container_id ≢ id) docs
    → All (λ (d : Row). id ≢ d.container_id) docs
flip id [] h = tt
flip id (d ∷ docs) h = ((λ e. h.0 (sym e)), flip id docs h.1)

filter-Chosen : (p : Row → Bool) (t : Table) → Keyed t → All (Chosen p t) (filter p t)
filter-Chosen p [] k = tt
filter-Chosen p (r ∷ t) k =
    let later =
      Chosen-tail p r t (filter p t)
        (flip r.container_id (filter p t) (filter-other p r.container_id t k.0))
        (filter-Chosen p t k.1) in
    elim (Bool-cases (p r)) [
      | inl y ↦ rw y ((rw (eq_refl r.container_id) refl, y), later)
      | inr n ↦ rw n later
    ]

filter-Keyed : (p : Row → Bool) (t : Table) → Keyed t → Keyed (filter p t)
filter-Keyed p [] k = tt
filter-Keyed p (r ∷ t) k = elim (Bool-cases (p r)) [
  | inl y ↦ rw y (filter-other p r.container_id t k.0, filter-Keyed p t k.1)
  | inr n ↦ rw n (filter-Keyed p t k.1)
]

module _ (p q : Row → Bool) (t : Table) (apart : (r : Row) → p r ≡ true → q r ≡ false) where
  same-row : (x y : Row) → Chosen p t x → Chosen q t y → y.container_id ≢ x.container_id
  same-row x y hx hy e =
      let same : some x ≡ some y = sym hx.0 ∙ ap (λ j. find_unique j t) (sym e) ∙ hy.0 in
      ground (arith, same, apart x hx.1, hy.1)

  append-Keyed :
      (xs ys : List Row)
      → Keyed xs
      → Keyed ys
      → All (Chosen p t) xs
      → All (Chosen q t) ys
      → Keyed (xs ++ ys)
  append-Keyed [] ys kx ky hx hy = ky
  append-Keyed (x ∷ xs) ys kx ky hx hy = (
    All-append _ xs ys kx.0 (All-weaken _ _ ys (λ y h. same-row x y hx.0 h) hy),
    append-Keyed xs ys kx.1 ky hx.1 hy,
  )

abbrev pub IsActive : Row → Type 0
IsActive d = (is_running d ≡ true) ⊎ (d.status ≡ terminating)

is_terminating-status : (r : Row) → is_terminating r ≡ true → r.status ≡ terminating
is_terminating-status r h = ground arith

abbrev runs_out : ℕ → Row → Bool
runs_out now r = is_running r && is_expired now r

abbrev retries : ℕ → Row → Bool
retries now r = is_terminating r && is_expired now r

pub get_expired-Keyed : (now : ℕ) (t : Table) → Keyed t → Keyed (get_expired now t)
unfolding get_expired
get_expired-Keyed now t k =
    append-Keyed (runs_out now) (retries now) t (λ r h. ground arith) (filter (runs_out now) t)
      (filter (retries now) t) (filter-Keyed (runs_out now) t k) (filter-Keyed (retries now) t k)
      (filter-Chosen (runs_out now) t k) (filter-Chosen (retries now) t k)

pub get_expired-found :
    (now : ℕ) (t : Table)
    → Keyed t
    → All (λ (d : Row). (find_unique d.container_id t ≡ some d) × IsActive d) (get_expired now t)
unfolding get_expired
get_expired-found now t k =
    All-append _ (filter (runs_out now) t) (filter (retries now) t)
      (All-weaken _ _ (filter (runs_out now) t) (λ x h. (h.0, inl (ground (arith, h.1))))
        (filter-Chosen (runs_out now) t k))
      (All-weaken _ _ (filter (retries now) t)
        (λ x h. (h.0, inr (is_terminating-status x (ground (arith, h.1)))))
        (filter-Chosen (retries now) t k))
