-- ===== src/Container/Registry/Lookup.antt =====
-- What an update does to the row of a container, and what the uniqueness of container ids gives.
use agynio.Prelude.{
  eq_iff, false, ◌∙◌, ◌∙◌, ap, ap, inr, inl, true, str_eq, Bool-cases, Bool-cases, arith, ℕ, String,
  ◌≡◌, ◌≢◌, refl, Bool, Option, none, some, [], ◌∷◌, if◌then◌else◌, All,
}
use agynio.Container.Registry.{on_existing, update_existing}
use agynio.Container.{
  eq_iff, false, true, str_eq, arith, Row, Table, update_where, update_row, find_unique,
}

-- `containerId` is unique.
abbrev pub Keyed : Table → Type 0
Keyed [] = Unit
Keyed (r ∷ rows) = All (λ (r' : Row). r'.container_id ≢ r.container_id) rows × Keyed rows

abbrev pub updated : (Row → Bool) → ℕ → (Row → Row) → Option Row → Option Row
updated p now f none = none
updated p now f (some r) = some (if p r then record (f r) { updated_at = now } else r)

-- Whatever the rows that an update rewrites, the row of a container is what the update makes of the
-- row that was there, if the update keeps container ids.
pub find_unique-update_where :
    (p : Row → Bool) (now : ℕ) (f : Row → Row) (j : String) (rows : Table)
    → ((r : Row) → (f r).container_id ≡ r.container_id)
    → find_unique j (update_where p now f rows) ≡ updated p now f (find_unique j rows)
unfolding update_where
find_unique-update_where p now f j [] keeps = refl
find_unique-update_where p now f j (r ∷ rows) keeps =
    ground (arith, find_unique-update_where p now f j rows keeps, keeps r)

-- The row that is found carries the key that was asked for.
pub find_unique-key :
    (j : String) (rows : Table) (r : Row)
    → find_unique j rows ≡ some r
    → str_eq r.container_id j ≡ true
find_unique-key j [] r e = cc
find_unique-key j (x ∷ rows) r e = elim (Bool-cases (str_eq x.container_id j)) [
  | inl at ↦ ground arith
  | inr off ↦ find_unique-key j rows r (ground arith)
]

module _ (p : Row → Bool) (now : ℕ) (f : Row → Row)
    (keeps : (r : Row) → (f r).container_id ≡ r.container_id) where
  All-update_where :
      (id : String) (rows : Table)
      → All (λ (r : Row). r.container_id ≢ id) rows
      → All (λ (r : Row). r.container_id ≢ id) (update_where p now f rows)
  unfolding update_where
  All-update_where id [] h = tt
  All-update_where id (r ∷ rows) h = elim (Bool-cases (p r)) [
    | inl hit ↦ rw hit (rw (keeps r) (h.0), All-update_where id rows h.1)
    | inr miss ↦ rw miss (h.0, All-update_where id rows h.1)
  ]

  -- An update leaves the container ids distinct.
  pub Keyed-update_where : (rows : Table) → Keyed rows → Keyed (update_where p now f rows)
  unfolding update_where
  Keyed-update_where [] k = tt
  Keyed-update_where (r ∷ rows) k = elim (Bool-cases (p r)) [
    | inl hit ↦
        rw (hit, keeps r) (All-update_where r.container_id rows k.0, Keyed-update_where rows k.1)
    | inr miss ↦ rw miss (All-update_where r.container_id rows k.0, Keyed-update_where rows k.1)
  ]

-- An update of a registered container rewrites its row, read in the same step.
pub find_unique-update_existing :
    (id : String) (now : ℕ) (f : Row → Row → Row) (t : Table) (r : Row)
    → find_unique id t ≡ some r
    → ((r r' : Row) → (f r r').container_id ≡ r'.container_id)
    → find_unique id (update_existing id now f t) ≡ some (record (f r r) { updated_at = now })
find_unique-update_existing id now f t r found keeps =
    ap (λ o. find_unique id (on_existing id now f t o)) found
    ∙ find_unique-update_where (λ (x : Row). str_eq x.container_id id) now (f r) id t (keeps r)
    ∙ ground (arith, found, find_unique-key id t r found)

-- So what holds of the new row holds of the row that is found afterwards.
pub update_existing-has :
    (P : Option Row → Type 0) (id : String) (now : ℕ) (f : Row → Row → Row) (t : Table) (r : Row)
    → find_unique id t ≡ some r
    → ((r r' : Row) → (f r r').container_id ≡ r'.container_id)
    → P (some (record (f r r) { updated_at = now }))
    → P (find_unique id (update_existing id now f t))
update_existing-has P id now f t r found keeps p =
    rw (find_unique-update_existing id now f t r found keeps) p

abbrev pub IsThere : Option Row → Type 0
IsThere none = ⊥
IsThere (some r) = Unit {0}

pub updated-IsThere :
    (p : Row → Bool) (now : ℕ) (f : Row → Row) (o : Option Row)
    → IsThere o
    → IsThere (updated p now f o)
updated-IsThere p now f none h = h
updated-IsThere p now f (some r) h = tt

pub update_where-IsThere :
    (p : Row → Bool) (now : ℕ) (f : Row → Row) (j : String) (t : Table)
    → ((r : Row) → (f r).container_id ≡ r.container_id)
    → IsThere (find_unique j t)
    → IsThere (find_unique j (update_where p now f t))
update_where-IsThere p now f j t keeps there =
    rw (find_unique-update_where p now f j t keeps)
      (updated-IsThere p now f (find_unique j t) there)

-- What holds of each new row holds of the row that an update of a registered container leaves.
pub update_row-has :
    (P : Option Row → Type 0) (id : String) (now : ℕ) (f : Row → Row) (t : Table)
    → ((r : Row) → (f r).container_id ≡ r.container_id)
    → ((r : Row) → P (some (record (f r) { updated_at = now })))
    → IsThere (find_unique id t)
    → P (find_unique id (update_row id now f t))
update_row-has P id now f t keeps new there =
    rw (find_unique-update_where (λ (x : Row). str_eq x.container_id id) now f id t keeps)
      (go (find_unique id t) refl there)
  where
    go :
        (o : Option Row)
        → find_unique id t ≡ o
        → IsThere o
        → P (updated (λ (x : Row). str_eq x.container_id id) now f o)
    go none e h = absurd h
    go (some r) e h = rw (find_unique-key id t r e) (new r)

-- An update of one container leaves the rows of the others.
pub find_unique-update_other :
    (id j : String) (p : Row → Bool) (now : ℕ) (f : Row → Row) (t : Table)
    → str_eq id j ≡ false
    → ((r : Row) → (f r).container_id ≡ r.container_id)
    → ((r : Row) → str_eq r.container_id id ≡ false → p r ≡ false)
    → find_unique j (update_where p now f t) ≡ find_unique j t
find_unique-update_other id j p now f t ne keeps only =
    find_unique-update_where p now f j t keeps ∙ go (find_unique j t) refl
  where
    go : (o : Option Row) → find_unique j t ≡ o → updated p now f o ≡ o
    go none e = refl
    go (some r) e =
        let key = find_unique-key j t r e in
        let off : str_eq r.container_id id ≡ false =
          ground (arith, key, eq_iff r.container_id j, eq_iff r.container_id id, eq_iff id j) in
        ground (arith, only r off)

pub find_unique-existing_other :
    (id j : String) (now : ℕ) (f : Row → Row → Row) (t : Table)
    → str_eq id j ≡ false
    → ((r r' : Row) → (f r r').container_id ≡ r'.container_id)
    → find_unique j (update_existing id now f t) ≡ find_unique j t
find_unique-existing_other id j now f t ne keeps = go (find_unique id t)
  where
    go : (o : Option Row) → find_unique j (on_existing id now f t o) ≡ find_unique j t
    go none = refl
    go (some r) =
        find_unique-update_other id j (λ (x : Row). str_eq x.container_id id) now (f r) t ne
          (keeps r) (λ x off. off)

pub Keyed-update_existing :
    (id : String) (now : ℕ) (f : Row → Row → Row) (t : Table)
    → ((r r' : Row) → (f r r').container_id ≡ r'.container_id)
    → Keyed t
    → Keyed (update_existing id now f t)
Keyed-update_existing id now f t keeps k = go (find_unique id t)
  where
    go : (o : Option Row) → Keyed (on_existing id now f t o)
    go none = k
    go (some r) = Keyed-update_where (λ (x : Row). str_eq x.container_id id) now (f r) (keeps r) t k
