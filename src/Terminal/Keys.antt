-- ===== src/Terminal/Keys.antt =====
-- The sessions as a `Map`: no call stores two under one id.
use agynio.Prelude.{
  String, ◌≡◌, refl, Bool, Option, none, some, [], ◌∷◌, arith, eq_iff, if◌then◌else◌, filter,
  lookup, insert, remove, lookup-insert, lookup-remove, Bool-cases, inl, inr,
}
use agynio.Terminal.{TerminalSessionRecord, Sessions}

-- Each id stands for one session, as in a `Map`.
abbrev pub KeysOnce : Sessions → Type 0
KeysOnce [] = Unit
KeysOnce (entry ∷ rest) = (lookup entry.0 rest ≡ none) × KeysOnce rest

module _ (p : TerminalSessionRecord → Bool) where
  lookup-filter-none :
      (id : String) (rest : Sessions)
      → lookup id rest ≡ none
      → lookup id (filter (λ entry. p (entry.1)) rest) ≡ none
  unfolding lookup
  lookup-filter-none id [] h = refl
  lookup-filter-none id (entry ∷ rest) h = ground (arith, lookup-filter-none id rest)

  abbrev pub passing : Option TerminalSessionRecord → Option TerminalSessionRecord
  passing none = none
  passing (some r) = if p r then some r else none

  pub lookup-filter :
      (id : String) (s : Sessions)
      → KeysOnce s
      → lookup id (filter (λ entry. p (entry.1)) s) ≡ passing (lookup id s)
  unfolding lookup
  lookup-filter id [] k = refl
  lookup-filter id (entry ∷ rest) k =
      ground (arith, lookup-filter id rest k.1, lookup-filter-none id rest, k.0, eq_iff entry.0 id)

  pub KeysOnce-filter : (s : Sessions) → KeysOnce s → KeysOnce (filter (λ entry. p (entry.1)) s)
  KeysOnce-filter [] k = tt
  KeysOnce-filter (entry ∷ rest) k = elim (Bool-cases (p (entry.1))) [
    | inl y ↦ rw y (lookup-filter-none entry.0 rest k.0, KeysOnce-filter rest k.1)
    | inr n ↦ rw n (KeysOnce-filter rest k.1)
  ]

pub KeysOnce-insert :
    (id : String) (r : TerminalSessionRecord) (s : Sessions) → KeysOnce s → KeysOnce (insert id r s)
unfolding lookup insert
KeysOnce-insert id r [] k = (refl, tt)
KeysOnce-insert id r (entry ∷ rest) k = ground (
  arith,
  KeysOnce-insert id r rest k.1,
  lookup-insert id entry.0 r rest,
  k.0,
  eq_iff entry.0 id,
  eq_iff id entry.0,
)

pub KeysOnce-remove : (id : String) (s : Sessions) → KeysOnce s → KeysOnce (remove id s)
unfolding lookup remove
KeysOnce-remove id [] k = tt
KeysOnce-remove id (entry ∷ rest) k =
    ground (arith, KeysOnce-remove id rest k.1, lookup-remove id entry.0 rest, k.0)
