-- ===== src/Prelude/Maps.antt =====
-- JavaScript's `Map` and plain objects with text keys, as association lists in insertion order:
-- `insert` keeps the place of a key that is there and appends a new one.
use Prim.Native.String.{String}
use mathlib.Core.Path.{◌≡◌}
use mathlib.Core.Bool.{true, false}
use mathlib.Core.List.{List, [], ◌∷◌}
use mathlib.Core.Option.{Option, none, some}
use native.Mathlib.Omega.{arith}
use agynio.Prelude.Tests.{str_eq, eq_iff, if◌then◌else◌}

abbrev pub Assoc {ℓ} : Type ℓ → Type ℓ
Assoc V = List (String × V)

module _ {ℓ} {V : Type ℓ} where
  unfoldable pub lookup : String → Assoc V → Option V
  lookup key [] = none
  lookup key (entry ∷ rest) =
      let found = lookup key rest in
      elim (str_eq entry.0 key) [ true ↦ some (entry.1) | false ↦ found ]

  unfoldable pub insert : String → V → Assoc V → Assoc V
  insert key value [] = (key, value) ∷ []
  insert key value (entry ∷ rest) =
      let later = insert key value rest in
      elim (str_eq entry.0 key) [ true ↦ (key, value) ∷ rest | false ↦ entry ∷ later ]

  unfoldable pub remove : String → Assoc V → Assoc V
  remove key [] = []
  remove key (entry ∷ rest) =
      let later = remove key rest in
      elim (str_eq entry.0 key) [ true ↦ later | false ↦ entry ∷ later ]

  module _ (key other : String) where
    pub lookup-insert :
        (value : V) (entries : Assoc V)
        → lookup other (insert key value entries)
          ≡ (if str_eq key other then some value else lookup other entries)
    unfolding lookup insert
    lookup-insert value [] = ground arith
    lookup-insert value (entry ∷ rest) =
        let ih = lookup-insert value rest in
        let same = eq_iff entry.0 key in
        ground (arith, ih, same, eq_iff entry.0 other, eq_iff key other)

    pub lookup-remove :
        (entries : Assoc V)
        → lookup other (remove key entries)
          ≡ (if str_eq key other then none else lookup other entries)
    unfolding lookup remove
    lookup-remove [] = ground arith
    lookup-remove (entry ∷ rest) =
        let ih = lookup-remove rest in
        let same = eq_iff entry.0 key in
        ground (arith, ih, same, eq_iff entry.0 other, eq_iff key other)
