-- ===== src/Prelude/Text.antt =====
-- What the program uses of JavaScript's strings where it walks them: a text as its code points.
-- `to_upper` and `to_lower` treat the letters a to z and the letters outside ASCII whose other case
-- is an ASCII letter; every other character keeps its code, which no comparison with an ASCII word
-- can tell.
use agynio.Prelude.{inr, ◌∙◌, inl, Bool-cases, ap}
use Prim.Native.Nat.{ℕ, zero, suc, ◌+◌, ◌-◌, ◌*◌}
use Prim.Native.Char.{code}
use Prim.Native.String.{String}
use mathlib.Core.Path.{ap, ◌≡◌, refl}
use mathlib.Core.Logic.{◌↔◌}
use mathlib.Core.Bool.{Bool, true, false, ◌&&◌, ◌||◌}
use mathlib.Core.Option.{Option, none, some}
use mathlib.Core.List.{List, [], ◌∷◌, map}
use native.Mathlib.Omega.{arith}
use agynio.Prelude.Int.{ℤ, pos, negsuc}
use agynio.Prelude.Tests.{Bool-cases, leb, ◌==◌, if◌then◌else◌}

abbrev pub codes : String → List ℕ
codes String.[] = []
codes (String.◌∷◌ c s) = code c ∷ codes s

-- `===` on texts.
abbrev pub same_text : List ℕ → List ℕ → Bool
same_text [] [] = true
same_text [] (d ∷ t) = false
same_text (c ∷ s) [] = false
same_text (c ∷ s) (d ∷ t) = c == d && same_text s t

pub same_text_iff : (s t : List ℕ) → (same_text s t ≡ true) ↔ (s ≡ t)
same_text_iff [] [] = (λ _. refl, λ _. refl)
same_text_iff [] (d ∷ t) = (λ h. cc, λ h. cc)
same_text_iff (c ∷ s) [] = (λ h. cc, λ h. cc)
same_text_iff (c ∷ s) (d ∷ t) =
    (λ h. ground (arith, same_text_iff s t), λ h. ground (arith, same_text_iff s t))

-- `WhiteSpace` and `LineTerminator` of the language.
abbrev is_space : ℕ → Bool
is_space c =
    leb 9 c && leb c 13
    || c == 32
    || c == 0xa0
    || c == 0x1680
    || leb 0x2000 c && leb c 0x200a
    || c == 0x2028
    || c == 0x2029
    || c == 0x202f
    || c == 0x205f
    || c == 0x3000
    || c == 0xfeff

abbrev pub trim_start : List ℕ → List ℕ
trim_start [] = []
trim_start (c ∷ s) = let rest = trim_start s in if is_space c then rest else c ∷ s

abbrev keep_end : ℕ → List ℕ → List ℕ
keep_end c [] = if is_space c then [] else c ∷ []
keep_end c (d ∷ s) = c ∷ d ∷ s

abbrev pub trim_end : List ℕ → List ℕ
trim_end [] = []
trim_end (c ∷ s) = keep_end c (trim_end s)

abbrev pub trim : List ℕ → List ℕ
trim s = trim_end (trim_start s)

abbrev upper : ℕ → ℕ
upper c =
    if leb b'a' c && leb c b'z'
    then c - 32
    else if c == 0x131
    then b'I'
    else if c == 0x17f
    then b'S'
    else c

abbrev pub to_upper : List ℕ → List ℕ
to_upper = map upper

abbrev lower : ℕ → ℕ
lower c = if leb b'A' c && leb c b'Z' then c + 32 else if c == 0x212a then b'k' else c

abbrev pub to_lower : List ℕ → List ℕ
to_lower = map lower

abbrev digits : ℕ → List ℕ → ℕ
digits n [] = n
digits n (c ∷ s) =
    let rest = digits (n * 10 + (c - 48)) s in if leb 48 c && leb c 57 then rest else n

-- The digits in front of a text, if there is one.
abbrev leading : List ℕ → Option ℕ
leading [] = none
leading (c ∷ s) = if leb 48 c && leb c 57 then some (digits 0 (c ∷ s)) else none

abbrev negate : Option ℕ → Option ℤ
negate none = none
negate (some zero) = some (pos 0)
negate (some (suc n)) = some (negsuc n)

abbrev to_ℤ : Option ℕ → Option ℤ
to_ℤ none = none
to_ℤ (some n) = some (pos n)

abbrev signed : List ℕ → Option ℤ
signed [] = none
signed (c ∷ s) =
    if c == b'-'
    then negate (leading s)
    else if c == b'+'
    then to_ℤ (leading s)
    else to_ℤ (leading (c ∷ s))

-- `Number.parseInt(s, 10)`, `none` for `NaN`.
abbrev pub parse_int : List ℕ → Option ℤ
parse_int s = signed (trim_start s)

-- `s.slice(0, s.indexOf(d))` where `d` occurs in `s`, and all of `s` where it does not.
abbrev pub before : ℕ → List ℕ → List ℕ
before d [] = []
before d (c ∷ s) = let rest = before d s in if c == d then [] else c ∷ rest

-- `s.split(d)[1]`: what stands between the first `d` and the next, if `d` occurs.
abbrev pub between : ℕ → List ℕ → Option (List ℕ)
between d [] = none
between d (c ∷ s) = let rest = between d s in if c == d then some (before d s) else rest

abbrev pub starts_with : List ℕ → List ℕ → Bool
starts_with [] s = true
starts_with (d ∷ t) [] = false
starts_with (d ∷ t) (c ∷ s) = c == d && starts_with t s

-- `s.includes(t)`
abbrev pub contains : List ℕ → List ℕ → Bool
contains t [] = starts_with t []
contains t (c ∷ s) = starts_with t (c ∷ s) || contains t s

keep_end-trimmed : (c : ℕ) (t : List ℕ) → trim_end t ≡ t → trim_end (keep_end c t) ≡ keep_end c t
keep_end-trimmed c [] h = elim (Bool-cases (is_space c)) [
  | inl space ↦ rw space refl
  | inr other ↦ simp other
]
keep_end-trimmed c (d ∷ t) h = rw h refl

trim_end_idem : (s : List ℕ) → trim_end (trim_end s) ≡ trim_end s
trim_end_idem [] = refl
trim_end_idem (c ∷ s) = keep_end-trimmed c (trim_end s) (trim_end_idem s)

-- What starts with a character that is no space still does without the spaces at its end.
start-keep_end :
    (c : ℕ) (t : List ℕ) → is_space c ≡ false → trim_start (keep_end c t) ≡ keep_end c t
start-keep_end c [] other = simp other
start-keep_end c (d ∷ t) other = simp other

start-end-start : (s : List ℕ) → trim_start (trim_end (trim_start s)) ≡ trim_end (trim_start s)
start-end-start [] = refl
start-end-start (c ∷ s) = elim (Bool-cases (is_space c)) [
  | inl space ↦ rw space (start-end-start s)
  | inr other ↦ rw other (start-keep_end c (trim_end s) other)
]

-- Trimming leaves nothing to trim.
pub trim_idem : (s : List ℕ) → trim (trim s) ≡ trim s
trim_idem s = ap trim_end (start-end-start s) ∙ trim_end_idem (trim_start s)
