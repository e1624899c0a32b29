-- ===== src/Prelude/Text.antt =====
-- Text as the list of its bytes, with the tests that the program makes on `&str`.
use Prim.Native.Nat.{ℕ, ◌+◌, ◌-◌}
use Prim.Native.Char.{code}
use Prim.Native.String.{String}
use mathlib.Core.Path.{◌≡◌, refl, ap, sym}
use mathlib.Core.Logic.{◌↔◌, inl, inr}
use mathlib.Core.Bool.{Bool, true, false, ◌&&◌}
use mathlib.Core.List.{List, [], ◌∷◌, ◌++◌}
use mathlib.Core.Option.{Option, none, some}
use native.Mathlib.Omega.{arith}
use spiceai.Prelude.Lists.{drop, length}
use spiceai.Prelude.Tests.{nat_beq, Option-cases, if◌then◌else◌}

abbrev pub Text : Type 0
Text = List ℕ

-- The bytes of an ASCII literal.
abbrev pub codes : String → Text
codes String.[] = []
codes (String.◌∷◌ c s) = code c ∷ codes s

infix 50 ◌==◌
unfoldable pub ◌==◌ : Text → Text → Bool
[] == [] = true
(x ∷ xs) == (y ∷ ys) = nat_beq x y && xs == ys
_ == _ = false

pub ==_iff : (s t : Text) → ((s == t) ≡ true) ↔ (s ≡ t)
unfolding ◌==◌
==_iff (x ∷ s) (y ∷ t) = ground (arith, ==_iff s t)
==_iff _ _ = ground arith

pub ==_refl : (s : Text) → (s == s) ≡ true
==_refl s = (==_iff s s).1 refl

pub ==_sym : (s t : Text) → (s == t) ≡ (t == s)
==_sym s t = ground (arith, ==_iff s t, ==_iff t s)

-- `strip_prefix`: the rest of the text behind a prefix that it starts with.
unfoldable pub strip_prefix : Text → Text → Option Text
strip_prefix [] s = some s
strip_prefix (x ∷ p) [] = none
strip_prefix (x ∷ p) (y ∷ s) = if nat_beq x y then strip_prefix p s else none

pub strip_prefix-append : (p s : Text) → strip_prefix p (p ++ s) ≡ some s
unfolding strip_prefix
strip_prefix-append [] s = refl
strip_prefix-append (x ∷ p) s = ground (arith, strip_prefix-append p s)

pub append-strip_prefix : (p s r : Text) → strip_prefix p s ≡ some r → s ≡ p ++ r
unfolding strip_prefix
append-strip_prefix [] s r h = ground arith
append-strip_prefix (x ∷ p) [] r h = ground arith
append-strip_prefix (x ∷ p) (y ∷ s) r h = ground (arith, append-strip_prefix p s r)

-- `split(c).next()`: the part before the first `c`, or the whole text.
unfoldable pub before : ℕ → Text → Text
before c [] = []
before c (x ∷ s) = if nat_beq x c then [] else x ∷ before c s

-- `find(c)`
unfoldable pub find_byte : ℕ → Text → Option ℕ
find_byte c [] = none
find_byte c (x ∷ s) =
    if nat_beq x c then some 0 else elim (find_byte c s) [ none ↦ none | some i ↦ some (i + 1) ]

pub find_byte-none : (c : ℕ) (s : Text) → find_byte c s ≡ none → before c s ≡ s
unfolding find_byte before
find_byte-none c [] h = refl
find_byte-none c (x ∷ s) h = ground (arith, find_byte-none c s)

pub find_byte-some :
    (c : ℕ) (s : Text) (i : ℕ) → find_byte c s ≡ some i → s ≡ before c s ++ (c ∷ drop (i + 1) s)
unfolding find_byte before
find_byte-some c [] i h = ground arith
find_byte-some c (x ∷ s) i h = ground (arith, find_byte-some c s (i - 1))

-- A head and, behind `c`, what may follow it.
abbrev pub joined : ℕ → Text → Option Text → Text
joined c p none = p
joined c p (some r) = p ++ (c ∷ r)

pub before-joined :
    (c : ℕ) (p : Text) (o : Option Text) → find_byte c p ≡ none → before c (joined c p o) ≡ p
unfolding find_byte before
before-joined c [] none h = refl
before-joined c [] (some r) h = ground arith
before-joined c (x ∷ p) none h = ground (arith, before-joined c p none)
before-joined c (x ∷ p) (some r) h = ground (arith, before-joined c p (some r))

pub find_byte-joined :
    (c : ℕ) (p r : Text) → find_byte c p ≡ none → find_byte c (p ++ (c ∷ r)) ≡ some (length p)
unfolding find_byte
find_byte-joined c [] r h = ground arith
find_byte-joined c (x ∷ p) r h = ground (arith, find_byte-joined c p r)

pub drop-joined : (c : ℕ) (p r : Text) → drop (length p + 1) (p ++ (c ∷ r)) ≡ r
drop-joined c [] r = refl
drop-joined c (x ∷ p) r = ground (arith, drop-joined c p r)

-- The text behind the first `c`: what `find(c)` and the slice from the next byte on give.
abbrev pub after : ℕ → Text → Option Text
after c s = elim (find_byte c s) [ some i ↦ some (drop (i + 1) s) | none ↦ none ]

pub joined-before-after : (c : ℕ) (s : Text) → joined c (before c s) (after c s) ≡ s
joined-before-after c s = elim (Option-cases (find_byte c s)) [
  | inl e ↦ rw (e, joined) (find_byte-none c s e)
  | inr (i, e) ↦ rw (e, joined) (sym (find_byte-some c s i e))
]

pub after-joined :
    (c : ℕ) (p : Text) (o : Option Text) → find_byte c p ≡ none → after c (joined c p o) ≡ o
after-joined c p none h = rw (h, after) refl
after-joined c p (some r) h = rw (find_byte-joined c p r h, after) (ap some (drop-joined c p r))
