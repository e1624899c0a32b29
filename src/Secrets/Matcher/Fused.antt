-- ===== src/Secrets/Matcher/Fused.antt =====
-- The `for` loop over the matcher as one pass over the tokens.
use spiceai.Prelude.{ℕ, zero, suc, ◌<◌, ◌≤◌, ◌≡◌, ◌≢◌, refl, none, some, List, [], ◌∷◌, arith}
use spiceai.Prelude.Lists.{length}
use spiceai.Secrets.Matcher.{
  Lexed, bad, ReplacementMatch, Stage, seek, go, stop, found, advance, next_from, next, collect,
}

unfoldable pub fused : Stage → List Lexed → List ReplacementMatch
fused st [] = []
fused st (t ∷ rest) = elim (advance st t) [
  | go st' ↦ fused st' rest
  | stop ↦ []
  | found m ↦ m ∷ fused seek rest
]

-- What is left after `next` is shorter than what was there, if a match was found.
next_from_shrinks : (st : Stage) (ts : List Lexed) → length (next_from st ts).1 ≤ length ts
unfolding next_from
next_from_shrinks st [] = omega arith
next_from_shrinks st (t ∷ rest) = grind (arith, λ (s : Stage). next_from_shrinks s rest)

next_from-some :
    (st : Stage) (ts : List Lexed) (r : ReplacementMatch)
    → (next_from st ts).0 ≡ some r
    → length (next_from st ts).1 < length ts
unfolding next_from
next_from-some st [] r e = ground arith
next_from-some st (t ∷ rest) r e = grind (arith, λ (s : Stage). next_from-some s rest r)

next_from-fused :
    (st : Stage) (ts : List Lexed)
    → fused st ts
      ≡ elim (next_from st ts).0 [ none ↦ [] | some r ↦ r ∷ fused seek (next_from st ts).1 ]
unfolding next_from fused
next_from-fused st [] = refl
next_from-fused st (t ∷ rest) = grind (arith, λ (s : Stage). next_from-fused s rest)

-- Enough fuel gives every match of the loop.
pub collect-eq-fused : (f : ℕ) (ts : List Lexed) → length ts < f → collect f ts ≡ fused seek ts
unfolding collect next
collect-eq-fused zero ts h = elim h [ ]
collect-eq-fused (suc f) ts h = grind (
  arith,
  next_from-fused seek ts,
  λ (r : ReplacementMatch). next_from-some seek ts r,
  collect-eq-fused f (next_from seek ts).1,
)

-- Once a `${` has been read, a token that the lexer refuses ends the loop, whatever comes behind.
pub fused-bad :
    (s e : ℕ) (rest : List Lexed) (st : Stage) → st ≢ seek → fused st (bad s e ∷ rest) ≡ []
unfolding fused advance
fused-bad s e rest seek h = absurd (h refl)
fused-bad s e rest _ h = refl
