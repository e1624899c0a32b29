-- ===== src/Secrets/Matcher/Spans.antt =====
-- The spans of the matches, for a lexer that reports its tokens from left to right.
use spiceai.Prelude.{ℕ, ◌≤◌, List, [], ◌∷◌, arith}
use spiceai.Secrets.Matcher.{
  SecretReplacementToken, Lexed, token, bad, ReplacementMatch, Stage, seek, want_store, want_colon,
  want_key, want_end, advance,
}
use spiceai.Secrets.Matcher.Fused.{fused}

-- The spans of the tokens follow one another from `lo` on, and end at `n` at the latest.
abbrev pub Ordered : ℕ → ℕ → List Lexed → Type 0
Ordered lo n [] = lo ≤ n
Ordered lo n (token _ s e ∷ ts) = (lo ≤ s) × (s ≤ e) × Ordered e n ts
Ordered lo n (bad s e ∷ ts) = (lo ≤ s) × (s ≤ e) × Ordered e n ts

abbrev pub OrderedMatches : ℕ → ℕ → List ReplacementMatch → Type 0
OrderedMatches lo n [] = lo ≤ n
OrderedMatches lo n (m ∷ ms) =
    (lo ≤ m.span_start) × (m.span_start ≤ m.span_end) × OrderedMatches m.span_end n ms

-- The `${` that a stage remembers lies between `lo` and the place that the lexer has reached.
abbrev pub Between : ℕ → ℕ → Stage → Type 0
Between lo at seek = lo ≤ at
Between lo at (want_store st) = (lo ≤ st) × (st ≤ at)
Between lo at (want_colon st _) = (lo ≤ st) × (st ≤ at)
Between lo at (want_key st _) = (lo ≤ st) × (st ≤ at)
Between lo at (want_end st _ _) = (lo ≤ st) × (st ≤ at)

Ordered-le : (lo n : ℕ) (ts : List Lexed) → Ordered lo n ts → lo ≤ n
Ordered-le lo n [] h = h
Ordered-le lo n (token _ s e ∷ ts) h = omega (arith, Ordered-le e n ts h.2)
Ordered-le lo n (bad s e ∷ ts) h = omega (arith, Ordered-le e n ts h.2)

-- For tokens that follow one another in the text, the matches follow one another in it too, none
-- overlaps another, and all lie within it.
pub fused-Ordered :
    (ts : List Lexed) (st : Stage) (lo at n : ℕ)
    → Between lo at st
    → Ordered at n ts
    → OrderedMatches lo n (fused st ts)
unfolding fused advance
fused-Ordered [] seek lo at n b o = omega arith
fused-Ordered [] _ lo at n b o = omega arith
fused-Ordered (bad s e ∷ ts) seek lo at n b o = fused-Ordered ts seek lo e n (omega arith) o.2
fused-Ordered (bad s e ∷ ts) _ lo at n b o = omega (arith, Ordered-le e n ts o.2)
fused-Ordered (token SecretReplacementToken.start s e ∷ ts) seek lo at n b o =
    fused-Ordered ts (want_store s) lo e n (omega arith) o.2
fused-Ordered (token (SecretReplacementToken.identifier i) s e ∷ ts) (want_store st) lo at n b o =
    fused-Ordered ts (want_colon st i) lo e n (omega arith) o.2
fused-Ordered (token SecretReplacementToken.colon s e ∷ ts) (want_colon st i) lo at n b o =
    fused-Ordered ts (want_key st i) lo e n (omega arith) o.2
fused-Ordered (token (SecretReplacementToken.identifier k) s e ∷ ts) (want_key st i) lo at n b o =
    fused-Ordered ts (want_end st i k) lo e n (omega arith) o.2
fused-Ordered (token SecretReplacementToken.finish s e ∷ ts) (want_end st i k) lo at n b o =
    (b.0, omega arith, fused-Ordered ts seek e e n (omega arith) o.2)
fused-Ordered (token _ s e ∷ ts) _ lo at n b o = fused-Ordered ts seek lo e n (omega arith) o.2

-- The spans of the tokens begin and end at places of a kind.
abbrev pub SpansAt : (ℕ → Type 0) → List Lexed → Type 0
SpansAt P [] = Unit
SpansAt P (token _ s e ∷ ts) = P s × P e × SpansAt P ts
SpansAt P (bad s e ∷ ts) = P s × P e × SpansAt P ts

abbrev pub MatchesAt : (ℕ → Type 0) → List ReplacementMatch → Type 0
MatchesAt P [] = Unit
MatchesAt P (m ∷ ms) = P m.span_start × P m.span_end × MatchesAt P ms

-- So does the `${` that a stage remembers.
abbrev pub Remembers : (ℕ → Type 0) → Stage → Type 0
Remembers P seek = Unit
Remembers P (want_store st) = P st
Remembers P (want_colon st _) = P st
Remembers P (want_key st _) = P st
Remembers P (want_end st _ _) = P st

-- Then so do the matches.
pub fused-MatchesAt :
    (P : ℕ → Type 0) (ts : List Lexed) (st : Stage)
    → Remembers P st
    → SpansAt P ts
    → MatchesAt P (fused st ts)
unfolding fused advance
fused-MatchesAt P [] seek r o = tt
fused-MatchesAt P [] _ r o = tt
fused-MatchesAt P (bad s e ∷ ts) seek r o = fused-MatchesAt P ts seek tt o.2
fused-MatchesAt P (bad s e ∷ ts) _ r o = tt
fused-MatchesAt P (token SecretReplacementToken.start s e ∷ ts) seek r o =
    fused-MatchesAt P ts (want_store s) o.0 o.2
fused-MatchesAt P (token (SecretReplacementToken.identifier i) s e ∷ ts) (want_store st) r o =
    fused-MatchesAt P ts (want_colon st i) r o.2
fused-MatchesAt P (token SecretReplacementToken.colon s e ∷ ts) (want_colon st i) r o =
    fused-MatchesAt P ts (want_key st i) r o.2
fused-MatchesAt P (token (SecretReplacementToken.identifier k) s e ∷ ts) (want_key st i) r o =
    fused-MatchesAt P ts (want_end st i k) r o.2
fused-MatchesAt P (token SecretReplacementToken.finish s e ∷ ts) (want_end st i k) r o =
    (r, o.1, fused-MatchesAt P ts seek tt o.2)
fused-MatchesAt P (token _ s e ∷ ts) _ r o = fused-MatchesAt P ts seek tt o.2
