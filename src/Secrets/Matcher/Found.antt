-- ===== src/Secrets/Matcher/Found.antt =====
-- Which replacements the matcher finds.
use spiceai.Prelude.{ℕ, suc, List, [], ◌∷◌, ◌++◌, ◌≡◌, refl, ◌∙◌, arith}
use spiceai.Prelude.Lists.{length}
use spiceai.Prelude.Text.{Text}
use spiceai.Secrets.Matcher.{
  SecretReplacementToken, Lexed, token, bad, ReplacementMatch, seek, advance, collect,
}
use spiceai.Secrets.Matcher.Fused.{fused, collect-eq-fused}

-- The tokens between two replacements: refused ones and all but `${`.
pub data IsPlain : List Lexed → Type 0 where
  nil : IsPlain []
  cons_bad : {s e : ℕ} {ts : List Lexed} → IsPlain ts → IsPlain (bad s e ∷ ts)
  cons_identifier :
      {n : Text} {s e : ℕ} {ts : List Lexed}
      → IsPlain ts
      → IsPlain (token (SecretReplacementToken.identifier n) s e ∷ ts)
  cons_colon :
      {s e : ℕ} {ts : List Lexed}
      → IsPlain ts
      → IsPlain (token SecretReplacementToken.colon s e ∷ ts)
  cons_finish :
      {s e : ℕ} {ts : List Lexed}
      → IsPlain ts
      → IsPlain (token SecretReplacementToken.finish s e ∷ ts)

-- All matches of the lexer's tokens: the `for` loop with its fuel.
abbrev pub matches : List Lexed → List ReplacementMatch
matches ts = collect (suc (length ts)) ts

matches-eq-fused : (ts : List Lexed) → matches ts ≡ fused seek ts
matches-eq-fused ts = collect-eq-fused (suc (length ts)) ts (omega arith)

fused_plain :
    {ts : List Lexed} (rest : List Lexed) → IsPlain ts → fused seek (ts ++ rest) ≡ fused seek rest
unfolding fused advance
fused_plain rest nil = refl
fused_plain rest (cons_bad p) = fused_plain rest p
fused_plain rest (cons_identifier p) = fused_plain rest p
fused_plain rest (cons_colon p) = fused_plain rest p
fused_plain rest (cons_finish p) = fused_plain rest p

-- The tokens of `${store:key}`; each number is a place in the text.
abbrev pub replacement_tokens :
    Text → Text → (start1 end1 start2 end2 start3 end3 start4 end4 start5 end5 : ℕ) → List Lexed
replacement_tokens store key s1 e1 s2 e2 s3 e3 s4 e4 s5 e5 =
    token SecretReplacementToken.start s1 e1
    ∷ token (SecretReplacementToken.identifier store) s2 e2
    ∷ token SecretReplacementToken.colon s3 e3
    ∷ token (SecretReplacementToken.identifier key) s4 e4
    ∷ token SecretReplacementToken.finish s5 e5
    ∷ []

module _ {plain : List Lexed} (p : IsPlain plain) (rest : List Lexed) where
  -- Behind tokens with no `${` among them, the five tokens of a replacement are its match, which
  -- spans from the first byte of `${` to the last of `}`, and the loop goes on behind it.
  pub matches_replacement :
      (store key : Text) (s1 e1 s2 e2 s3 e3 s4 e4 s5 e5 : ℕ)
      → matches (plain ++ (replacement_tokens store key s1 e1 s2 e2 s3 e3 s4 e4 s5 e5 ++ rest))
        ≡ record { store_name = store; key = key; span_start = s1; span_end = e5 } ∷ matches rest
  unfolding fused advance
  matches_replacement store key s1 e1 s2 e2 s3 e3 s4 e4 s5 e5 =
      matches-eq-fused _ ∙ fused_plain _ p ∙ (rw (matches-eq-fused rest) refl)

  -- Behind tokens with no `${` among them, a `${` that a refused token follows ends the loop: no
  -- replacement in the rest of the text is found, whatever it holds.
  pub matches-start_bad :
      (s1 e1 s2 e2 : ℕ)
      → matches (plain ++ (token SecretReplacementToken.start s1 e1 ∷ bad s2 e2 ∷ rest)) ≡ []
  unfolding fused advance
  matches-start_bad s1 e1 s2 e2 = matches-eq-fused _ ∙ fused_plain _ p
