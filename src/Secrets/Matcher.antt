-- ===== src/Secrets/Matcher.antt =====
-- crates/runtime/src/secrets/lexer.rs: `SecretReplacementMatcher`.
--
-- The tokens are those of the `logos` lexer, which is not part of the repository: a matcher holds
-- the tokens that its lexer has still to give, each with the span that `lexer.span()` reports then.
-- `Token.bad` is a token result that is `Err`.
pub mod Fused
pub mod Spans
pub mod Found
use spiceai.Prelude.{ℕ, zero, suc, Option, none, some, List, [], ◌∷◌}
use spiceai.Prelude.Text.{Text}

pub data SecretReplacementToken : Type 0 where
  start : SecretReplacementToken
  identifier : Text → SecretReplacementToken
  colon : SecretReplacementToken
  finish : SecretReplacementToken

pub data Lexed : Type 0 where
  token : SecretReplacementToken → ℕ → ℕ → Lexed
  bad : ℕ → ℕ → Lexed

pub record ReplacementMatch : Type 0 where
  pub store_name : Text
  pub key : Text
  pub span_start : ℕ
  pub span_end : ℕ

-- Where the body of `next` stands when it asks the lexer for one more token.
pub data Stage : Type 0 where
  seek : Stage
  want_store : ℕ → Stage
  want_colon : ℕ → Text → Stage
  want_key : ℕ → Text → Stage
  want_end : ℕ → Text → Text → Stage

-- What the body does with the token: `continue` or the next line, `return None`, `return Some`.
pub data Action : Type 0 where
  go : Stage → Action
  stop : Action
  found : ReplacementMatch → Action

unfoldable pub advance : Stage → Lexed → Action
advance seek (token SecretReplacementToken.start s e) = go (want_store s)
advance seek _ = go seek
advance (want_store _) (bad _ _) = stop
advance (want_store st) (token (SecretReplacementToken.identifier n) _ _) = go (want_colon st n)
advance (want_store _) _ = go seek
advance (want_colon _ _) (bad _ _) = stop
advance (want_colon st n) (token SecretReplacementToken.colon _ _) = go (want_key st n)
advance (want_colon _ _) _ = go seek
advance (want_key _ _) (bad _ _) = stop
advance (want_key st n) (token (SecretReplacementToken.identifier k) _ _) = go (want_end st n k)
advance (want_key _ _) _ = go seek
advance (want_end _ _ _) (bad _ _) = stop
advance (want_end st n k) (token SecretReplacementToken.finish _ e) =
    found (record { store_name = n; key = k; span_start = st; span_end = e })
advance (want_end _ _ _) _ = go seek

-- The body of `next` from a stage on, with the tokens that it leaves in the lexer.
pub next_from : Stage → List Lexed → Option ReplacementMatch × List Lexed
next_from st [] = (none, [])
next_from st (t ∷ rest) = elim (advance st t) [
  | go st' ↦ next_from st' rest
  | stop ↦ (none, rest)
  | found m ↦ (some m, rest)
]

pub next : List Lexed → Option ReplacementMatch × List Lexed
unfolding next_from
next = next_from seek

-- A `for` loop over the matcher; the fuel is one more than the tokens (`collect-eq-fused`).
unfoldable pub collect : ℕ → List Lexed → List ReplacementMatch
unfolding next
collect zero ts = []
collect (suc f) ts = let (m, rest) = next ts in elim m [ none ↦ [] | some r ↦ r ∷ collect f rest ]
