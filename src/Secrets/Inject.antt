-- ===== src/Secrets/Inject.antt =====
-- crates/runtime/src/secrets.rs: `Secrets::inject_secrets`.
--
-- `tokenize` stands for the generated `logos` lexer. A slice outside of the text, or
-- through a character, is a panic, `none`.
pub mod Pieces
use spiceai.Prelude.{
  ℕ, zero, suc, ◌-◌, Bool, true, ◌||◌, Option, none, some, List, [], ◌∷◌, ◌++◌, ◌&&◌,
}
use spiceai.Prelude.Lists.{length, take, drop, get_elem?}
use spiceai.Prelude.Tests.{leb, ltb, nat_beq, if◌then◌else◌}
use spiceai.Prelude.Text.{Text}
use spiceai.Secrets.Matcher.{Lexed, ReplacementMatch, collect}
use spiceai.Secrets.Stores.{Secrets, get_store_secret}

-- `str::is_char_boundary`: no place inside of a character, whose further bytes are 128 to 191.
unfoldable pub is_char_boundary : Text → ℕ → Bool
is_char_boundary s zero = true
is_char_boundary s i = elim (get_elem? s i) [
  | none ↦ nat_beq i (length s)
  | some b ↦ ltb b 128 || leb 192 b
]

-- `&s[a..b]`
unfoldable pub slice : Text → ℕ → ℕ → Option Text
slice s a b =
    if leb a b && (is_char_boundary s a && is_char_boundary s b)
    then some (take (b - a) (drop a s))
    else none

unwrap_or_default : Option Text → Text
unwrap_or_default none = []
unwrap_or_default (some s) = s

unfoldable pub replacement : Secrets → ReplacementMatch → Text
unfolding unwrap_or_default
replacement self m = unwrap_or_default (get_store_secret self m.store_name m.key)

-- The `for` loop over the matches, and the rest of the text behind the last one.
unfoldable pub inject_loop : Secrets → Text → List ReplacementMatch → ℕ → Text → Option Text
inject_loop self s [] last_end result = elim (slice s last_end (length s)) [
  | none ↦ none
  | some rest ↦ some (result ++ rest)
]
inject_loop self s (m ∷ ms) last_end result = elim (slice s last_end m.span_start) [
  | none ↦ none
  | some before ↦ inject_loop self s ms m.span_end (result ++ (before ++ replacement self m))
]

pub inject_secrets : (Text → List Lexed) → Secrets → Text → Option Text
inject_secrets tokenize self param_str =
    let tokens = tokenize param_str in
    inject_loop self param_str (collect (suc (length tokens)) tokens) 0 []
