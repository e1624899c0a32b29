-- ===== src/Tests/Secrets.antt =====
-- The theorems on secrets at concrete inputs: the text `a${s:k}b`, and stores that know one key.
use spiceai.Prelude.{
  suc, String, true, false, Option, none, some, List, [], ◌∷◌, ◌++◌, reverse, ◌≡◌, refl, arith,
}
use spiceai.Prelude.Lists.{length}
use spiceai.Prelude.Tests.{if◌then◌else◌}
use spiceai.Prelude.Text.{Text, codes, ◌==◌, before, find_byte}
use spiceai.Prelude.Result.{Result, ok, err}
use spiceai.Secrets.Matcher.{SecretReplacementToken, Lexed, token, bad, collect}
use spiceai.Secrets.Matcher.Found.{
  nil, cons_bad, cons_colon, matches, replacement_tokens, matches_replacement, matches-start_bad,
}
use spiceai.Secrets.Inject.{replacement, inject_secrets, is_char_boundary}
use spiceai.Secrets.Inject.Pieces.{
  Piece, source, located, rendered, IsBoundary, inject_secrets-rendered,
}
use spiceai.Secrets.Matcher.Spans.{SpansAt}
use spiceai.Secrets.Provider.{
  unknown_secret_store, Features, SpicepodSecret, secret_store_provider, secret_selector,
  spicepod_secret_store_type,
}
use spiceai.Secrets.Stores.{
  SecretStore, Entries, Secrets, Loaders, load_from, first_secret, get_secret,
}
use spiceai.Secrets.Stores.Precedence.{Distinct, Typed, loaded, get_secret-last}

abbrev text : Text
text = codes "a${s:k}b"

abbrev tokens : List Lexed
tokens =
    bad 0 1 ∷ (replacement_tokens (codes "s") (codes "k") 1 3 3 4 4 5 5 6 6 7 ++ (bad 7 8 ∷ []))

abbrev tokenize : Text → List Lexed
tokenize s = tokens

abbrev knows : String → String → SecretStore
knows k v key = if key == codes k then ok (some (codes v)) else ok none

abbrev connected : Secrets
connected = record { stores = (codes "s", knows "k" "v") ∷ [] }

at_boundaries : SpansAt (IsBoundary text) tokens
unfolding is_char_boundary
at_boundaries = (
  refl,
  refl,
  (refl, refl, (refl, refl, (refl, refl, (refl, refl, (refl, refl, (refl, refl, tt)))))),
)

inject_secrets-rendered_example :
    (ps : List Piece) × (tail : Text) × (source ps tail ≡ text)
    × (located 0 ps ≡ collect (suc (length tokens)) tokens)
    × (inject_secrets tokenize connected text ≡ some (rendered (replacement connected) 0 ps tail))
inject_secrets-rendered_example =
    inject_secrets-rendered tokenize connected text (omega arith) at_boundaries

matches_replacement_example :
    matches (
      bad 0 1 ∷ []
      ++ (replacement_tokens (codes "s") (codes "k") 1 3 3 4 4 5 5 6 6 7 ++ (bad 7 8 ∷ [])))
    ≡ record { store_name = codes "s"; key = codes "k"; span_start = 1; span_end = 7 }
      ∷ matches (bad 7 8 ∷ [])
matches_replacement_example =
    matches_replacement (cons_bad nil) (bad 7 8 ∷ []) (codes "s") (codes "k") 1 3 3 4 4 5 5 6 6 7

matches-start_bad_example :
    matches (
      token SecretReplacementToken.colon 0 1 ∷ []
      ++ (token SecretReplacementToken.start 1 3 ∷ bad 3 4 ∷ tokens))
    ≡ []
matches-start_bad_example = matches-start_bad (cons_colon nil) tokens 1 3 3 4

abbrev features : Features
features = record { keyring_secret_store = false; aws_secrets_manager = true }

abbrev loaders : Loaders
loaders = record {
  env = knows "e" "1";
  env_custom_path = λ path. knows "f" "2";
  keyring = knows "r" "3";
  kubernetes = λ name. ok (knows "k" "4");
  aws_secrets_manager = λ name. err (unknown_secret_store name);
}

abbrev secret : String → String → SpicepodSecret
secret provider name = record { «from» = codes provider; name = codes name; params = none }

abbrev two : List SpicepodSecret
two = secret "env" "local" ∷ secret "kubernetes:ns" "cluster" ∷ []

two-Distinct : Distinct two
unfolding ◌==◌
two-Distinct = ((refl, tt), (tt, tt))

two-Typed : Typed features loaders two
unfolding spicepod_secret_store_type ◌==◌ secret_store_provider before secret_selector find_byte
two-Typed = (λ e h. cc, (λ e h. cc, tt))

get_secret-last_example :
    get_secret (load_from features loaders connected two).1 (codes "k")
    ≡ elim (knows "k" "4" (codes "k")) as (λ _. Result Text (Option Text)) [
      | ok (some found) ↦ ok (some found)
      | ok none ↦
          first_secret (reverse (loaded features loaders (secret "env" "local" ∷ []))) (codes "k")
      | err e ↦ err e
    ]
unfolding spicepod_secret_store_type ◌==◌ secret_store_provider before secret_selector find_byte
    spiceai.Secrets.Stores.load_secret_store
get_secret-last_example =
    get_secret-last features loaders connected two two-Distinct two-Typed
      (secret "env" "local" ∷ []) (secret "kubernetes:ns" "cluster") (knows "k" "4") (codes "k")
      refl refl
