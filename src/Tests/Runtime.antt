-- ===== src/Tests/Runtime.antt =====
-- The theorem on changed Spicepods, at two versions of one with datasets.
use spiceai.Prelude.{
  ℕ, Bool, true, false, Option, none, some, List, [], ◌∷◌, ◌≡◌, ◌≢◌, refl, sym, ap, ◌∙◌, subst,
  arith,
}
use spiceai.Prelude.Lists.{All}
use spiceai.Prelude.Text.{Text, codes, ◌==◌}
use spiceai.Prelude.Result.{Result, err}
use spiceai.Acceleration.{
  Acceleration, Error as AccelerationError, accelerator_engine_not_available,
}
use spiceai.Acceleration.Spicepod
use spiceai.Dataset.{
  TableReference, bare, Mode, read, read_write, SpicepodDataset, Dataset, try_from, with_app,
}
use spiceai.Cache.Plan.{same}
use spiceai.Runtime.{Kind, valid, by_name, apply_diff}
use spiceai.Runtime.Datasets.{Tests, AreTests, datasets, datasets-IsLawful, content}
use spiceai.Runtime.Loaded.{act_all, content_at, SpelledAlike}
use spiceai.Runtime.Converges.{apply_diff-converges}

-- Tests that take nothing but the defaults for equal.
abbrev same_mode : Mode → Mode → Bool
same_mode read read = true
same_mode read_write read_write = true
same_mode _ _ = false

abbrev same_flag : Bool → Bool → Bool
same_flag true true = true
same_flag false false = true
same_flag _ _ = false

abbrev both_none : {A : Type 0} → Option A → Option A → Bool
both_none none none = true
both_none _ _ = false

abbrev both_empty : {A : Type 0} → List A → List A → Bool
both_empty [] [] = true
both_empty _ _ = false

abbrev tests : Tests Text Text
tests = record {
  mode = same_mode;
  params = both_empty;
  flag = same_flag;
  replication = both_none;
  time_column = both_none;
  time_format = both_none;
  acceleration = both_none;
  embeddings = both_empty;
  schema = both_none;
}

both_none-lem : {A : Type 0} (x y : Option A) → both_none x y ≡ true → x ≡ y
both_none-lem none none h = refl
both_none-lem none (some y) h = ground (arith, h)
both_none-lem (some x) y h = ground (arith, h)

both_empty-lem : {A : Type 0} (x y : List A) → both_empty x y ≡ true → x ≡ y
both_empty-lem [] [] h = refl
both_empty-lem [] (y ∷ ys) h = ground (arith, h)
both_empty-lem (x ∷ xs) y h = ground (arith, h)

same_mode-lem : (x y : Mode) → same_mode x y ≡ true → x ≡ y
same_mode-lem x y h = ground (arith, h)

same_flag-lem : (x y : Bool) → same_flag x y ≡ true → x ≡ y
same_flag-lem x y h = ground (arith, h)

tests-AreTests : AreTests tests
tests-AreTests = (
  same_mode-lem, both_empty-lem, same_flag-lem, both_none-lem, both_none-lem, both_none-lem,
  both_none-lem, both_empty-lem, both_none-lem,
)

abbrev accelerate : Spicepod.Acceleration → Result AccelerationError (Acceleration Text)
accelerate a = err (accelerator_engine_not_available (codes "none"))

abbrev kind : Kind (ℕ × SpicepodDataset Text) (Dataset Text Text ℕ) TableReference
kind = datasets bare accelerate tests

abbrev pod : Text → Text → SpicepodDataset Text
pod source name = record {
  «from» = source;
  name = name;
  mode = read;
  params = none;
  has_metadata_table = none;
  replication = none;
  time_column = none;
  time_format = none;
  acceleration = none;
  embeddings = [];
}

-- The dataset `a` stays, `b` goes, `c` gets another source, and `d` is new.
abbrev current : List (ℕ × SpicepodDataset Text)
current =
    (0, pod (codes "s3:1") (codes "a"))
    ∷ (0, pod (codes "s3:2") (codes "b"))
    ∷ (0, pod (codes "s3:3") (codes "c"))
    ∷ []

abbrev new : List (ℕ × SpicepodDataset Text)
new =
    (1, pod (codes "s3:1") (codes "a"))
    ∷ (1, pod (codes "s3:4") (codes "c"))
    ∷ (1, pod (codes "s3:5") (codes "d"))
    ∷ []

-- What a dataset is converted to.
abbrev made : ℕ → Text → Text → Dataset Text Text ℕ
made app source name = record {
  «from» = source;
  name = bare name;
  mode = read;
  params = [];
  has_metadata_table = false;
  replication = none;
  time_column = none;
  time_format = none;
  acceleration = none;
  embeddings = [];
  app = some app;
  schema = none;
}

convert-made :
    (app : ℕ) (source name : Text)
    → kind.convert (app, pod source name) ≡ some (made app source name)
unfolding datasets with_app try_from spiceai.Dataset.transpose spiceai.Dataset.parse_table_reference
    spiceai.Acceleration.Convert.string_map spiceai.Dataset.metadata_table
    spiceai.Dataset.have_metadata_table_by_default
convert-made app source name = refl

alike :
    (app app' : ℕ) (source source' name name' : Text) (c d : Dataset Text Text ℕ)
    → kind.convert (app, pod source name) ≡ some c
    → kind.convert (app', pod source' name') ≡ some d
    → kind.same_raw_name (app', pod source' name') (app, pod source name)
      ≡ kind.same_name d.name c.name
unfolding datasets same
alike app app' source source' name name' c d h g =
    let is_c : made app source name ≡ c = ground (arith, h, convert-made app source name) in
    let is_d : made app' source' name' ≡ d = ground (arith, g, convert-made app' source' name') in
    ap (λ e. same (Dataset.name e) (bare name)) is_d ∙ ap (λ e. same d.name (Dataset.name e)) is_c

alike_all : (source name : Text) → SpelledAlike kind new (0, pod source name)
unfolding datasets
alike_all source name = (
  alike 0 1 source (codes "s3:1") name (codes "a"),
  (
    alike 0 1 source (codes "s3:4") name (codes "c"),
    (alike 0 1 source (codes "s3:5") name (codes "d"), tt),
  ),
)

some-ne-none : {A : Type 0} (a : A) (o : Option A) → o ≡ some a → o ≢ none
some-ne-none a o e h = ground (arith, e, h)

apply_diff-converges_example :
    act_all kind content
      (apply_diff kind current new)
      (λ n. content_at kind content n (valid kind current))
      (bare (codes "b"))
    ≡ content_at kind content (bare (codes "b")) (valid kind new)
unfolding datasets valid by_name spiceai.Prelude.Lists.find same try_from spiceai.Dataset.transpose
    spiceai.Dataset.parse_table_reference with_app ◌==◌
apply_diff-converges_example =
    apply_diff-converges kind content (datasets-IsLawful bare accelerate tests tests-AreTests)
      current new (λ n. content_at kind content n (valid kind current)) refl
      (
        some-ne-none _ _ (convert-made 1 (codes "s3:1") (codes "a")),
        (
          some-ne-none _ _ (convert-made 1 (codes "s3:4") (codes "c")),
          (some-ne-none _ _ (convert-made 1 (codes "s3:5") (codes "d")), tt),
        ),
      )
      (refl, (refl, (refl, tt)))
      (
        alike_all (codes "s3:1") (codes "a"),
        (alike_all (codes "s3:2") (codes "b"), (alike_all (codes "s3:3") (codes "c"), tt)),
      )
      (λ n. refl) (bare (codes "b"))
