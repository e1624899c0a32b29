-- ===== src/Runtime/Datasets.antt =====
-- Datasets as components of the runtime: crates/runtime/src/lib.rs (`datasets_iter` and the watcher)
-- and `PartialEq` of crates/runtime/src/component/dataset.rs.
--
-- A dataset of a Spicepod stands with the app that it is part of, which `datasets_iter` gives to its
-- conversion. The comparisons of the fields' types are parameters.
use spiceai.Prelude.{Bool, true, ◌&&◌, Option, none, List, ◌≡◌, arith}
use spiceai.Prelude.Text.{Text, ◌==◌, ==_iff}
use spiceai.Prelude.Result.{Result, to_option}
use mathlib.Core.Option
use spiceai.Arrow.{Schema}
use spiceai.Acceleration.{Acceleration, Error as AccelerationError}
use spiceai.Acceleration.Spicepod
use spiceai.Refresh.{TimeFormat}
use spiceai.Dataset.{TableReference, Mode, SpicepodDataset, Dataset, try_from, with_app}
use spiceai.Cache.Plan.{same}
use spiceai.Cache.Walks.{same_iff}
use spiceai.Runtime.{Kind}
use spiceai.Runtime.Loaded.{IsLawful}

-- `==` of the fields' types, most of which derive it.
pub record Tests (Column Embedding : Type 0) : Type 0 where
  pub mode : Mode → Mode → Bool
  pub params : List (Text × Text) → List (Text × Text) → Bool
  pub flag : Bool → Bool → Bool
  pub replication : Option Bool → Option Bool → Bool
  pub time_column : Option Text → Option Text → Bool
  pub time_format : Option TimeFormat → Option TimeFormat → Bool
  pub acceleration : Option (Acceleration Column) → Option (Acceleration Column) → Bool
  pub embeddings : List Embedding → List Embedding → Bool
  pub schema : Option Schema → Option Schema → Bool

-- Values that a test takes for equal are.
abbrev pub IsTest : {A : Type 0} → (A → A → Bool) → Type 0
IsTest {A} test = (x y : A) → test x y ≡ true → x ≡ y

abbrev pub AreTests : {Column Embedding : Type 0} → Tests Column Embedding → Type 0
AreTests tests =
    IsTest tests.mode
    × IsTest tests.params
    × IsTest tests.flag
    × IsTest tests.replication
    × IsTest tests.time_column
    × IsTest tests.time_format
    × IsTest tests.acceleration
    × IsTest tests.embeddings
    × IsTest tests.schema

module _ {Column Embedding App : Type 0} (tests : Tests Column Embedding) where
  -- `Dataset::eq`, which does not compare the apps.
  unfoldable pub eq : Dataset Column Embedding App → Dataset Column Embedding App → Bool
  eq self other =
      self.«from» == other.«from»
      && same self.name other.name
      && tests.mode self.mode other.mode
      && tests.params self.params other.params
      && tests.flag self.has_metadata_table other.has_metadata_table
      && tests.replication self.replication other.replication
      && tests.time_column self.time_column other.time_column
      && tests.time_format self.time_format other.time_format
      && tests.acceleration self.acceleration other.acceleration
      && tests.embeddings self.embeddings other.embeddings
      && tests.schema self.schema other.schema

module _ {Column Embedding App : Type 0} where
  -- A dataset without its app.
  abbrev pub content : Dataset Column Embedding App → Dataset Column Embedding App
  content d = record d { app = none }

module _ {Column Embedding App : Type 0} (tests : Tests Column Embedding)
    (are_tests : AreTests tests) where
  eq-content : (c d : Dataset Column Embedding App) → eq tests c d ≡ true → content c ≡ content d
  unfolding eq
  eq-content c d h i = record {
    «from» = (==_iff c.«from» d.«from»).0 (ground (arith, h)) i;
    name = (same_iff c.name d.name).0 (ground (arith, h)) i;
    mode = are_tests.0 c.mode d.mode (ground (arith, h)) i;
    params = are_tests.1 c.params d.params (ground (arith, h)) i;
    has_metadata_table =
        are_tests.2 c.has_metadata_table d.has_metadata_table (ground (arith, h)) i;
    replication = are_tests.3 c.replication d.replication (ground (arith, h)) i;
    time_column = are_tests.4 c.time_column d.time_column (ground (arith, h)) i;
    time_format = are_tests.5 c.time_format d.time_format (ground (arith, h)) i;
    acceleration = are_tests.6 c.acceleration d.acceleration (ground (arith, h)) i;
    embeddings = are_tests.7 c.embeddings d.embeddings (ground (arith, h)) i;
    schema = are_tests.8 c.schema d.schema (ground (arith, h)) i;
    app = none;
  }

module _ {Column Embedding App : Type 0} (parse_str : Text → TableReference)
    (accelerate : Spicepod.Acceleration → Result AccelerationError (Acceleration Column))
    (tests : Tests Column Embedding) where
  -- The comparison of datasets in `start_pods_watcher`.
  unfoldable pub datasets :
      Kind (App × SpicepodDataset Embedding) (Dataset Column Embedding App) TableReference
  datasets = record {
    convert = λ r. Option.map (with_app r.0) (to_option (try_from parse_str accelerate r.1));
    name = λ d. d.name;
    same_raw_name = λ r s. r.1.name == s.1.name;
    same_name = same;
    same = eq tests;
    removes = true;
  }

module _ {Column Embedding App : Type 0} (parse_str : Text → TableReference)
    (accelerate : Spicepod.Acceleration → Result AccelerationError (Acceleration Column))
    (tests : Tests Column Embedding) (are_tests : AreTests tests) where
  -- Datasets are a lawful kind: what a comparison looks at is all of a dataset but its app.
  pub datasets-IsLawful :
      IsLawful
        (datasets {Column = Column} {Embedding = Embedding} {App = App} parse_str accelerate tests)
        content
  unfolding datasets
  datasets-IsLawful = record { names = same_iff; same = eq-content tests are_tests }
