-- ===== src/Backoff.antt =====
-- crates/util/src/fibonacci_backoff.rs: the delays between the retries of a refresh.
--
-- `Float` is the type of `f64`, and `randomized` the value that `get_random_value_from_interval`
-- computes in it from the factor, a random draw and an interval in milliseconds.
pub mod Retries
use spiceai.Prelude.{ℕ, ◌+◌, ◌-◌, ◌%◌, ◌^◌, Bool, true, false, Option, none, some, List, [], ◌∷◌}
use spiceai.Prelude.Lists.{length, get_elem?}
use spiceai.Prelude.Tests.{if◌then◌else◌, ltb, leb}

-- The first number that is no `usize`. Without checks of the overflow, an addition goes on at 0.
abbrev pub usize_bound : ℕ
usize_bound = 18_446_744_073_709_551_616

abbrev pub backoff_intervals_ms : List ℕ
backoff_intervals_ms =
    1000 ∷ 1000 ∷ 2000 ∷ 3000 ∷ 5000 ∷ 8000 ∷ 13000 ∷ 21000 ∷ 34000 ∷ 55000 ∷ 89000 ∷ 144_000
    ∷ 233_000 ∷ 300_000 ∷ []

pub record FibonacciBackoff (Float : Type 0) : Type 0 where
  pub num_retries : ℕ
  pub randomization_factor : Float
  pub max_retries : Option ℕ

-- The interval of a retry; `none` is an index out of range.
unfoldable pub interval : ℕ → Option ℕ
interval num_retries =
    if leb (length backoff_intervals_ms) num_retries
    then get_elem? backoff_intervals_ms (length backoff_intervals_ms - 1)
    else get_elem? backoff_intervals_ms num_retries

-- `num_retries > max_retries`
unfoldable pub exhausted : Option ℕ → ℕ → Bool
exhausted none num_retries = false
exhausted (some max_retries) num_retries = ltb max_retries num_retries

module _ {Float : Type 0} where
  unfoldable pub reset : FibonacciBackoff Float → FibonacciBackoff Float
  reset self = record self { num_retries = 0 }

  -- The builder with its setters, and `build`.
  unfoldable pub build : Float → Option ℕ → FibonacciBackoff Float
  build randomization_factor max_retries = record {
    num_retries = 0;
    randomization_factor = randomization_factor;
    max_retries = max_retries;
  }

  -- The delay, if there is to be one, and what becomes of the backoff.
  unfoldable pub next_backoff :
      (Float → Float → ℕ → ℕ)
      → Float
      → FibonacciBackoff Float
      → Option (Option ℕ × FibonacciBackoff Float)
  next_backoff randomized random self =
      let next = record self { num_retries = (self.num_retries + 1) % usize_bound } in
      if exhausted next.max_retries next.num_retries
      then some (none, next)
      else elim (interval next.num_retries) [
        | none ↦ none
        | some ms ↦ some (some (randomized next.randomization_factor random ms), next)
      ]
