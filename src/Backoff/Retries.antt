-- ===== src/Backoff/Retries.antt =====
-- How many retries there are, and how long they wait.
use spiceai.Prelude.{
  ℕ, zero, suc, ◌+◌, ◌-◌, ◌%◌, ◌≤◌, ◌<◌, ◌≡◌, refl, inl, inr, true, false, Option, none, some, List,
  [], ◌∷◌, arith,
}
use spiceai.Prelude.Lists.{length, get_elem?, All}
use spiceai.Prelude.Tests.{ltb, leb, Bool-cases}
use spiceai.Backoff.{
  usize_bound, backoff_intervals_ms, FibonacciBackoff, interval, exhausted, build, next_backoff,
}

pub unwrapped : (n : ℕ) → n + 1 < usize_bound → (n + 1) % usize_bound ≡ n + 1
unwrapped n l = omega (arith, l)

-- The interval in its bounds.
abbrev pub Bounded : ℕ → Type 0
Bounded ms = (1_000 ≤ ms) × (ms ≤ 300_000)

intervals-Bounded : All Bounded backoff_intervals_ms
intervals-Bounded = omega arith

get-All :
    (P : ℕ → Type 0) (xs : List ℕ) (i : ℕ)
    → All P xs
    → i < length xs
    → (x : ℕ) × (get_elem? xs i ≡ some x) × P x
get-All P [] i h l = absurd (omega arith)
get-All P (x ∷ xs) zero h l = (x, refl, h.0)
get-All P (x ∷ xs) (suc i) h l = get-All P xs i h.1 (omega arith)

pub interval-Bounded : (n : ℕ) → (ms : ℕ) × (interval n ≡ some ms) × Bounded ms
unfolding interval
interval-Bounded n = elim (Bool-cases (leb (length backoff_intervals_ms) n)) [
  | inl e ↦
      let (ms, g, b) = get-All Bounded backoff_intervals_ms 13 intervals-Bounded (omega arith) in
      (ms, rw (e, interval) g, b)
  | inr e ↦
      let (ms, g, b) = get-All Bounded backoff_intervals_ms n intervals-Bounded (ground arith) in
      (ms, rw (e, interval) g, b)
]

module _ {Float : Type 0} (randomized : Float → Float → ℕ → ℕ) (random : ℕ → Float) where
  -- The delays that a caller gets until there are no more, with as many calls as the fuel allows.
  unfoldable pub delays : ℕ → FibonacciBackoff Float → Option (List ℕ)
  delays zero self = some []
  delays (suc fuel) self = elim (next_backoff randomized (random self.num_retries) self) [
    | none ↦ none
    | some (none, next) ↦ some []
    | some (some delay, next) ↦ elim (delays fuel next) [
      | none ↦ none
      | some ds ↦ some (delay ∷ ds)
    ]
  ]

  -- A delay is one of an interval within the bounds, randomized.
  abbrev pub IsDelay : Float → ℕ → Type 0
  IsDelay factor d =
      (n : ℕ) × (ms : ℕ) × (d ≡ randomized factor (random n) ms) × (1_000 ≤ ms) × (ms ≤ 300_000)

  abbrev at : ℕ → ℕ → Float → FibonacciBackoff Float
  at max n factor = record {
    num_retries = n;
    randomization_factor = factor;
    max_retries = some max;
  }

  next-stops :
      (max n : ℕ) (factor : Float)
      → n + 1 < usize_bound
      → ltb max (n + 1) ≡ true
      → next_backoff randomized (random n) (at max n factor) ≡ some (none, at max (n + 1) factor)
  unfolding next_backoff exhausted
  next-stops max n factor l e = rw (unwrapped n l, e, exhausted) refl

  next-goes_on :
      (max n ms : ℕ) (factor : Float)
      → n + 1 < usize_bound
      → ltb max (n + 1) ≡ false
      → interval (n + 1) ≡ some ms
      → next_backoff randomized (random n) (at max n factor)
        ≡ some (some (randomized factor (random n) ms), at max (n + 1) factor)
  unfolding next_backoff exhausted
  next-goes_on max n ms factor l e i = ground (arith, unwrapped n l, e, i)

  delays-length :
      (max fuel n : ℕ) (factor : Float)
      → max + 1 < usize_bound
      → n ≤ max
      → max - n < fuel
      → (ds : List ℕ) × (delays fuel (at max n factor) ≡ some ds)
        × (length ds ≡ max - n)
        × All (IsDelay factor) ds
  unfolding delays
  delays-length max zero n factor small le lt = absurd (omega arith)
  delays-length max (suc fuel) n factor small le lt = elim (Bool-cases (ltb max (n + 1))) [
    | inl e ↦ (
      [],
      rw (next-stops max n factor (omega (arith, small, le)) e, delays) refl,
      ground arith,
      tt,
    )
    | inr e ↦
        let (ms, i, b) = interval-Bounded (n + 1) in
        let (ds, r, l, h) =
          delays-length max fuel (n + 1) factor small (ground arith) (ground arith) in
        (
          randomized factor (random n) ms ∷ ds,
          rw (next-goes_on max n ms factor (omega (arith, small, le)) e i, delays, r) refl,
          ground (arith, l),
          ((n, ms, refl, b.0, b.1), h),
        )
  ]

  -- With a maximum of retries below the greatest `usize`, a new backoff gives exactly that many delays and then no more, and
  -- each is randomized from an interval of one second at least and five minutes at most.
  pub build-delays :
      (factor : Float) (max : ℕ)
      → max + 1 < usize_bound
      → (ds : List ℕ) × (delays (max + 1) (build factor (some max)) ≡ some ds)
        × (length ds ≡ max)
        × All (IsDelay factor) ds
  unfolding build
  build-delays factor max small =
      let (ds, r, l, h) = delays-length max (max + 1) 0 factor small (omega arith) (omega arith) in
      (ds, r, omega (arith, l), h)
