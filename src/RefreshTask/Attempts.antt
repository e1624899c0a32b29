-- ===== src/RefreshTask/Attempts.antt =====
-- How often a refresh is attempted.
use spiceai.Prelude.{ℕ, zero, suc, ◌+◌, ◌%◌, ◌≤◌, ◌<◌, none, some, ◌≡◌, ◌≢◌, refl, arith}
use spiceai.Prelude.Tests.{ltb, Option-cases, Bool-cases}
use spiceai.Prelude.Result.{Result}
use spiceai.Backoff.Retries.{interval-Bounded, unwrapped}
use spiceai.Backoff.{usize_bound, FibonacciBackoff, build, next_backoff, exhausted, interval}
use spiceai.RefreshTask.{State, Error}
use spiceai.RefreshTask.Load.{Outcome}
use spiceai.RefreshTask.Run.{Retried, succeeded, gave_up, ran_out, again, Ends, ends}

module _ {Float : Type 0} (randomized : Float → Float → ℕ → ℕ) (random : Float)
    (b b' : FibonacciBackoff Float) where
  -- A backoff below its maximum that gives a delay.
  next_backoff-some :
      (m delay : ℕ)
      → m + 1 < usize_bound
      → b.max_retries ≡ some m
      → b.num_retries ≤ m
      → next_backoff randomized random b ≡ some (some delay, b')
      → (b'.num_retries ≡ b.num_retries + 1) × (b'.max_retries ≡ some m) × (b.num_retries < m)
  unfolding next_backoff exhausted
  next_backoff-some m delay small k l h =
      let u = unwrapped b.num_retries (omega (arith, small, l)) in
      ground (
        arith,
        h,
        k,
        u,
        Bool-cases (ltb m (b.num_retries + 1)),
        Option-cases (interval (b.num_retries + 1)),
      )

module _ {World Float : Type 0} (randomized : Float → Float → ℕ → ℕ)
    (operation : State World → Outcome World (Unit {0})) (m : ℕ) (small : m + 1 < usize_bound) where
  attempts-le :
      (b : FibonacciBackoff Float) (s t : State World) (n : ℕ) (r : Result Error (Unit {0}))
      → Retried randomized operation b s n r t
      → b.max_retries ≡ some m
      → b.num_retries ≤ m
      → n + b.num_retries ≤ suc m
  unfolding exhausted
  attempts-le _ _ _ _ _ (succeeded b s s' h) e l = omega (arith, l)
  attempts-le _ _ _ _ _ (gave_up b s s' e h) _ l = omega (arith, l)
  attempts-le _ _ _ _ _ (ran_out b b' s s' e random h _) _ l = omega (arith, l)
  attempts-le _ _ _ _ _ (again b b' s s' t e random delay n w r h g rest) k l =
      let (num, max, more) = next_backoff-some randomized random b b' m delay small k l g in
      let is_next =
        attempts-le b' (record s' { world = w }) t n r rest max (omega (arith, num, more)) in
      omega (arith, is_next, num)

  next_backoff-ne-none :
      (random : Float) (b : FibonacciBackoff Float) → next_backoff randomized random b ≢ none
  unfolding next_backoff
  next_backoff-ne-none random b h =
      let n = (b.num_retries + 1) % usize_bound in
      let (ms, i, bounds) = interval-Bounded n in
      ground (arith, h, i, Bool-cases (exhausted b.max_retries n))

  -- With as many retries left at most as the fuel.
  Ends-from :
      ((s : State World) → operation s ≢ none)
      → (left : ℕ) (b : FibonacciBackoff Float) (s : State World) → b.max_retries ≡ some m
      → b.num_retries ≤ m
      → m ≤ left + b.num_retries
      → Ends randomized operation b s
  Ends-from runs zero b s k l f =
      ends b s (runs s) (λ random. next_backoff-ne-none random b)
        (λ b' s' e random delay w h g.
          let (num, max, more) = next_backoff-some randomized random b b' m delay small k l g in
          absurd (omega (arith, more, f)))
  Ends-from runs (suc left) b s k l f =
      ends b s (runs s) (λ random. next_backoff-ne-none random b)
        (λ b' s' e random delay w h g.
          let (num, max, more) = next_backoff-some randomized random b b' m delay small k l g in
          Ends-from runs left b' (record s' { world = w }) max (omega (arith, num, more))
            (omega (arith, num, f)))

module _ {World Float : Type 0} (randomized : Float → Float → ℕ → ℕ) (randomization_factor : Float)
    (operation : State World → Outcome World (Unit {0})) (m : ℕ) (small : m + 1 < usize_bound) where
  -- With at most `m` retries, `m` below the greatest `usize`, and an operation that does not panic, the attempts come to an end from
  -- every state: in every run, whatever the jitter, and whatever becomes of the outside while the
  -- delays pass.
  pub Retried-Ends :
      ((s : State World) → operation s ≢ none)
      → (s : State World) → Ends randomized operation (build randomization_factor (some m)) s
  unfolding build
  Retried-Ends runs s =
      Ends-from randomized operation m small runs m (build randomization_factor (some m)) s refl
        (omega arith) (omega arith)

  -- With at most `m` retries, `m` below the greatest `usize`, an operation is attempted `m + 1` times at most.
  pub Retried-le :
      (s t : State World) (n : ℕ) (r : Result Error (Unit {0}))
      → Retried randomized operation (build randomization_factor (some m)) s n r t
      → n ≤ suc m
  unfolding build
  Retried-le s t n r h = omega (
    arith,
    attempts-le randomized operation m small (build randomization_factor (some m)) s t n r h refl
        (omega arith),
  )
