-- ===== src/Tests/Backoff.antt =====
-- The theorem on the backoff at a concrete input: a `f64` is a number, and the delay is the interval
-- with the draw added.
use spiceai.Prelude.{ℕ, ◌+◌, ◌*◌, ◌≡◌, some, List, arith}
use spiceai.Prelude.Lists.{length, All}
use spiceai.Backoff.{build}
use spiceai.Backoff.Retries.{IsDelay, delays, build-delays}

abbrev randomized : ℕ → ℕ → ℕ → ℕ
randomized factor random ms = ms + factor * random

abbrev random : ℕ → ℕ
random n = n * 7

build-delays_example :
    (ds : List ℕ) × (delays randomized random 4 (build 2 (some 3)) ≡ some ds)
    × (length ds ≡ 3)
    × All (IsDelay randomized random 2) ds
build-delays_example = build-delays randomized random 2 3 (omega arith)
