-- ===== src/Dataset/Settings.antt =====
-- The settings of a dataset that other parts read.
use spiceai.Prelude.{ℕ, ◌≤◌, true, false, none, some, ◌≡◌, inl, inr, arith}
use spiceai.Prelude.Tests.{Option-cases}
use spiceai.Acceleration.{Acceleration, Engine}
use spiceai.Dataset.{
  Dataset, of_acceleration, is_accelerated, is_file_accelerated, is_postgres, is_file,
  refresh_check_interval, refresh_max_jitter, jitter_of,
}

module _ {Column Embedding App : Type 0} (self : Dataset Column Embedding App) where
  -- A dataset that counts as accelerated in a file without being accelerated at all has an
  -- acceleration by PostgreSQL that is turned off.
  pub is_file_accelerated-not :
      is_file_accelerated self ≡ true
      → is_accelerated self ≡ false
      → (a : Acceleration Column) × (self.acceleration ≡ some a)
        × (a.engine ≡ Engine.postgres)
        × (a.enabled ≡ false)
  unfolding is_file_accelerated is_accelerated of_acceleration is_postgres is_file
  is_file_accelerated-not h n = elim (Option-cases self.acceleration) [
    | inl e ↦ absurd (ground arith)
    | inr (a, e) ↦ (a, e, ground arith, ground arith)
  ]

  -- Where 0.1 of a duration is no more than the duration, a jitter that the settings do not give is
  -- no more than the interval of the refreshes, and there is an interval then.
  pub refresh_max_jitter-le :
      (tenth : ℕ → ℕ)
      → ((d : ℕ) → tenth d ≤ d)
      → (a : Acceleration Column) (jitter : ℕ) → self.acceleration ≡ some a
      → a.refresh_jitter_max ≡ none
      → refresh_max_jitter tenth self ≡ some jitter
      → (interval : ℕ) × (refresh_check_interval self ≡ some interval) × (jitter ≤ interval)
  unfolding refresh_max_jitter refresh_check_interval of_acceleration jitter_of
  refresh_max_jitter-le tenth le a jitter e n h = elim (Option-cases a.refresh_check_interval) [
    | inl i ↦ absurd (ground arith)
    | inr (interval, i) ↦ (interval, ground arith, ground (arith, le interval))
  ]
