-- ===== src/RefreshTask/Run.antt =====
-- crates/runtime/src/accelerated_table/refresh_task.rs: `run`, and what it reports.
--
-- `backoff::future::retry` is not code of this repository. `Retried` is its documented behaviour:
-- the operation is run until it succeeds or its error is permanent, and again after an error that is
-- not when the backoff gives a delay.
use spiceai.Prelude.{ℕ, suc, Option, none, some, [], ◌∷◌, ◌≡◌, ◌≢◌, inl, inr, refl, subst, arith}
use spiceai.Prelude.Tests.{if◌then◌else◌, Option-cases}
use spiceai.Prelude.Text.{Text}
use spiceai.Prelude.Result.{Result, ok, err, Result-cases}
use spiceai.Refresh.{Refresh}
use spiceai.Backoff.{FibonacciBackoff, build, next_backoff}
use spiceai.RefreshTask.{
  Outside, State, StreamingDataUpdate, Error, RetryError, permanent, transient, ComponentStatus,
  ready, error, refreshing, mark,
}
use spiceai.RefreshTask.Load.{Outcome, Comparison}
use spiceai.RefreshTask.Write.{
  is_overwrite, collected, write_streaming_data_update, write_update, get_update, run_once,
}

-- `max_retries` in `run`.
unfoldable pub max_retries : Refresh → Option ℕ
max_retries refresh =
    if refresh.refresh_retry_enabled then refresh.refresh_retry_max_attempts else some 0

module _ {World Float : Type 0} (randomized : Float → Float → ℕ → ℕ)
    (operation : State World → Outcome World (Unit {0})) where
  -- The attempts from a backoff and a state, with their number, to a result and a state. The outside
  -- may change while a delay passes.
  pub data Retried
      : FibonacciBackoff Float
        → State World
        → ℕ
        → Result Error (Unit {0})
        → State World
        → Type 0 where
    succeeded :
        (b : FibonacciBackoff Float) (s s' : State World)
        → operation s ≡ some (ok tt, s')
        → Retried b s 1 (ok tt) s'
    gave_up :
        (b : FibonacciBackoff Float) (s s' : State World) (e : Error)
        → operation s ≡ some (err (permanent e), s')
        → Retried b s 1 (err e) s'
    ran_out :
        (b b' : FibonacciBackoff Float) (s s' : State World) (e : Error) (random : Float)
        → operation s ≡ some (err (transient e), s')
        → next_backoff randomized random b ≡ some (none, b')
        → Retried b s 1 (err e) s'
    again :
        (b b' : FibonacciBackoff Float) (s s' t : State World) (e : Error) (random : Float)
        (delay n : ℕ) (w : World) (r : Result Error (Unit {0}))
        → operation s ≡ some (err (transient e), s')
        → next_backoff randomized random b ≡ some (some delay, b')
        → Retried b' (record s' { world = w }) n r t
        → Retried b s (suc n) r t

module _ {World Float : Type 0} (randomized : Float → Float → ℕ → ℕ)
    (operation : State World → Outcome World (Unit {0})) where
  -- All attempts from a backoff and a state come to an end: neither the operation nor the backoff
  -- panics, and so it is behind every attempt that is followed by another one, whatever the jitter,
  -- and whatever becomes of the outside while the delay passes.
  pub data Ends : FibonacciBackoff Float → State World → Type 0 where
    ends :
        (b : FibonacciBackoff Float) (s : State World)
        → operation s ≢ none
        → ((random : Float) → next_backoff randomized random b ≢ none)
        → ((b' : FibonacciBackoff Float) (s' : State World) (e : Error) (random : Float) (delay : ℕ)
              (w : World)
            → operation s ≡ some (err (transient e), s')
            → next_backoff randomized random b ≡ some (some delay, b')
            → Ends b' (record s' { world = w }))
        → Ends b s

module _ {World Frame Row Cell Float : Type 0} (outside : Outside World Frame Row)
    (comparison : Comparison Row Cell) (randomized : Float → Float → ℕ → ℕ)
    (randomization_factor : Float) where
  -- `run` from a state, with the number of attempts, to a result and a state.
  abbrev pub Run : Refresh → Text → State World → ℕ → Result Error (Unit {0}) → State World → Type 0
  Run refresh dataset_name s n r t =
      Retried randomized (run_once outside comparison refresh dataset_name)
        (build randomization_factor (max_retries refresh)) s n r t

-- The status that tells of a result.
unfoldable pub status_of : {E A : Type 0} → Result E A → ComponentStatus
status_of (ok _) = ready
status_of (err _) = error

-- The last status that was reported.
unfoldable pub last_status : {World : Type 0} → State World → Option ComponentStatus
last_status s = elim s.statuses [ [] ↦ none | status ∷ _ ↦ some status ]

module _ {World Frame Row : Type 0} (outside : Outside World Frame Row) where
  collected-status :
      (c : Result Text (Unit {0}) × World) (s : State World)
      → last_status (collected outside c s).1 ≡ some (status_of (collected outside c s).0)
  unfolding collected last_status mark status_of
  collected-status (err e, w) s = refl
  collected-status (ok _, w) s = refl

  write_streaming_data_update-status :
      (update : StreamingDataUpdate Row) (s : State World)
      → last_status (write_streaming_data_update outside update s).1
        ≡ some (status_of (write_streaming_data_update outside update s).0)
  unfolding write_streaming_data_update last_status mark status_of
  write_streaming_data_update-status update s =
      elim (Result-cases
        (outside.insert_into s.world update.schema (is_overwrite update.update_type))) [
          | inr (e, h) ↦ rw (h, write_streaming_data_update) refl
          | inl (u, h) ↦
              rw (h, write_streaming_data_update)
                (collected-status
                  (outside.execute_insert s.world update.data_ (is_overwrite update.update_type)) s)
        ]

  write_update-status :
      (got : Result RetryError (StreamingDataUpdate Row) × State World)
      → last_status (write_update outside got).1 ≡ some (status_of (write_update outside got).0)
  unfolding write_update last_status mark status_of
  write_update-status (err e, s) = refl
  write_update-status (ok update, s) = write_streaming_data_update-status update s

module _ {World Frame Row Cell : Type 0} (outside : Outside World Frame Row)
    (comparison : Comparison Row Cell) (refresh : Refresh) (dataset_name : Text) where
  -- One attempt reports READY last when it succeeds and ERROR last when it fails.
  run_once-status :
      (s s' : State World) (r : Result RetryError (Unit {0}))
      → run_once outside comparison refresh dataset_name s ≡ some (r, s')
      → last_status s' ≡ some (status_of r)
  unfolding run_once
  run_once-status s s' r h =
      elim (Option-cases (get_update outside comparison refresh dataset_name (mark refreshing s))) [
        | inl e ↦ absurd (ground (arith, h, e))
        | inr (got, e) ↦
            let is_written : write_update outside got ≡ (r, s') = ground (arith, h, e) in
            subst (λ w. last_status w.1 ≡ some (status_of w.0)) is_written
              (write_update-status outside got)
      ]

module _ {World Frame Row Cell Float : Type 0} (outside : Outside World Frame Row)
    (comparison : Comparison Row Cell) (refresh : Refresh) (dataset_name : Text)
    (randomized : Float → Float → ℕ → ℕ) where
  -- However often a refresh is attempted: the last status that it reports for the dataset is READY when
  -- its result is a success, and ERROR when it is a failure.
  pub Retried-status :
      (b : FibonacciBackoff Float) (s t : State World) (n : ℕ) (r : Result Error (Unit {0}))
      → Retried randomized (run_once outside comparison refresh dataset_name) b s n r t
      → last_status t ≡ some (status_of r)
  unfolding status_of
  Retried-status _ _ _ _ _ (succeeded b s s' h) =
      run_once-status outside comparison refresh dataset_name s s' _ h
  Retried-status _ _ _ _ _ (gave_up b s s' e h) =
      run_once-status outside comparison refresh dataset_name s s' _ h
  Retried-status _ _ _ _ _ (ran_out b b' s s' e random h _) =
      run_once-status outside comparison refresh dataset_name s s' _ h
  Retried-status _ _ _ _ _ (again b b' s s' t e random delay n w r _ _ rest) =
      Retried-status _ _ _ _ _ rest
