-- ===== src/Acceleration/Refused.antt =====
-- Which accelerations of a Spicepod are refused, and with which error.
use spiceai.Prelude.{
  ℕ, ◌≡◌, ◌⊎◌, inl, inr, refl, sym, subst, Bool, Option, none, some, List, [], ◌∷◌, arith,
}
use spiceai.Prelude.Lists.{Any, here, there}
use spiceai.Prelude.Text.{Text, codes}
use spiceai.Prelude.Result.{Result, err, Result-cases}
use spiceai.Acceleration.Spicepod
use spiceai.Acceleration.{
  Error, unable_to_parse_column_reference, unable_to_parse_field_as_duration,
  accelerator_engine_not_available, engine_try_from,
}
use spiceai.Acceleration.Convert.{
  insert, index_type_of, on_conflict_behavior_of, try_parse_column_reference, try_parse_duration,
  parse_primary_key, parse_columns, engine_text, try_from,
}

module _ {Column : Type 0} (same : Column → Column → Bool)
    (parse_column : Text → Result Text Column) (parse_duration : Text → Result Text ℕ)
    (to_lowercase : Text → Text) where
  -- A column reference that cannot be parsed, with the error that it gives.
  abbrev IsBadColumn : Text → Error → Type 0
  IsBadColumn c e =
      (m : Text) × (parse_column c ≡ err m) × (e ≡ unable_to_parse_column_reference c m)

  reference-err :
      (c : Text) (e : Error)
      → try_parse_column_reference same parse_column parse_duration to_lowercase c ≡ err e
      → IsBadColumn c e
  unfolding try_parse_column_reference
  reference-err c e h = elim (Result-cases (parse_column c)) [
    | inl (x, q) ↦ absurd (ground arith)
    | inr (m, q) ↦ (m, q, ground arith)
  ]

  primary_key-err :
      (pk : Option Text) (e : Error)
      → parse_primary_key same parse_column parse_duration to_lowercase pk ≡ err e
      → (c : Text) × (pk ≡ some c) × IsBadColumn c e
  unfolding parse_primary_key
  primary_key-err none e h = absurd (ground arith)
  primary_key-err (some c) e h = (c, refl, reference-err c e (ground arith))

  columns-err :
      {A B : Type 0} (f : A → B) (cs : List (Text × A)) (m : List (Column × B)) (e : Error)
      → parse_columns same parse_column parse_duration to_lowercase f cs m ≡ err e
      → (c : Text) × Any (λ (i : Text × A). i.0 ≡ c) cs × IsBadColumn c e
  unfolding parse_columns
  columns-err f [] m e h = absurd (ground arith)
  columns-err f ((k, v) ∷ cs) m e h =
      elim (Result-cases
        (try_parse_column_reference same parse_column parse_duration to_lowercase k)) [
          | inr (e', q) ↦ (k, here refl, reference-err k e (ground arith))
          | inl (x, q) ↦
              let (c, at, bad) = columns-err f cs (insert same x (f v) m) e (ground arith) in
              (c, there at, bad)
        ]

  duration-err :
      (field : Text) (t : Option Text) (e : Error)
      → try_parse_duration same parse_column parse_duration to_lowercase field t ≡ err e
      → (text : Text) × (m : Text) × (t ≡ some text)
        × (parse_duration text ≡ err m)
        × (e ≡ unable_to_parse_field_as_duration field m)
  unfolding try_parse_duration
  duration-err field none e h = absurd (ground arith)
  duration-err field (some text) e h = elim (Result-cases (parse_duration text)) [
    | inl (d, q) ↦ absurd (ground arith)
    | inr (m, q) ↦ (text, m, refl, q, ground arith)
  ]

  engine-err :
      (name : Text) (e : Error)
      → engine_try_from to_lowercase name ≡ err e
      → e ≡ accelerator_engine_not_available name
  unfolding engine_try_from
  engine-err name e h = ground arith

  steps-err :
      (a : Spicepod.Acceleration) (e : Error)
      → try_from same parse_column parse_duration to_lowercase a ≡ err e
      → (parse_primary_key same parse_column parse_duration to_lowercase a.primary_key ≡ err e)
        ⊎ ((parse_columns same parse_column parse_duration to_lowercase index_type_of a.indexes []
              ≡ err e)
            ⊎ ((parse_columns same parse_column parse_duration to_lowercase on_conflict_behavior_of
                    a.on_conflict []
                  ≡ err e)
                ⊎ ((engine_try_from to_lowercase (engine_text a.engine) ≡ err e)
                    ⊎ ((try_parse_duration same parse_column parse_duration to_lowercase
                            (codes "refresh_check_interval")
                            a.refresh_check_interval
                          ≡ err e)
                        ⊎ ((try_parse_duration same parse_column parse_duration to_lowercase
                                (codes "refresh_jitter_max")
                                a.refresh_jitter_max
                              ≡ err e)
                            ⊎ ((try_parse_duration same parse_column parse_duration to_lowercase
                                  (codes "refresh_append_overlap")
                                  a.refresh_append_overlap
                                ≡ err e)))))))
  unfolding try_from
  steps-err a e h = ground arith

module _ {Column : Type 0} (parse_column : Text → Result Text Column)
    (parse_duration : Text → Result Text ℕ) (a : Spicepod.Acceleration) where
  -- The setting of the Spicepod that an error is about, and why it is refused.
  pub data IsRefused : Error → Type 0 where
    primary_key :
        (c m : Text)
        → a.primary_key ≡ some c
        → parse_column c ≡ err m
        → IsRefused (unable_to_parse_column_reference c m)
    index :
        (c m : Text)
        → Any (λ (i : Text × Spicepod.IndexType). i.0 ≡ c) a.indexes
        → parse_column c ≡ err m
        → IsRefused (unable_to_parse_column_reference c m)
    conflict :
        (c m : Text)
        → Any (λ (i : Text × Spicepod.OnConflictBehavior). i.0 ≡ c) a.on_conflict
        → parse_column c ≡ err m
        → IsRefused (unable_to_parse_column_reference c m)
    engine : IsRefused (accelerator_engine_not_available (engine_text a.engine))
    check_interval :
        (t m : Text)
        → a.refresh_check_interval ≡ some t
        → parse_duration t ≡ err m
        → IsRefused (unable_to_parse_field_as_duration (codes "refresh_check_interval") m)
    jitter_max :
        (t m : Text)
        → a.refresh_jitter_max ≡ some t
        → parse_duration t ≡ err m
        → IsRefused (unable_to_parse_field_as_duration (codes "refresh_jitter_max") m)
    overlap :
        (t m : Text)
        → a.refresh_append_overlap ≡ some t
        → parse_duration t ≡ err m
        → IsRefused (unable_to_parse_field_as_duration (codes "refresh_append_overlap") m)

module _ {Column : Type 0} (same : Column → Column → Bool)
    (parse_column : Text → Result Text Column) (parse_duration : Text → Result Text ℕ)
    (to_lowercase : Text → Text) (a : Spicepod.Acceleration) where
  abbrev RefusedBy : Error → Type 0
  RefusedBy = IsRefused parse_column parse_duration a

  -- If an acceleration is not accepted, the error is about a column reference or a duration of it
  -- that its parser refuses, with the parser's message, or about the engine that it names.
  pub try_from-err :
      (e : Error)
      → try_from same parse_column parse_duration to_lowercase a ≡ err e
      → IsRefused parse_column parse_duration a e
  try_from-err e h = elim (steps-err same parse_column parse_duration to_lowercase a e h) [
    | inl q ↦
        let (c, at, (m, bad, eq)) =
          primary_key-err same parse_column parse_duration to_lowercase a.primary_key e q in
        subst RefusedBy (sym eq) (primary_key c m at bad)
    | inr (inl q) ↦
        let (c, at, (m, bad, eq)) =
          columns-err same parse_column parse_duration to_lowercase index_type_of a.indexes [] e
            q in
        subst RefusedBy (sym eq) (index c m at bad)
    | inr (inr (inl q)) ↦
        let (c, at, (m, bad, eq)) =
          columns-err same parse_column parse_duration to_lowercase on_conflict_behavior_of
            a.on_conflict [] e q in
        subst RefusedBy (sym eq) (conflict c m at bad)
    | inr (inr (inr (inl q))) ↦
        subst RefusedBy
          (sym
            (engine-err same parse_column parse_duration to_lowercase (engine_text a.engine) e q))
          engine
    | inr (inr (inr (inr (inl q)))) ↦
        let (t, m, at, bad, eq) =
          duration-err same parse_column parse_duration to_lowercase
            (codes "refresh_check_interval") a.refresh_check_interval e q in
        subst RefusedBy (sym eq) (check_interval t m at bad)
    | inr (inr (inr (inr (inr (inl q))))) ↦
        let (t, m, at, bad, eq) =
          duration-err same parse_column parse_duration to_lowercase (codes "refresh_jitter_max")
            a.refresh_jitter_max e q in
        subst RefusedBy (sym eq) (jitter_max t m at bad)
    | inr (inr (inr (inr (inr (inr q))))) ↦
        let (t, m, at, bad, eq) =
          duration-err same parse_column parse_duration to_lowercase
            (codes "refresh_append_overlap") a.refresh_append_overlap e q in
        subst RefusedBy (sym eq) (overlap t m at bad)
  ]
