-- ===== src/Acceleration/OnConflict.antt =====
-- crates/runtime/src/component/dataset/acceleration/on_conflict.rs: what a conflict does.
use spiceai.Prelude.{
  ◌<◌, ◌≡◌, refl, Bool, true, false, not, ◌&&◌, Option, none, some, List, [], ◌∷◌, ◌++◌, arith,
}
use spiceai.Prelude.Lists.{length, all, All}
use spiceai.Prelude.Tests.{if◌then◌else◌, ltb, nat_beq}
use spiceai.Prelude.Result.{Result, ok, err}
use spiceai.Acceleration.{
  IndexType, OnConflictBehavior, Error, on_conflict_target_mismatch, Acceleration,
}

-- `OnConflict` of another crate, whose constructors the code calls.
pub data OnConflict (Column : Type 0) : Type 0 where
  do_nothing_all : OnConflict Column
  do_nothing : Column → OnConflict Column
  upsert_on : Column → OnConflict Column

unfoldable pub is_drop : OnConflictBehavior → Bool
is_drop OnConflictBehavior.drop = true
is_drop OnConflictBehavior.upsert = false

module _ {Column : Type 0} where
  unfoldable pub unique_columns : List (Column × IndexType) → List Column
  unique_columns [] = []
  unique_columns ((column, IndexType.unique) ∷ indexes) = column ∷ unique_columns indexes
  unique_columns ((column, IndexType.enabled) ∷ indexes) = unique_columns indexes

  unfoldable pub key_columns : Option Column → List Column
  key_columns none = []
  key_columns (some primary_key) = primary_key ∷ []

  unfoldable pub on_conflict_targets : Acceleration Column → List Column
  on_conflict_targets self = unique_columns self.indexes ++ key_columns self.primary_key

  unfoldable pub all_drop : List (Column × OnConflictBehavior) → Bool
  all_drop = all (λ c. is_drop c.1)

  unfoldable pub first_conflict : List (Column × OnConflictBehavior) → Option (OnConflict Column)
  first_conflict [] = none
  first_conflict ((column, OnConflictBehavior.drop) ∷ _) = some (do_nothing column)
  first_conflict ((column, OnConflictBehavior.upsert) ∷ _) = some (upsert_on column)

  unfoldable pub on_conflict : Acceleration Column → Result Error (Option (OnConflict Column))
  on_conflict self =
      let many = ltb 1 (length self.on_conflict) in
      if many && not (nat_beq (length (on_conflict_targets self)) (length self.on_conflict))
      then err on_conflict_target_mismatch
      else if many && not (all_drop self.on_conflict)
      then err on_conflict_target_mismatch
      else if many
      then ok (some do_nothing_all)
      else ok (first_conflict self.on_conflict)

  all_drop-All :
      (cs : List (Column × OnConflictBehavior))
      → all_drop cs ≡ true
      → All (λ c. c.1 ≡ OnConflictBehavior.drop) cs
  unfolding all_drop all is_drop
  all_drop-All [] h = tt
  all_drop-All ((c, OnConflictBehavior.drop) ∷ cs) h = (refl, all_drop-All cs h)
  all_drop-All ((c, OnConflictBehavior.upsert) ∷ cs) h = absurd (ground arith)

module _ {Column : Type 0} (self : Acceleration Column) where
  -- An upsert is the answer only for the one conflict that is given.
  pub on_conflict-upsert :
      (column : Column)
      → on_conflict self ≡ ok (some (upsert_on column))
      → self.on_conflict ≡ (column, OnConflictBehavior.upsert) ∷ []
  unfolding on_conflict first_conflict
  on_conflict-upsert column h = ground arith

  -- All conflicts are dropped together only if two at least are given, each of them is to be
  -- dropped, and there are as many unique indexes and primary keys as there are conflicts.
  pub on_conflict-do_nothing_all :
      on_conflict self ≡ ok (some do_nothing_all)
      → (1 < length self.on_conflict)
        × (length (on_conflict_targets self) ≡ length self.on_conflict)
        × All (λ c. c.1 ≡ OnConflictBehavior.drop) self.on_conflict
  unfolding on_conflict first_conflict
  on_conflict-do_nothing_all h =
      (ground arith, ground arith, all_drop-All self.on_conflict (ground arith))
