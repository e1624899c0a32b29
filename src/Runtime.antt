-- ===== src/Runtime.antt =====
-- crates/runtime/src/lib.rs: which components are loaded, updated and removed when the Spicepods
-- change (`start_pods_watcher`).
--
-- Catalogs, datasets and models go through the same comparison; `Kind` is what differs: how a
-- component is named and converted, when two are the same, and whether those that are gone are
-- removed, which catalogs are not. What the loading of a component does is not modelled.
pub mod Datasets
pub mod Loaded
pub mod Converges
use spiceai.Prelude.{Bool, true, false, not, ◌&&◌, Option, none, some, List, [], ◌∷◌, ◌++◌}
use spiceai.Prelude.Lists.{any, find}
use spiceai.Prelude.Tests.{if◌then◌else◌}

-- A component of a Spicepod (`Raw`), of the runtime (`Component`), and its name.
pub record Kind (Raw Component Name : Type 0) : Type 0 where
  pub convert : Raw → Option Component
  pub name : Component → Name
  pub same_raw_name : Raw → Raw → Bool
  pub same_name : Name → Name → Bool
  pub same : Component → Component → Bool
  pub removes : Bool

pub data Action (Component : Type 0) : Type 0 where
  load update remove : Component → Action Component

module _ {Raw Component Name : Type 0} (kind : Kind Raw Component Name) where
  -- `get_valid_datasets` and `get_valid_catalogs`
  unfoldable pub valid : List Raw → List Component
  valid [] = []
  valid (raw ∷ raws) =
      let rest = valid raws in elim (kind.convert raw) [ none ↦ rest | some c ↦ c ∷ rest ]

  -- `iter().find(|c| c.name == name)`
  unfoldable pub by_name : Name → List Component → Option Component
  by_name n = find (λ c. kind.same_name (kind.name c) n)

  -- One pass of the loop over the new components.
  unfoldable pub change_of : List Component → Component → List (Action Component)
  change_of existing c = elim (by_name (kind.name c) existing) [
    | none ↦ load c ∷ []
    | some current ↦ if not (kind.same c current) then update c ∷ [] else []
  ]

  unfoldable pub changes : List Component → List Component → List (Action Component)
  changes existing [] = []
  changes existing (c ∷ cs) = change_of existing c ++ changes existing cs

  -- One pass of the loop over the old components.
  unfoldable pub removal_of : List Raw → Raw → List (Action Component)
  removal_of new raw =
      if not (any (λ r. kind.same_raw_name r raw) new)
      then elim (kind.convert raw) [ none ↦ [] | some c ↦ remove c ∷ [] ]
      else []

  unfoldable pub removals : List Raw → List Raw → List (Action Component)
  removals new [] = []
  removals new (raw ∷ raws) = removal_of new raw ++ removals new raws

  -- What is done for a kind, from the current app and the new one.
  unfoldable pub apply_diff : List Raw → List Raw → List (Action Component)
  apply_diff current new =
      changes (valid current) (valid new) ++ (if kind.removes then removals new current else [])
