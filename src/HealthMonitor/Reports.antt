-- ===== src/HealthMonitor/Reports.antt =====
-- What the health monitor reports, in every interleaving of its tasks with the registrations:
-- crates/runtime/src/datasets_health_monitor.rs.
use spiceai.Prelude.{
  ℕ, ◌-◌, ◌/◌, ◌≤◌, ◌<◌, Bool, true, false, Option, none, some, List, [], ◌∷◌, ◌++◌, ◌≡◌, refl,
  subst, arith,
}
use spiceai.Prelude.Lists.{All, Member, All-Member}
use spiceai.Prelude.Tests.{if◌then◌else◌, ltb}
use spiceai.Prelude.Result.{Result, ok, err, bind-ok, ok-injective}
use spiceai.Prelude.Text.{Text, ◌==◌}
use spiceai.Dataset.{TableReference, Dataset, is_accelerated}
use spiceai.ExecutionPlan.{TableProvider}
use spiceai.HealthMonitor.{
  DatasetAvailabilityInfo, Monitor, dataset_unavailable_threshold_seconds, remove, insert,
  report_dataset_unavailable_time, update_dataset_availability_info, is_overdue,
  datasets_for_availability_check, deregister_dataset, register_table, register_dataset,
  verification, test_connectivity, verify,
}

-- The clock, the monitor, and the tasks of the current round that are not done.
pub record State (Table : Type 0) : Type 0 where
  pub now : ℕ
  pub monitor : Monitor Table
  pub tasks : List (DatasetAvailabilityInfo Table)

module _ {Table : Type 0} where
  -- `start`: nothing is monitored.
  abbrev pub new : ℕ → State Table
  new now = record {
    now = now;
    monitor = record { monitored_datasets = []; unavailable_time = [] };
    tasks = [];
  }

module _ (Column Embedding App Field Batch Expr E : Type 0) {Table : Type 0}
    (to_string : TableReference → Text) where
  -- A round starts when the tasks of the last one are done; they run in any order.
  pub data Reachable (start : ℕ) : State Table → Type 1 where
    started : Reachable start (new start)
    passes :
        (s : State Table) (later : ℕ)
        → s.now ≤ later
        → Reachable start s
        → Reachable start (record s { now = later })
    registers :
        (s : State Table) (monitor : Monitor Table) (dataset : Dataset Column Embedding App)
        (get_table_provider : TableReference → Result E Table)
        → register_dataset to_string get_table_provider s.now dataset s.monitor ≡ ok monitor
        → Reachable start s
        → Reachable start (record s { monitor = monitor })
    deregisters :
        (s : State Table) (name : Text)
        → Reachable start s
        → Reachable start (record s { monitor = deregister_dataset name s.monitor })
    checks :
        (s : State Table)
        → s.tasks ≡ []
        → Reachable start s
        → Reachable start (record s {
          tasks = datasets_for_availability_check s.now s.monitor.monitored_datasets;
        })
    verifies :
        (s : State Table) (before after : List (DatasetAvailabilityInfo Table))
        (item : DatasetAvailabilityInfo Table) (table : TableProvider Field Batch Expr E)
        → s.tasks ≡ before ++ (item ∷ after)
        → Reachable start s
        → Reachable start
            (record s { monitor = verify s.now item table s.monitor; tasks = before ++ after })

-- More than ten minutes have passed.
abbrev pub IsOverdue : ℕ → ℕ → Type 0
IsOverdue now time = ltb dataset_unavailable_threshold_seconds ((now - time) / 1000000000) ≡ true

abbrev pub IsJust : ℕ → Option ℕ → Type 0
IsJust now none = Unit
IsJust now (some time) = IsOverdue now time

IsOverdue-later : (now later time : ℕ) → now ≤ later → IsOverdue now time → IsOverdue later time
IsOverdue-later now later time le h = ground (arith, le, h)

IsJust-later : (now later : ℕ) (time : Option ℕ) → now ≤ later → IsJust now time → IsJust later time
IsJust-later now later none le h = tt
IsJust-later now later (some time) le h = IsOverdue-later now later time le h

module _ {A : Type 0} where
  All-mono : (P Q : A → Type 0) → ((x : A) → P x → Q x) → (xs : List A) → All P xs → All Q xs
  All-mono P Q f [] h = tt
  All-mono P Q f (x ∷ xs) h = (f x h.0, All-mono P Q f xs h.1)

  -- One element, and the others.
  All-split :
      (P : A → Type 0) (before after : List A) (x : A)
      → All P (before ++ (x ∷ after))
      → P x × All P (before ++ after)
  All-split P [] after x h = h
  All-split P (y ∷ before) after x h =
      let (px, rest) = All-split P before after x h.1 in (px, (h.0, rest))

-- What holds of both branches, each under its test, holds of the conditional.
if-cases :
    {A : Type 0} (Q : A → Type 0) (b : Bool) (x y : A)
    → (b ≡ true → Q x)
    → (b ≡ false → Q y)
    → Q (if b then x else y)
if-cases Q true x y f g = f refl
if-cases Q false x y f g = g refl

module _ {V : Type 0} (P : V → Type 0) where
  remove-All :
      (key : Text) (entries : List (Text × V))
      → All (λ e. P e.1) entries
      → All (λ e. P e.1) (remove key entries)
  unfolding remove
  remove-All key [] h = tt
  remove-All key (entry ∷ entries) h =
      let rest = remove-All key entries h.1 in
      if-cases (All (λ e. P e.1)) (entry.0 == key) (remove key entries) (entry ∷ remove key entries)
        (λ _. rest) (λ _. (h.0, rest))

  insert-All :
      (key : Text) (value : V) (entries : List (Text × V))
      → P value
      → All (λ e. P e.1) entries
      → All (λ e. P e.1) (insert key value entries)
  unfolding insert
  insert-All key value entries p h = (p, remove-All key entries h)

module _ {Table : Type 0} where
  datasets_for_availability_check-All :
      (now : ℕ) (entries : List (Text × DatasetAvailabilityInfo Table))
      → All (λ i. IsOverdue now i.last_available_time) (datasets_for_availability_check now entries)
  unfolding datasets_for_availability_check is_overdue
  datasets_for_availability_check-All now [] = tt
  datasets_for_availability_check-All now (entry ∷ entries) =
      let rest = datasets_for_availability_check-All now entries in
      if-cases (All (λ i. IsOverdue now i.last_available_time)) (is_overdue now entry.1)
        (entry.1 ∷ datasets_for_availability_check now entries)
        (datasets_for_availability_check now entries) (λ e. (e, rest)) (λ _. rest)

  -- A task that was started for a dataset that is overdue reports nothing else.
  verification-IsJust :
      {E : Type 0} (now : ℕ) (item : DatasetAvailabilityInfo Table) (r : Result E (Unit {0}))
      (self : Monitor Table)
      → IsOverdue now item.last_available_time
      → All (λ e. IsJust now e.1) self.unavailable_time
      → All
          (λ e. IsJust now e.1)
          (Monitor.unavailable_time
            (update_dataset_availability_info now item.name (verification item r) self))
  unfolding verification update_dataset_availability_info report_dataset_unavailable_time
  verification-IsJust now item (ok _) self overdue h =
      insert-All (IsJust now) item.name none self.unavailable_time tt h
  verification-IsJust now item (err _) self overdue h =
      insert-All (IsJust now) item.name (some item.last_available_time) self.unavailable_time
        overdue h

module _ {Column Embedding App Table E : Type 0} (to_string : TableReference → Text)
    (get_table_provider : TableReference → Result E Table) where
  register_dataset-IsJust :
      (now : ℕ) (dataset : Dataset Column Embedding App) (self monitor : Monitor Table)
      → All (λ e. IsJust now e.1) self.unavailable_time
      → register_dataset to_string get_table_provider now dataset self ≡ ok monitor
      → All (λ e. IsJust now e.1) monitor.unavailable_time
  unfolding register_dataset register_table report_dataset_unavailable_time
  register_dataset-IsJust now dataset self monitor h =
      if-cases (λ r. r ≡ ok monitor → All (λ e. IsJust now e.1) monitor.unavailable_time)
        (is_accelerated dataset) (ok self) _
        (λ _ eq.
          subst (λ m. All (λ e. IsJust now e.1) (Monitor.unavailable_time m))
            (ok-injective self monitor eq) h)
        (λ _ eq.
          let (table, _, eq') = bind-ok (get_table_provider dataset.name) _ monitor eq in
          subst (λ m. All (λ e. IsJust now e.1) (Monitor.unavailable_time m))
            (ok-injective _ monitor eq')
            (insert-All (IsJust now) (to_string dataset.name) none self.unavailable_time tt h))

-- The reports of the monitor and the tasks that may add to them.
abbrev pub IsTruthful : {Table : Type 0} → State Table → Type 0
IsTruthful s =
    All (λ i. IsOverdue s.now i.last_available_time) s.tasks
    × All (λ e. IsJust s.now e.1) s.monitor.unavailable_time

module _ (Column Embedding App Field Batch Expr E : Type 0) {Table : Type 0}
    (to_string : TableReference → Text) where
  Reachable-IsTruthful :
      (start : ℕ) (s : State Table)
      → Reachable Column Embedding App Field Batch Expr E to_string start s
      → IsTruthful s
  unfolding deregister_dataset verify
  Reachable-IsTruthful start _ started = (tt, tt)
  Reachable-IsTruthful start _ (passes s later le r) =
      let (t, h) = Reachable-IsTruthful start s r in
      (
        All-mono _ (λ i. IsOverdue later i.last_available_time)
            (λ i. IsOverdue-later s.now later i.last_available_time le) s.tasks t,
        All-mono _ (λ e. IsJust later e.1) (λ e. IsJust-later s.now later e.1 le)
            s.monitor.unavailable_time h,
      )
  Reachable-IsTruthful start _ (registers s monitor dataset get eq r) =
      let (t, h) = Reachable-IsTruthful start s r in
      (t, register_dataset-IsJust to_string get s.now dataset s.monitor monitor h eq)
  Reachable-IsTruthful start _ (deregisters s name r) = Reachable-IsTruthful start s r
  Reachable-IsTruthful start _ (checks s e r) = (
    datasets_for_availability_check-All s.now s.monitor.monitored_datasets,
    (Reachable-IsTruthful start s r).1,
  )
  Reachable-IsTruthful start _ (verifies s before after item table e r) =
      let (t, h) = Reachable-IsTruthful start s r in
      let (o, rest) = All-split _ before after item (subst (All _) e t) in
      (rest, verification-IsJust s.now item (test_connectivity table) s.monitor o h)

  -- Whenever the last report for a dataset is that it is unavailable since a time, more than ten
  -- minutes have passed since that time, however the rounds of checks, their tasks and the
  -- registrations of datasets interleave, if the clock does not run backwards.
  pub Reachable-reported :
      (start : ℕ) (s : State Table) (name : Text) (time : ℕ)
      → Reachable Column Embedding App Field Batch Expr E to_string start s
      → Member (name, some time) s.monitor.unavailable_time
      → 600 < (s.now - time) / 1000000000
  Reachable-reported start s name time r m =
      let overdue =
        All-Member _ (name, some time) s.monitor.unavailable_time (Reachable-IsTruthful start s r).1
          m in
      ground (arith, overdue)
