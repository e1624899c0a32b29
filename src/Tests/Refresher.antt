-- ===== src/Tests/Refresher.antt =====
-- The theorems on the refresh tasks at concrete inputs: a refresh every minute with a jitter of at
-- most five seconds.
use spiceai.Prelude.{ℕ, ◌≤◌, ◌⊎◌, true, none, some, ◌≡◌, refl, arith}
use spiceai.Prelude.Text.{Text, codes}
use spiceai.Prelude.Result.{ok, err}
use spiceai.Refresh.{Refresh, full}
use spiceai.Refresher.{
  Config, State, start, compute_delay, on_timer, on_external, trigger_refresh as request, timer,
  Steps, here, next, Reachable,
}
use spiceai.Refresher.Schedule.{pending, Reachable-pending}
use spiceai.Refresher.Progress.{Moves, IsDeadlocked, IsQuiet, progress}
use spiceai.Refresher.Ready.{IsReady, Reachable-IsReady}
use spiceai.Refresher.Deadlock.{deadlock, Steps-IsDeadlocked, stuck, stuck-IsDeadlocked, triggered}

abbrev minute : ℕ
minute = 60_000_000_000

abbrev config : Config
config = record { check_interval = some minute; max_jitter = some 5_000_000_000 }

abbrev begun : State Text
begun = start config 7

abbrev fired : State Text
fired = on_timer begun

fired-Reachable : Reachable config fired
unfolding start compute_delay
fired-Reachable = (7, omega arith, next here (timer begun 7 refl refl))

Reachable-pending_example : 1 ≤ pending fired
Reachable-pending_example = Reachable-pending config minute refl fired-Reachable

Reachable-IsReady_example : IsReady config fired
Reachable-IsReady_example = Reachable-IsReady config fired-Reachable

progress_example : Moves config fired ⊎ (IsDeadlocked fired ⊎ IsQuiet fired)
progress_example = progress config fired 3 (omega arith)

deadlock_example : (s : State Text) × Reachable config s × IsDeadlocked s
deadlock_example = deadlock config (ok tt) (err (codes "offline")) 7 (omega arith)

abbrev dead : State Text
dead = stuck config (ok tt) (err (codes "offline")) 7

abbrev dead_triggered : State Text
dead_triggered = triggered config (ok tt) (err (codes "offline")) dead

dead-Steps : Steps config dead dead_triggered
unfolding on_external
dead-Steps = next here (request dead refl)

Steps-IsDeadlocked_example : IsDeadlocked dead_triggered × (dead_triggered.runs ≡ dead.runs)
Steps-IsDeadlocked_example =
    Steps-IsDeadlocked config (stuck-IsDeadlocked config (ok tt) (err (codes "offline")) 7)
      dead-Steps

abbrev settings : Refresh
settings = record {
  time_column = none;
  time_format = none;
  check_interval = some minute;
  max_jitter = none;
  sql = none;
  mode = full;
  period = none;
  append_overlap = none;
  refresh_retry_enabled = true;
  refresh_retry_max_attempts = none;
}

abbrev channel : ℕ
channel = 5
