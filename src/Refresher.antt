-- ===== src/Refresher.antt =====
-- crates/runtime/src/accelerated_table/refresh.rs (the loop of `Refresher::start`) and
-- refresh_task_runner.rs (the loop of `RefreshTaskRunner::start`): two tasks and three channels.
--
-- Every channel is `mpsc::channel(1)`: it holds one message at most, and a `send` on a full one
-- waits. A step is one `select!` branch up to its next wait, or a send that goes through. The
-- counters `ready`, `refreshed`, `runs` and `triggers` record the history.
pub mod Channels
pub mod Schedule
pub mod Ready
pub mod Progress
pub mod Deadlock
use spiceai.Prelude.{ℕ, ◌+◌, ◌<◌, Bool, true, false, Option, none, some, ◌≡◌}
use spiceai.Prelude.Result.{Result, ok, err}

-- What the task of `RefreshTaskRunner` does: it waits for a start, it runs `refresh_task.run()`,
-- or it waits for room to send the completion.
pub data Runner (E : Type 0) : Type 0 where
  idle : Runner E
  running : Runner E
  notifying : Result E Unit → Runner E

-- What the task of `Refresher` does: it waits in its `select!`, or for room to send a start.
pub data Loop : Type 0 where
  selecting sending : Loop

-- `refresh_check_interval` and `max_jitter`, as read before the loop, in nanoseconds.
pub record Config : Type 0 where
  pub check_interval : Option ℕ
  pub max_jitter : Option ℕ

pub record State (E : Type 0) : Type 0 where
  pub runner : Runner E
  pub loop : Loop
  -- `start_refresh`: a message is in it.
  pub start_refresh : Bool
  pub on_refresh_complete : Option (Result E Unit)
  -- `on_start_refresh_external`: a message is in it.
  pub external : Bool
  pub next_scheduled_refresh_timer : Option ℕ
  -- The oneshot sender is still there.
  pub ready_sender : Bool
  pub ready : ℕ
  pub refreshed : ℕ
  pub runs : ℕ
  pub triggers : ℕ

-- `compute_delay`, with the random draw as an argument.
unfoldable pub compute_delay : ℕ → Option ℕ → ℕ → ℕ
compute_delay period (some max_jitter) jitter = period + jitter
compute_delay period none jitter = period

-- What `gen_range(0..max_jitter)` may give.
abbrev pub IsDraw : Option ℕ → ℕ → Type 0
IsDraw none jitter = Unit
IsDraw (some max_jitter) jitter = jitter < max_jitter

-- The timer that is set behind a completion.
unfoldable pub reschedule : Config → ℕ → Option ℕ
reschedule config jitter = elim config.check_interval [
  | none ↦ none
  | some interval ↦ some (compute_delay interval config.max_jitter jitter)
]

module _ {E : Type 0} where
  unfoldable pub start : Config → ℕ → State E
  start config jitter = record {
    runner = idle;
    loop = selecting;
    start_refresh = false;
    on_refresh_complete = none;
    external = false;
    next_scheduled_refresh_timer = some (compute_delay 0 config.max_jitter jitter);
    ready_sender = true;
    ready = 0;
    refreshed = 0;
    runs = 0;
    triggers = 0;
  }

  -- `notify_refresh_done`: the sender is taken, and used once.
  unfoldable pub notify_refresh_done : State E → State E
  notify_refresh_done s = elim s.ready_sender [
    | true ↦ record s { ready_sender = false; ready = s.ready + 1 }
    | false ↦ s
  ]

  -- The branch of `on_refresh_complete.recv()`.
  unfoldable pub on_complete : Config → ℕ → Result E Unit → State E → State E
  on_complete config jitter (ok _) s =
      let done = notify_refresh_done s in
      record done {
        on_refresh_complete = none;
        refreshed = done.refreshed + 1;
        next_scheduled_refresh_timer = reschedule config jitter;
      }
  on_complete config jitter (err _) s = record s {
    on_refresh_complete = none;
    next_scheduled_refresh_timer = reschedule config jitter;
  }

  -- A start is received: `task_completion = Some(Box::pin(refresh_task.run()))`, in place of the
  -- task that ran, if one did.
  unfoldable pub on_start : State E → State E
  on_start s = record s { runner = running; start_refresh = false; runs = s.runs + 1 }

  -- The timer that `take` moved into the future is gone, whichever branch is taken.
  unfoldable pub on_timer : State E → State E
  on_timer s = record s { loop = sending; next_scheduled_refresh_timer = none }

  unfoldable pub on_external : State E → State E
  on_external s = record s { loop = sending; next_scheduled_refresh_timer = none; external = false }

  -- The first four are of the loop in refresh.rs, `first_start` to `sent_complete` of the loop in
  -- refresh_task_runner.rs, and the last is a request by `AcceleratedTable::trigger_refresh`.
  pub data Step (config : Config) : State E → State E → Type 0 where
    timer :
        (s : State E) (delay : ℕ)
        → s.loop ≡ selecting
        → s.next_scheduled_refresh_timer ≡ some delay
        → Step config s (on_timer s)
    external_start :
        (s : State E) → s.loop ≡ selecting → s.external ≡ true → Step config s (on_external s)
    complete :
        (s : State E) (res : Result E Unit) (jitter : ℕ)
        → s.loop ≡ selecting
        → s.on_refresh_complete ≡ some res
        → IsDraw config.max_jitter jitter
        → Step config s (on_complete config jitter res s)
    sent_start :
        (s : State E)
        → s.loop ≡ sending
        → s.start_refresh ≡ false
        → Step config s (record s { loop = selecting; start_refresh = true })
    first_start :
        (s : State E) → s.runner ≡ idle → s.start_refresh ≡ true → Step config s (on_start s)
    start_again :
        (s : State E) → s.runner ≡ running → s.start_refresh ≡ true → Step config s (on_start s)
    ran :
        (s : State E) (res : Result E Unit)
        → s.runner ≡ running
        → Step config s (record s { runner = notifying res })
    sent_complete :
        (s : State E) (res : Result E Unit)
        → s.runner ≡ notifying res
        → s.on_refresh_complete ≡ none
        → Step config s (record s { runner = idle; on_refresh_complete = some res })
    trigger_refresh :
        (s : State E)
        → s.external ≡ false
        → Step config s (record s { external = true; triggers = s.triggers + 1 })

  pub data Steps (config : Config) (s : State E) : State E → Type 0 where
    here : Steps config s s
    next : {t u : State E} → Steps config s t → Step config t u → Steps config s u

  abbrev pub Reachable : Config → State E → Type 0
  Reachable config s =
      (jitter : ℕ) × IsDraw config.max_jitter jitter × Steps config (start config jitter) s
