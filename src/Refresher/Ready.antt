-- ===== src/Refresher/Ready.antt =====
-- When the dataset is marked ready, and how many refreshes that takes.
use spiceai.Prelude.{ℕ, zero, suc, ◌+◌, ◌≤◌, some, ◌≡◌, refl, ap, arith}
use spiceai.Prelude.Result.{Result, ok, err}
use spiceai.Refresher.{
  Config, State, start, notify_refresh_done, on_complete, on_start, on_timer, on_external, Step,
  timer, external_start, complete, sent_start, first_start, start_again, ran, sent_complete,
  trigger_refresh, Steps, here, next, Reachable,
}
use spiceai.Refresher.Schedule.{in_runner, in_start, in_option}

unfoldable pub at_most_one : ℕ → ℕ
at_most_one zero = 0
at_most_one (suc n) = 1

at_most_one-add : (n : ℕ) → at_most_one (n + 1) ≡ 1
unfolding at_most_one
at_most_one-add n = ap at_most_one {y = suc n} (omega arith)

module _ {E : Type 0} (config : Config) where
  -- The signal has been given once a refresh is known to be done, and once only; each refresh that
  -- is done, or underway, has been a run of the task.
  pub record IsReady (s : State E) : Type 0 where
    pub signal : s.ready ≡ at_most_one s.refreshed
    pub sender : s.ready + in_start s.ready_sender ≡ 1
    pub run : s.refreshed + in_option s.on_refresh_complete + in_runner s.runner ≤ s.runs

  on_complete-IsReady :
      (jitter : ℕ) (res : Result E Unit) (s : State E)
      → s.on_refresh_complete ≡ some res
      → IsReady s
      → IsReady (on_complete config jitter res s)
  unfolding on_complete notify_refresh_done at_most_one in_option in_start
  on_complete-IsReady jitter (ok u) s h r = record {
    signal = grind (arith, r.sender, at_most_one-add s.refreshed);
    sender = grind (arith, r.sender);
    run = grind (arith, r.run, ap in_option h);
  }
  on_complete-IsReady jitter (err e) s h r = record {
    signal = r.signal;
    sender = r.sender;
    run = omega (arith, r.run, ap in_option h);
  }

  Step-IsReady : {s t : State E} → Step config s t → IsReady s → IsReady t
  unfolding in_start in_option in_runner on_timer on_external on_start
  Step-IsReady (timer s d h k) r = record { signal = r.signal; sender = r.sender; run = r.run }
  Step-IsReady (external_start s h k) r = record {
    signal = r.signal;
    sender = r.sender;
    run = r.run;
  }
  Step-IsReady (complete s res jitter h k j) r = on_complete-IsReady jitter res s k r
  Step-IsReady (sent_start s h k) r = record { signal = r.signal; sender = r.sender; run = r.run }
  Step-IsReady (first_start s h k) r = record {
    signal = r.signal;
    sender = r.sender;
    run = omega (arith, r.run, ap in_runner h);
  }
  Step-IsReady (start_again s h k) r = record {
    signal = r.signal;
    sender = r.sender;
    run = omega (arith, r.run, ap in_runner h);
  }
  Step-IsReady (ran s res h) r = record {
    signal = r.signal;
    sender = r.sender;
    run = omega (arith, r.run, ap in_runner h);
  }
  Step-IsReady (sent_complete s res h k) r = record {
    signal = r.signal;
    sender = r.sender;
    run = omega (arith, r.run, ap in_runner h, ap in_option k);
  }
  Step-IsReady (trigger_refresh s h) r = record {
    signal = r.signal;
    sender = r.sender;
    run = r.run;
  }

  Steps-IsReady : {s t : State E} → IsReady s → Steps config s t → IsReady t
  Steps-IsReady r here = r
  Steps-IsReady r (next ss st) = Step-IsReady st (Steps-IsReady r ss)

  -- In every state that is reached, the signal that the dataset is ready has been given once if a
  -- successful completion was received, and else not at all; the sender is there until it is given;
  -- and each refresh that is completed or underway has been a run of the task.
  pub Reachable-IsReady : {s : State E} → Reachable config s → IsReady s
  unfolding start at_most_one in_start in_option in_runner
  Reachable-IsReady (jitter, d, ss) =
      Steps-IsReady (record { signal = refl; sender = refl; run = omega arith }) ss
