-- ===== src/Refresher/Schedule.antt =====
-- The refresh schedule: what keeps it going, and where it stops.
use spiceai.Prelude.{ℕ, ◌+◌, ◌≤◌, Bool, true, false, Option, none, some, ◌≡◌, refl, ap, ◌∙◌, arith}
use spiceai.Prelude.Result.{Result, ok, err}
use spiceai.Refresher.{
  Runner, idle, running, notifying, Loop, selecting, sending, Config, State, reschedule, start,
  notify_refresh_done, on_complete, on_start, on_timer, on_external, Step, timer, external_start,
  complete, sent_start, first_start, start_again, ran, sent_complete, trigger_refresh, Steps, here,
  next, Reachable,
}

unfoldable pub in_runner : {E : Type 0} → Runner E → ℕ
in_runner idle = 0
in_runner running = 1
in_runner (notifying res) = 1

unfoldable pub in_loop : Loop → ℕ
in_loop selecting = 0
in_loop sending = 1

unfoldable pub in_start : Bool → ℕ
in_start true = 1
in_start false = 0

unfoldable pub in_option : {A : Type 0} → Option A → ℕ
in_option none = 0
in_option (some a) = 1

-- Where the next refresh is: a timer, a start underway, a task, or its completion underway.
unfoldable pub pending : {E : Type 0} → State E → ℕ
pending s =
    in_option s.next_scheduled_refresh_timer
    + in_loop s.loop
    + in_start s.start_refresh
    + in_runner s.runner
    + in_option s.on_refresh_complete

in_option-reschedule :
    (config : Config) (interval jitter : ℕ)
    → config.check_interval ≡ some interval
    → in_option (reschedule config jitter) ≡ 1
unfolding reschedule in_option
in_option-reschedule config interval jitter h = rw h refl

module _ {E : Type 0} (config : Config) (interval : ℕ)
    (periodic : config.check_interval ≡ some interval) where
  on_complete-pending :
      (jitter : ℕ) (res : Result E Unit) (s : State E)
      → pending (on_complete config jitter res s)
        ≡ 1 + in_loop s.loop + in_start s.start_refresh + in_runner s.runner
  unfolding on_complete notify_refresh_done pending in_option
  on_complete-pending jitter (ok u) s =
      grind (arith, in_option-reschedule config interval jitter periodic)
  on_complete-pending jitter (err e) s =
      omega (arith, in_option-reschedule config interval jitter periodic)

  Step-pending : {s t : State E} → Step config s t → 1 ≤ pending s → 1 ≤ pending t
  unfolding pending in_loop in_start in_option in_runner on_timer on_external on_start
  Step-pending (timer s d h k) p = omega arith
  Step-pending (external_start s h k) p = omega arith
  Step-pending (complete s res jitter h k j) p = omega (arith, on_complete-pending jitter res s)
  Step-pending (sent_start s h k) p = omega arith
  Step-pending (first_start s h k) p = omega arith
  Step-pending (start_again s h k) p = omega arith
  Step-pending (ran s res h) p = omega arith
  Step-pending (sent_complete s res h k) p = omega arith
  Step-pending (trigger_refresh s h) p = p

  Steps-pending : {s t : State E} → 1 ≤ pending s → Steps config s t → 1 ≤ pending t
  Steps-pending p here = p
  Steps-pending p (next ss st) = Step-pending st (Steps-pending p ss)

  -- With a check interval, the schedule is never lost: in every state that is reached, a timer is
  -- set, a start or a completion is on its way, or the task of a refresh is there.
  pub Reachable-pending : {s : State E} → Reachable config s → 1 ≤ pending s
  unfolding pending start in_option in_loop in_start in_runner
  Reachable-pending (jitter, d, ss) = Steps-pending (omega arith) ss

  -- Until somebody asks for a refresh, the next refresh is in one place.
  abbrev pub IsSingle : State E → Type 0
  IsSingle s = s.triggers ≡ 0 → (s.external ≡ false) × (pending s ≡ 1)

  on_complete-same :
      (jitter : ℕ) (res : Result E Unit) (s : State E)
      → ((on_complete config jitter res s).triggers ≡ s.triggers)
        × ((on_complete config jitter res s).external ≡ s.external)
  unfolding on_complete notify_refresh_done
  on_complete-same jitter (ok u) s = grind arith
  on_complete-same jitter (err e) s = (refl, refl)

  Step-IsSingle : {s t : State E} → Step config s t → IsSingle s → IsSingle t
  unfolding pending in_loop in_start in_option in_runner on_timer on_external on_start
  Step-IsSingle (timer s d h k) p n =
      ((p n).0, omega (arith, (p n).1, ap in_loop h, ap in_option k))
  Step-IsSingle (external_start s h k) p n = absurd (ground (arith, p n))
  Step-IsSingle (complete s res jitter h k j) p n =
      let (same, ext) = on_complete-same jitter res s in
      let (x, y) = p (omega (arith, n, same)) in
      (ext ∙ x, omega (arith, on_complete-pending jitter res s, y, ap in_loop h, ap in_option k))
  Step-IsSingle (sent_start s h k) p n =
      ((p n).0, omega (arith, (p n).1, ap in_loop h, ap in_start k))
  Step-IsSingle (first_start s h k) p n =
      ((p n).0, omega (arith, (p n).1, ap in_runner h, ap in_start k))
  Step-IsSingle (start_again s h k) p n =
      absurd (omega (arith, (p n).1, ap in_runner h, ap in_start k))
  Step-IsSingle (ran s res h) p n = ((p n).0, omega (arith, (p n).1, ap in_runner h))
  Step-IsSingle (sent_complete s res h k) p n =
      ((p n).0, omega (arith, (p n).1, ap in_runner h, ap in_option k))
  Step-IsSingle (trigger_refresh s h) p n = absurd (omega (arith, n))

  Steps-IsSingle : {s t : State E} → IsSingle s → Steps config s t → IsSingle t
  Steps-IsSingle p here = p
  Steps-IsSingle p (next ss st) = Step-IsSingle st (Steps-IsSingle p ss)

  pub Reachable-IsSingle : {s : State E} → Reachable config s → IsSingle s
  unfolding pending start in_option in_loop in_start in_runner
  Reachable-IsSingle (jitter, d, ss) = Steps-IsSingle (λ n. (refl, refl)) ss
