-- ===== src/Refresher/Deadlock.antt =====
-- A deadlock of the refresh tasks: each waits for the other to take a message.
use spiceai.Prelude.{ℕ, ◌+◌, true, some, ◌≡◌, refl, sym, ap, ◌∙◌, arith}
use spiceai.Prelude.Result.{Result}
use spiceai.Refresher.{
  idle, notifying, selecting, Config, State, IsDraw, start, on_start, on_timer, on_external, Step,
  timer, external_start, complete, sent_start, first_start, start_again, ran, sent_complete,
  trigger_refresh, Steps, here, next, Reachable,
}
use spiceai.Refresher.Schedule.{in_runner, in_loop, in_start, in_option}
use spiceai.Refresher.Progress.{IsDeadlocked}

module _ {E : Type 0} (config : Config) where
  Step-IsDeadlocked :
      {s t : State E} → Step config s t → IsDeadlocked s → IsDeadlocked t × (t.runs ≡ s.runs)
  unfolding in_loop in_start in_option in_runner
  Step-IsDeadlocked (timer s d h k) x =
      absurd (omega (arith, ap in_loop h, ap in_loop x.waits_start))
  Step-IsDeadlocked (external_start s h k) x =
      absurd (omega (arith, ap in_loop h, ap in_loop x.waits_start))
  Step-IsDeadlocked (complete s res jitter h k j) x =
      absurd (omega (arith, ap in_loop h, ap in_loop x.waits_start))
  Step-IsDeadlocked (sent_start s h k) x =
      absurd (omega (arith, ap in_start k, ap in_start x.full_start))
  Step-IsDeadlocked (first_start s h k) x =
      absurd (omega (arith, ap in_runner h, ap in_runner x.waits_complete))
  Step-IsDeadlocked (start_again s h k) x = absurd (grind (arith, sym h ∙ x.waits_complete))
  Step-IsDeadlocked (ran s res h) x = absurd (grind (arith, sym h ∙ x.waits_complete))
  Step-IsDeadlocked (sent_complete s res h k) x =
      absurd (omega (arith, ap in_option k, ap in_option x.full_complete))
  Step-IsDeadlocked (trigger_refresh s h) x = (
    record {
      res = x.res;
      res' = x.res';
      full_complete = x.full_complete;
      waits_complete = x.waits_complete;
      full_start = x.full_start;
      waits_start = x.waits_start;
    },
    refl,
  )

  -- Behind a deadlock there is only a deadlock, whatever requests come, and no refresh is started.
  pub Steps-IsDeadlocked :
      {s t : State E} → IsDeadlocked s → Steps config s t → IsDeadlocked t × (t.runs ≡ s.runs)
  Steps-IsDeadlocked d here = (d, refl)
  Steps-IsDeadlocked d (next ss st) =
      let (x, e) = Steps-IsDeadlocked d ss in let (y, f) = Step-IsDeadlocked st x in (y, f ∙ e)

module _ {E : Type 0} (config : Config) (res res' : Result E Unit) where
  -- A step to come, with the state that it leads to.
  abbrev pub sent_start_of : State E → State E
  sent_start_of s = record s { loop = selecting; start_refresh = true }

  abbrev pub triggered : State E → State E
  triggered s = record s { external = true; triggers = s.triggers + 1 }

  -- A start is sent and received, and the task ends with the result.
  abbrev pub run_of : Result E Unit → State E → State E
  run_of r s = record (on_start s) { runner = notifying r }

  abbrev pub stuck : ℕ → State E
  stuck jitter =
      let first = run_of res (sent_start_of (on_timer (start config jitter))) in
      let told = record first { runner = idle; on_refresh_complete = some res } in
      let second = run_of res' (sent_start_of (on_external (triggered told))) in
      on_external (triggered (sent_start_of (on_external (triggered second))))

  stuck-Steps : (jitter : ℕ) → Steps config (start config jitter) (stuck jitter)
  unfolding start on_timer on_external on_start
  stuck-Steps jitter =
      let s1 = on_timer (start {E = E} config jitter) in
      let s2 = sent_start_of s1 in
      let s3 = on_start s2 in
      let s4 = run_of res s2 in
      let s5 = record s4 { runner = idle; on_refresh_complete = some res } in
      let s6 = triggered s5 in
      let s7 = on_external s6 in
      let s8 = sent_start_of s7 in
      let s9 = on_start s8 in
      let s10 = run_of res' s8 in
      let s11 = triggered s10 in
      let s12 = on_external s11 in
      let s13 = sent_start_of s12 in
      let s14 = triggered s13 in
      let r4 =
        next
          (next
            (next (next here (timer (start config jitter) _ refl refl)) (sent_start s1 refl refl))
            (first_start s2 refl refl))
          (ran s3 res refl) in
      let r8 =
        next
          (next (next (next r4 (sent_complete s4 res refl refl)) (trigger_refresh s5 refl))
            (external_start s6 refl refl))
          (sent_start s7 refl refl) in
      let r12 =
        next
          (next (next (next r8 (first_start s8 refl refl)) (ran s9 res' refl))
            (trigger_refresh s10 refl))
          (external_start s11 refl refl) in
      next (next (next r12 (sent_start s12 refl refl)) (trigger_refresh s13 refl))
        (external_start s14 refl refl)

  pub stuck-IsDeadlocked : (jitter : ℕ) → IsDeadlocked (stuck jitter)
  unfolding on_external on_start
  stuck-IsDeadlocked jitter = record {
    res = res';
    res' = res;
    full_complete = refl;
    waits_complete = refl;
    full_start = refl;
    waits_start = refl;
  }

  -- For any two results of the task, and any first jitter that can be drawn: a state is reached in
  -- which the runner waits for room to send a completion, and the loop for room to send a start.
  pub deadlock :
      (jitter : ℕ)
      → IsDraw config.max_jitter jitter
      → (s : State E) × Reachable config s × IsDeadlocked s
  deadlock jitter draw =
      (stuck jitter, (jitter, draw, stuck-Steps jitter), stuck-IsDeadlocked jitter)
