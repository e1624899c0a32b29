-- ===== src/Refresher/Progress.antt =====
-- How the refresh tasks go on, and where they cannot.
use spiceai.Prelude.{ℕ, Bool, true, false, Option, none, some, ◌≡◌, ◌⊎◌, inl, inr, refl, ap, arith}
use spiceai.Prelude.Result.{Result, ok, err}
use spiceai.Refresher.{
  Runner, idle, running, notifying, Loop, selecting, sending, Config, State, IsDraw,
  notify_refresh_done, on_complete, on_start, on_timer, on_external, Step, timer, external_start,
  complete, sent_start, first_start, start_again, ran, sent_complete, Reachable,
}
use spiceai.Refresher.Schedule.{
  in_runner, in_loop, in_start, in_option, pending, Reachable-IsSingle,
}

module _ {E : Type 0} where
  -- Both wait for room: the runner to send a completion, the loop to send a start.
  pub record IsDeadlocked (s : State E) : Type 0 where
    pub res : Result E Unit
    pub res' : Result E Unit
    pub full_complete : s.on_refresh_complete ≡ some res'
    pub waits_complete : s.runner ≡ notifying res
    pub full_start : s.start_refresh ≡ true
    pub waits_start : s.loop ≡ sending

  -- Nothing is to be done.
  pub record IsQuiet (s : State E) : Type 0 where
    pub no_task : s.runner ≡ idle
    pub waits : s.loop ≡ selecting
    pub no_start : s.start_refresh ≡ false
    pub no_complete : s.on_refresh_complete ≡ none
    pub no_timer : s.next_scheduled_refresh_timer ≡ none
    pub no_external : s.external ≡ false

  -- A step other than a trigger from outside.
  abbrev pub Moves : Config → State E → Type 0
  Moves config s = (t : State E) × Step config s t × (t.triggers ≡ s.triggers)

module _ {E : Type 0} (config : Config) (s : State E) (jitter : ℕ)
    (draw : IsDraw config.max_jitter jitter) where
  on_complete-triggers :
      (res : Result E Unit) → (on_complete config jitter res s).triggers ≡ s.triggers
  unfolding on_complete notify_refresh_done
  on_complete-triggers (ok u) = grind arith
  on_complete-triggers (err e) = refl

  sending-cases :
      (r : Runner E) (b : Bool) (c : Option (Result E Unit))
      → s.loop ≡ sending
      → s.runner ≡ r
      → s.start_refresh ≡ b
      → s.on_refresh_complete ≡ c
      → Moves config s ⊎ IsDeadlocked s
  unfolding on_start
  sending-cases r false c l hr hb hc =
      inl (record s { loop = selecting; start_refresh = true }, sent_start s l hb, refl)
  sending-cases idle true c l hr hb hc = inl (on_start s, first_start s hr hb, refl)
  sending-cases running true c l hr hb hc = inl (on_start s, start_again s hr hb, refl)
  sending-cases (notifying res) true none l hr hb hc =
      inl (
        record s { runner = idle; on_refresh_complete = some res },
        sent_complete s res hr hc,
        refl,
      )
  sending-cases (notifying res) true (some res') l hr hb hc = inr (record {
    res = res;
    res' = res';
    full_complete = hc;
    waits_complete = hr;
    full_start = hb;
    waits_start = l;
  })

  selecting-cases :
      (r : Runner E) (b : Bool) (c : Option (Result E Unit)) (x : Bool) (t : Option ℕ)
      → s.loop ≡ selecting
      → s.runner ≡ r
      → s.start_refresh ≡ b
      → s.on_refresh_complete ≡ c
      → s.external ≡ x
      → s.next_scheduled_refresh_timer ≡ t
      → Moves config s ⊎ IsQuiet s
  unfolding on_start on_timer on_external
  selecting-cases r b (some res) x t l hr hb hc hx ht =
      inl
        (on_complete config jitter res s, complete s res jitter l hc draw, on_complete-triggers res)
  selecting-cases r b none x (some d) l hr hb hc hx ht = inl (on_timer s, timer s d l ht, refl)
  selecting-cases r b none true none l hr hb hc hx ht =
      inl (on_external s, external_start s l hx, refl)
  selecting-cases running b none false none l hr hb hc hx ht =
      inl (record s { runner = notifying (ok tt) }, ran s (ok tt) hr, refl)
  selecting-cases (notifying res) b none false none l hr hb hc hx ht =
      inl (
        record s { runner = idle; on_refresh_complete = some res },
        sent_complete s res hr hc,
        refl,
      )
  selecting-cases idle true none false none l hr hb hc hx ht =
      inl (on_start s, first_start s hr hb, refl)
  selecting-cases idle false none false none l hr hb hc hx ht = inr (record {
    no_task = hr;
    waits = l;
    no_start = hb;
    no_complete = hc;
    no_timer = ht;
    no_external = hx;
  })

  progress_at : (l : Loop) → s.loop ≡ l → Moves config s ⊎ (IsDeadlocked s ⊎ IsQuiet s)
  progress_at selecting l =
      elim (selecting-cases s.runner s.start_refresh s.on_refresh_complete s.external
        s.next_scheduled_refresh_timer l refl refl refl refl refl) [
          | inl m ↦ inl m
          | inr q ↦ inr (inr q)
        ]
  progress_at sending l =
      elim (sending-cases s.runner s.start_refresh s.on_refresh_complete l refl refl refl) [
        | inl m ↦ inl m
        | inr d ↦ inr (inl d)
      ]

  -- Where the jitter can be drawn, every state goes on without a request from outside, or has both
  -- tasks wait for room in a full channel of the other, or has nothing to do and no timer set.
  pub progress : Moves config s ⊎ (IsDeadlocked s ⊎ IsQuiet s)
  progress = progress_at s.loop refl

module _ {E : Type 0} (config : Config) where
  -- With a check interval, and a jitter that can be drawn, a state that is reached without any
  -- request from outside goes on without one.
  pub Reachable-Moves :
      (interval : ℕ)
      → config.check_interval ≡ some interval
      → (jitter : ℕ) → IsDraw config.max_jitter jitter
      → (s : State E) → Reachable config s
      → s.triggers ≡ 0
      → Moves config s
  unfolding pending in_option in_loop in_start in_runner
  Reachable-Moves interval h jitter draw s r n =
      let one = (Reachable-IsSingle config interval h r n).1 in
      elim (progress config s jitter draw) [
        | inl m ↦ m
        | inr (inl d) ↦
            absurd (omega (arith, one, ap in_option d.full_complete, ap in_runner d.waits_complete))
        | inr (inr q) ↦ absurd (
            omega (
              arith,
              one,
              ap in_option q.no_complete,
              ap in_runner q.no_task,
              ap in_start q.no_start,
              ap in_loop q.waits,
              ap in_option q.no_timer,
            ))
      ]
