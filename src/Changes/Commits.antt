-- ===== src/Changes/Commits.antt =====
-- crates/runtime/src/accelerated_table/refresh_task/changes.rs: `start_changes_stream`.
--
-- The stream is the list of what it yields. Errors of a commit and of the invalidation of cached
-- results are only logged; here the calls are recorded.
use spiceai.Prelude.{
  ℕ, ◌+◌, Bool, true, false, not, ◌&&◌, some, List, [], ◌∷◌, ◌++◌, append_assoc, append-nil, ◌≡◌,
  inl, inr, ◌∙◌, arith,
}
use spiceai.Prelude.Lists.{length, length-append}
use spiceai.Prelude.Tests.{if◌then◌else◌, ltb, Bool-cases}
use spiceai.Prelude.Text.{Text}
use spiceai.Prelude.Result.{Result, ok, err, Result-cases}
use spiceai.RefreshTask.{State, error, refreshing, mark}
use spiceai.RefreshTask.Run.{last_status}
use spiceai.Changes.{Change, Accelerator, write_change}

-- `ChangeEnvelope`, with a number for its committer.
pub record ChangeEnvelope (Row : Type 0) : Type 0 where
  pub change_committer : ℕ
  pub change_batch : List (Change Row)

-- The task, whether there is still somebody to be told of readiness, how often somebody was told, the
-- commits in their order, and how often the cached results of the dataset were invalidated.
pub record Progress (World : Type 0) : Type 0 where
  pub task : State World
  pub ready_sender : Bool
  pub ready_sent : ℕ
  pub committed : List ℕ
  pub invalidations : ℕ

module _ {World Row : Type 0} (accelerator : Accelerator World Row) (debug has_cache : Bool) where
  -- One pass of the loop.
  unfoldable pub change_update : Result Text (ChangeEnvelope Row) → Progress World → Progress World
  change_update (err e) p = record p { task = mark error p.task }
  change_update (ok envelope) p =
      let (r, w) = write_change accelerator debug envelope.change_batch p.task.world in
      let task = record p.task { world = w } in
      elim r [
        | ok _ ↦ record {
          task = task;
          ready_sender = false;
          ready_sent = p.ready_sent + (if p.ready_sender then 1 else 0);
          committed = p.committed ++ envelope.change_committer ∷ [];
          invalidations = p.invalidations + (if has_cache then 1 else 0);
        }
        | err e ↦ record p { task = mark error task }
      ]

  unfoldable pub change_updates :
      List (Result Text (ChangeEnvelope Row)) → Progress World → Progress World
  change_updates [] p = p
  change_updates (u ∷ updates) p = change_updates updates (change_update u p)

  unfoldable pub start_changes_stream :
      List (Result Text (ChangeEnvelope Row)) → Bool → State World → Progress World
  start_changes_stream updates ready_sender s = change_updates updates (record {
    task = mark refreshing s;
    ready_sender = ready_sender;
    ready_sent = 0;
    committed = [];
    invalidations = 0;
  })

  -- The outside behind an update, and the committers of those that are written.
  unfoldable pub behind : Result Text (ChangeEnvelope Row) → World → World
  behind (err e) w = w
  behind (ok envelope) w = (write_change accelerator debug envelope.change_batch w).1

  unfoldable pub written_one : Result Text (ChangeEnvelope Row) → World → List ℕ
  written_one (err e) w = []
  written_one (ok envelope) w = elim (write_change accelerator debug envelope.change_batch w).0 [
    | ok _ ↦ envelope.change_committer ∷ []
    | err e ↦ []
  ]

  unfoldable pub written : List (Result Text (ChangeEnvelope Row)) → World → List ℕ
  written [] w = []
  written (u ∷ updates) w = written_one u w ++ written updates (behind u w)

  -- What a pass does, from whether the update was written.
  change_update-facts :
      (u : Result Text (ChangeEnvelope Row)) (p : Progress World)
      → ((change_update u p).task.world ≡ behind u p.task.world)
        × ((change_update u p).committed ≡ p.committed ++ written_one u p.task.world)
        × ((change_update u p).ready_sent
            ≡ p.ready_sent
              + (if p.ready_sender && ltb 0 (length (written_one u p.task.world)) then 1 else 0))
        × ((change_update u p).ready_sender
            ≡ (p.ready_sender && not (ltb 0 (length (written_one u p.task.world)))))
        × ((change_update u p).invalidations
            ≡ p.invalidations + (if has_cache then length (written_one u p.task.world) else 0))
        × (last_status (change_update u p).task ≡ (
            if ltb 0 (length (written_one u p.task.world)) then last_status p.task else some error))
  unfolding change_update behind written_one mark last_status
  change_update-facts (err e) p = ground (arith, append-nil p.committed)
  change_update-facts (ok envelope) p =
      elim (Result-cases (write_change accelerator debug envelope.change_batch p.task.world).0) [
        | inl (u, h) ↦ ground (arith, h)
        | inr (e, h) ↦ ground (arith, h, append-nil p.committed)
      ]

  -- Every update is written.
  unfoldable pub all_written : List (Result Text (ChangeEnvelope Row)) → World → Bool
  all_written [] w = true
  all_written (u ∷ updates) w = ltb 0 (length (written_one u w)) && all_written updates (behind u w)

  abbrev initial : Bool → State World → Progress World
  initial ready_sender s = record {
    task = mark refreshing s;
    ready_sender = ready_sender;
    ready_sent = 0;
    committed = [];
    invalidations = 0;
  }

  change_updates-facts :
      (updates : List (Result Text (ChangeEnvelope Row))) (p : Progress World)
      → ((change_updates updates p).committed ≡ p.committed ++ written updates p.task.world)
        × ((change_updates updates p).ready_sent
            ≡ p.ready_sent
              + (if p.ready_sender && ltb 0 (length (written updates p.task.world)) then 1 else 0))
        × ((change_updates updates p).invalidations
            ≡ p.invalidations + (if has_cache then length (written updates p.task.world) else 0))
        × (last_status (change_updates updates p).task
            ≡ (if all_written updates p.task.world then last_status p.task else some error))
  unfolding change_updates written all_written
  change_updates-facts [] p = ground (arith, append-nil p.committed)
  change_updates-facts (u ∷ updates) p =
      let (w, c, r, s, i, l) = change_update-facts u p in
      let (cs, rs, is, ls) = change_updates-facts updates (change_update u p) in
      let rest = written updates (behind u p.task.world) in
      let same_world : (change_update u p).task.world ≡ behind u p.task.world = w in
      (
        cs
            ∙ (λ j. c j ++ written updates (w j))
            ∙ append_assoc p.committed (written_one u p.task.world) rest,
        ground (
          arith,
          rs,
          r,
          s,
          w,
          length-append (written_one u p.task.world) rest,
          Bool-cases p.ready_sender,
        ),
        ground (
          arith,
          is,
          i,
          w,
          length-append (written_one u p.task.world) rest,
          Bool-cases has_cache,
        ),
        ground (arith, ls, l, w),
      )

  -- A stream of changes: committed are exactly the batches that are written without an error, in
  -- their order; readiness is told once if there is one and somebody to be told; with a cache, the
  -- cached results of the dataset are invalidated once for each of them. The last status that is
  -- reported is REFRESHING when every update is written, and ERROR from the first one that is not,
  -- whatever is written behind it.
  pub start_changes_stream-facts :
      (updates : List (Result Text (ChangeEnvelope Row))) (ready_sender : Bool) (s : State World)
      → ((start_changes_stream updates ready_sender s).committed ≡ written updates s.world)
        × ((start_changes_stream updates ready_sender s).ready_sent
            ≡ (if ready_sender && ltb 0 (length (written updates s.world)) then 1 else 0))
        × ((start_changes_stream updates ready_sender s).invalidations
            ≡ (if has_cache then length (written updates s.world) else 0))
        × (last_status (start_changes_stream updates ready_sender s).task
            ≡ some (if all_written updates s.world then refreshing else error))
  unfolding start_changes_stream mark last_status
  start_changes_stream-facts updates ready_sender s =
      let (c, r, i, l) = change_updates-facts updates (initial ready_sender s) in
      (c, omega (arith, r), omega (arith, i), ground (arith, l))
