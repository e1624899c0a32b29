-- ===== src/MemTable/Delete.antt =====
-- What a deletion leaves in a `MemTable`.
use spiceai.Prelude.{
  ℕ, ◌+◌, ◌%◌, ◌<◌, Bool, true, false, not, ◌&&◌, and_assoc, Option, some, List, [], ◌∷◌, map, ◌≡◌,
  refl, sym, ap, ◌∙◌, arith,
}
use spiceai.Prelude.Lists.{length}
use spiceai.Prelude.Result.{ok}
use spiceai.Arrow.{Schema}
use spiceai.MemTable.{
  RecordBatch, Partitions, MemTable, contains_all, at_least_one, try_new, empty_partitions,
  write_targets,
}
use spiceai.MemTable.Count.{
  any_row, in_rows, in_batches, total, push_at-total, total-empty_partitions, total-write_targets,
  length-push_at, push_at-ne-none, length-empty_partitions,
}
use spiceai.MemTable.Write.{mod-in_range}
use spiceai.MemTable.Deletion.{
  Engine, IsSound, is_not_true, keep_rows, keep_batch, keep, push_all, deal_partitions,
  apply_filters, delete_query, delete_from,
}

module _ {Row : Type 0} where
  -- The row stays: no filter is true of it.
  unfoldable pub stays : List (Row → Option Bool) → Row → Bool
  stays [] r = true
  stays (value ∷ values) r = is_not_true (value r) && stays values r

  -- Rows that satisfy both.
  abbrev pub both : (Row → Bool) → (Row → Bool) → Row → Bool
  both q p r = q r && p r

module _ {Row : Type 0} (q p : Row → Bool) where
  in_rows-keep_rows : (rs : List Row) → in_rows p (keep_rows q rs) ≡ in_rows (both q p) rs
  unfolding in_rows keep_rows
  in_rows-keep_rows [] = refl
  in_rows-keep_rows (r ∷ rs) = ground (arith, in_rows-keep_rows rs)

  in_batches-keep :
      (bs : List (RecordBatch Row))
      → in_batches p (map (keep_batch q) bs) ≡ in_batches (both q p) bs
  unfolding in_batches
  in_batches-keep [] = refl
  in_batches-keep (b ∷ bs) = omega (arith, in_rows-keep_rows b.rows, in_batches-keep bs)

  total-keep : (ps : Partitions Row) → total p (keep q ps) ≡ total (both q p) ps
  unfolding total
  total-keep [] = refl
  total-keep (b ∷ bs) = omega (arith, in_batches-keep b, total-keep bs)

module _ {Row : Type 0} where
  in_rows-split :
      (q : Row → Bool) (rs : List Row)
      → in_rows any_row rs ≡ in_rows (both q any_row) rs + in_rows (λ r. not (q r)) rs
  unfolding in_rows any_row
  in_rows-split q [] = refl
  in_rows-split q (r ∷ rs) = ground (arith, in_rows-split q rs)

  in_batches-split :
      (q : Row → Bool) (bs : List (RecordBatch Row))
      → in_batches any_row bs ≡ in_batches (both q any_row) bs + in_batches (λ r. not (q r)) bs
  unfolding in_batches
  in_batches-split q [] = refl
  in_batches-split q (b ∷ bs) = omega (arith, in_rows-split q b.rows, in_batches-split q bs)

  total-split :
      (q : Row → Bool) (ps : Partitions Row)
      → total any_row ps ≡ total (both q any_row) ps + total (λ r. not (q r)) ps
  unfolding total
  total-split q [] = refl
  total-split q (b ∷ bs) = omega (arith, in_batches-split q b, total-split q bs)

  total-at_least_one :
      (p : Row → Bool) (ps : Partitions Row) → total p (at_least_one ps) ≡ total p ps
  unfolding total in_batches at_least_one
  total-at_least_one p [] = refl
  total-at_least_one p (b ∷ bs) = refl

module _ {Row : Type 0} (n : ℕ) (pos : 0 < n) where
  push_all-total :
      (new : Partitions Row) (i : ℕ) (bs : List (RecordBatch Row))
      → length new ≡ n
      → i < n
      → (new' : Partitions Row) × (push_all new i bs ≡ some new')
        × (length new' ≡ n)
        × ((p : Row → Bool) → total p new' ≡ total p new + in_batches p bs)
  unfolding push_all in_batches
  push_all-total new i [] l h = (new, refl, l, λ p. omega arith)
  push_all-total new i (b ∷ bs) l h =
      let (pushed, e) = push_at-ne-none new i b (omega arith) in
      let (new', f, l', t) = push_all-total pushed i bs (length-push_at new i b pushed e ∙ l) h in
      (new', rw (e, push_all) f, l', λ p. omega (arith, t p, push_at-total p new i b pushed e))

  deal_partitions-total :
      (new : Partitions Row) (i : ℕ) (ps : Partitions Row)
      → length new ≡ n
      → i < n
      → (new' : Partitions Row) × (deal_partitions n new i ps ≡ some new')
        × (length new' ≡ n)
        × ((p : Row → Bool) → total p new' ≡ total p new + total p ps)
  unfolding deal_partitions total
  deal_partitions-total new i [] l h = (new, refl, l, λ p. omega arith)
  deal_partitions-total new i (b ∷ bs) l h =
      let (pushed, e, l₁, t₁) = push_all-total new i b l h in
      let (new', f, l', t) =
        deal_partitions-total pushed ((i + 1) % n) bs l₁ (mod-in_range (i + 1) n pos) in
      (new', rw (e, deal_partitions) f, l', λ p. omega (arith, t p, t₁ p))

module _ {Row Expr E : Type 0} (engine : Engine Row Expr E) (schema : Schema) where
  -- The filters are planned, and these are their values.
  pub data Planned : List Expr → List (Row → Option Bool) → Type 0 where
    nil : Planned [] []
    cons :
        {f : Expr} {fs : List Expr} {v : Row → Option Bool} {vs : List (Row → Option Bool)}
        → engine.plan schema f ≡ ok v
        → Planned fs vs
        → Planned (f ∷ fs) (v ∷ vs)

module _ {Row Expr E : Type 0} (engine : Engine Row Expr E) (schema : Schema) where
  apply_filters-total :
      {fs : List Expr} {vs : List (Row → Option Bool)}
      → Planned engine schema fs vs
      → (df : Partitions Row)
      → (df' : Partitions Row) × (apply_filters engine schema fs df ≡ ok df')
        × ((p : Row → Bool) → total p df' ≡ total (both (stays vs) p) df)
  unfolding apply_filters stays
  apply_filters-total nil df = (df, refl, λ p. refl)
  apply_filters-total (cons {f} {fs} {v} {vs} e pl) df =
      let (df', a, t) = apply_filters-total pl (keep (λ r. is_not_true (v r)) df) in
      (
        df',
        rw (e, apply_filters) a,
        λ p.
            t p
            ∙ total-keep (λ r. is_not_true (v r)) (both (stays vs) p) df
            ∙ ap (λ u. total u df)
                (λ i r. sym (and_assoc (is_not_true (v r)) (stays vs r) (p r)) i),
      )

module _ {Row Expr E : Type 0} (engine : Engine Row Expr E) (sound : IsSound engine)
    (contains : Schema → Schema → Bool) (self : MemTable Row) (filters : List Expr)
    (values : List (Row → Option Bool)) where
  -- For an engine that answers, filters that can be planned, and a table with a partition whose
  -- schema contains that of each of its batches, which an insertion does not ensure: a deletion
  -- succeeds. The rows that stay are those of which no filter is true, as often as they were there
  -- and with NULL counted as not true, and the result is the number of the other rows. A row is
  -- deleted as soon as one of the filters is true of it.
  pub delete_from-rows :
      0 < length self.batches
      → contains_all contains self.schema self.batches ≡ true
      → Planned engine self.schema filters values
      → (self' : MemTable Row) × (delete_from engine contains self filters
          ≡ some (ok (total (λ r. not (stays values r)) self.batches), self'))
        × ((p : Row → Bool) → total p self'.batches ≡ total (both (stays values) p) self.batches)
  unfolding delete_from delete_query try_new
  delete_from-rows pos c pl =
      let table = at_least_one self.batches in
      let (df, a, t) = apply_filters-total engine self.schema pl table in
      let (collected, g, tc) = sound.collects df in
      let start = empty_partitions (length self.batches) in
      let (new, d, l, td) =
        deal_partitions-total (length self.batches) pos start 0 collected
          (length-empty_partitions Row (length self.batches)) pos in
      (
        record self { batches = write_targets false start new },
        rw
            (
              delete_from,
              delete_query,
              try_new,
              c,
              sound.counts table,
              a,
              sound.counts df,
              g,
              d,
              delete_from,
            )
            (ap (λ u. some (ok u, record self { batches = write_targets false start new }))
              (omega (
                arith,
                total-split (stays values) self.batches,
                total-at_least_one any_row self.batches,
                total-at_least_one (both (stays values) any_row) self.batches,
                t any_row,
              ))),
        λ p. omega (
          arith,
          td p,
          tc p,
          t p,
          total-at_least_one (both (stays values) p) self.batches,
          total-empty_partitions p (length self.batches),
          total-write_targets p false start new
              (l ∙ sym (length-empty_partitions Row (length self.batches))),
        ),
      )
