-- ===== src/Cache/Stream.antt =====
-- crates/cache/src/utils.rs: `to_cached_record_batch_stream`.
--
-- The stream is the list of what it yields. The code behind the last item runs when the reader asks
-- once more; `polls` is how often it asks. A sum of sizes is a `usize` of 64 bits.
use spiceai.Prelude.{
  ℕ, zero, suc, ◌+◌, ◌%◌, ◌≤◌, ◌<◌, ◌&&◌, Option, none, some, List, [], ◌∷◌, ◌++◌, append-nil,
  append_assoc, ◌≡◌, ◌⊎◌, inl, inr, refl, arith,
}
use spiceai.Prelude.Lists.{length, take}
use spiceai.Prelude.Tests.{if◌then◌else◌, ltb}
use spiceai.Prelude.Result.{Result, ok, err}
use spiceai.Cache.{CachedQueryResult, Moka, put_key}
use spiceai.Dataset.{TableReference}

abbrev pub usize_bound : ℕ
usize_bound = 18446744073709551616

-- What is stored at the end of the loop.
unfoldable pub finish : {Batch : Type 0} → ℕ → List Batch × ℕ → Option (List Batch)
finish cache_max_size (records, records_size) =
    if ltb records_size cache_max_size then some records else none

module _ {E Batch : Type 0} (get_array_memory_size : Batch → ℕ) where
  -- One pass of the loop on `(records, records_size)`.
  unfoldable pub keep_batch : ℕ → Result E Batch → List Batch × ℕ → List Batch × ℕ
  keep_batch cache_max_size (err e) (records, records_size) = (records, records_size)
  keep_batch cache_max_size (ok batch) (records, records_size) =
      if ltb records_size cache_max_size
      then (records ++ batch ∷ [], (records_size + get_array_memory_size batch) % usize_bound)
      else (records, records_size)

  -- What the reader gets, and the records that are put into the cache.
  unfoldable pub cached_stream :
      ℕ → ℕ → List (Result E Batch) → List Batch × ℕ → List (Result E Batch) × Option (List Batch)
  cached_stream cache_max_size zero items kept = ([], none)
  cached_stream cache_max_size (suc polls) [] kept = ([], finish cache_max_size kept)
  cached_stream cache_max_size (suc polls) (item ∷ items) kept =
      let (yielded, stored) =
        cached_stream cache_max_size polls items (keep_batch cache_max_size item kept) in
      (item ∷ yielded, stored)

module _ {Batch Schema S P : Type 0} (moka : Moka (CachedQueryResult Batch Schema) S P) where
  -- `put_key`, when there is something to store.
  unfoldable pub put_stored : S → ℕ → Schema → List TableReference → Option (List Batch) → S
  put_stored cache plan_key schema input_tables none = cache
  put_stored cache plan_key schema input_tables (some records) =
      put_key moka cache plan_key
        (record { records = records; schema = schema; input_tables = input_tables })

module _ {E Batch Schema S P : Type 0} (moka : Moka (CachedQueryResult Batch Schema) S P)
    (get_array_memory_size : Batch → ℕ) where
  -- The reader's items, and the cache behind the reading.
  unfoldable pub to_cached_record_batch_stream :
      S
      → ℕ
      → Schema
      → List (Result E Batch)
      → ℕ
      → List TableReference
      → ℕ
      → List (Result E Batch) × S
  to_cached_record_batch_stream cache max_size schema stream plan_key input_tables polls =
      let (yielded, stored) = cached_stream get_array_memory_size max_size polls stream ([], 0) in
      (yielded, put_stored moka cache plan_key schema input_tables stored)

-- The batches of a stream, and what they take.
unfoldable pub batches : {E Batch : Type 0} → List (Result E Batch) → List Batch
batches [] = []
batches (ok b ∷ items) = b ∷ batches items
batches (err e ∷ items) = batches items

unfoldable pub memory : {E Batch : Type 0} → (Batch → ℕ) → List (Result E Batch) → ℕ
memory size [] = 0
memory size (ok b ∷ items) = size b + memory size items
memory size (err e ∷ items) = memory size items

no_wrap : (n : ℕ) → n < usize_bound → n % usize_bound ≡ n
no_wrap n h = omega arith

pub lt-cases : (n m : ℕ) → (n < m) ⊎ (m ≤ n)
lt-cases n m = ground arith

module _ {E Batch : Type 0} (get_array_memory_size : Batch → ℕ) (max : ℕ) where
  -- Once there is too much, nothing is kept or stored.
  cached_stream-full :
      (polls : ℕ) (items : List (Result E Batch)) (records : List Batch) (n : ℕ)
      → max ≤ n
      → cached_stream get_array_memory_size max polls items (records, n) ≡ (take polls items, none)
  unfolding cached_stream finish keep_batch
  cached_stream-full zero items records n h = refl
  cached_stream-full (suc polls) [] records n h = ground arith
  cached_stream-full (suc polls) (ok b ∷ items) records n h =
      ground (arith, cached_stream-full polls items records n h)
  cached_stream-full (suc polls) (err e ∷ items) records n h =
      ground (arith, cached_stream-full polls items records n h)

  cached_stream-from :
      (polls : ℕ) (items : List (Result E Batch)) (records : List Batch) (n : ℕ)
      → n < max
      → n + memory get_array_memory_size items < usize_bound
      → cached_stream get_array_memory_size max polls items (records, n) ≡ (
        take polls items,
        if ltb (length items) polls && ltb (n + memory get_array_memory_size items) max
            then some (records ++ batches items)
            else none,
      )
  unfolding cached_stream finish keep_batch batches memory
  cached_stream-from zero items records n h b = ground arith
  cached_stream-from (suc polls) [] records n h b = ground (arith, append-nil records)
  cached_stream-from (suc polls) (ok x ∷ items) records n h b =
      elim (lt-cases (n + get_array_memory_size x) max) [
        | inl l ↦ ground (
          arith,
          cached_stream-from polls items (records ++ x ∷ []) (n + get_array_memory_size x) l
              (omega (arith, b)),
          append_assoc records (x ∷ []) (batches items),
          no_wrap (n + get_array_memory_size x) (omega (arith, b)),
        )
        | inr l ↦ ground (
          arith,
          cached_stream-full polls items (records ++ x ∷ []) (n + get_array_memory_size x) l,
          no_wrap (n + get_array_memory_size x) (omega (arith, b)),
        )
      ]
  cached_stream-from (suc polls) (err e ∷ items) records n h b =
      ground (arith, cached_stream-from polls items records n h b)

module _ {E Batch Schema S P : Type 0} (moka : Moka (CachedQueryResult Batch Schema) S P)
    (get_array_memory_size : Batch → ℕ) (cache : S) (max_size : ℕ) (schema : Schema)
    (stream : List (Result E Batch)) (plan_key : ℕ) (input_tables : List TableReference)
    (polls : ℕ) where
  -- For a stream whose batches take less than 2^64 bytes together: the reader gets the items of the
  -- stream as far as it asks, errors included, and the cache gets all the batches under the plan's key
  -- if the reader asks beyond the last item and they take less than the cache's size; else the cache
  -- stays as it is. An error in the stream is left out of what is stored, and does not prevent it.
  pub to_cached_record_batch_stream-puts :
      memory get_array_memory_size stream < usize_bound
      → to_cached_record_batch_stream moka get_array_memory_size cache max_size schema stream
          plan_key input_tables polls
        ≡ (
          take polls stream,
          if ltb (length stream) polls && ltb (memory get_array_memory_size stream) max_size
              then moka.insert cache plan_key (record {
                records = batches stream;
                schema = schema;
                input_tables = input_tables;
              })
              else cache,
        )
  unfolding to_cached_record_batch_stream put_stored put_key
  to_cached_record_batch_stream-puts b = elim (lt-cases 0 max_size) [
    | inl l ↦ ground (
      arith,
      cached_stream-from get_array_memory_size max_size polls stream [] 0 l (omega (arith, b)),
    )
    | inr l ↦ ground (arith, cached_stream-full get_array_memory_size max_size polls stream [] 0 l)
  ]
