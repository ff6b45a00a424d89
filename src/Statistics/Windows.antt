-- ===== src/Statistics/Windows.antt =====
-- The ring of one-second buckets of internal/statistics/statistics.go, and the sums over the
-- latest of them. A second is a Unix time, which may lie before 1970.
pub mod Seconds
pub mod Exact
pub mod Safe
use hamstergres.Base.{
  ℕ, zero, suc, ◌+◌, ◌-◌, ◌%◌, ◌≡◌, String, Bool, true, false, ◌&&◌, List, [], ◌∷◌, length, Option,
  none, some, ltb, if◌then◌else◌, ℤ, pos, negsuc,
}
use hamstergres.Base.GoMap.{GoMap}
use hamstergres.Statistics.Words.{add64}
use hamstergres.Statistics.Counts.{QueryEvent, Counts, no_counts, add, increase, count_shards}
use hamstergres.Statistics.Windows.Seconds.{bucket_index, in_window, same_second}

abbrev pub rolling_buckets : ℕ
rolling_buckets = 600

pub record TimeBucket : Type 0 where
  pub second : ℤ
  pub counts : Counts
  pub executions : Option (GoMap ℕ)  -- `none` is the nil map

abbrev pub unused_bucket : TimeBucket
unused_bucket = record { second = pos 0; counts = no_counts; executions = none }

unfoldable pub replicate {ℓ} : {A : Type ℓ} → ℕ → A → List A
replicate zero x = []
replicate (suc n) x = x ∷ replicate n x

-- The loop that counts the shards of a query; to write to the nil map is a panic (`none`).
unfoldable pub count_executions : List String → Option (GoMap ℕ) → Option (Option (GoMap ℕ))
unfolding count_shards
count_executions [] m = some m
count_executions (s ∷ ss) none = none
count_executions (s ∷ ss) (some m) = some (some (count_shards (s ∷ ss) m))

-- `if bucket.second != second`
unfoldable pub turn_to : ℤ → TimeBucket → TimeBucket
turn_to second b =
    if same_second b.second second
    then b
    else record { second = second; counts = no_counts; executions = some [] }

abbrev pub with_executions : Counts → ℤ → Option (Option (GoMap ℕ)) → Option TimeBucket
with_executions counts second none = none
with_executions counts second (some executions) =
    some (record { second = second; counts = counts; executions = executions })

unfoldable pub count_in : QueryEvent → TimeBucket → Option TimeBucket
unfolding add count_executions
count_in q b = with_executions (add q b.counts) b.second (count_executions q.shards b.executions)

abbrev pub before : List TimeBucket → Option TimeBucket → Option (List TimeBucket)
before rest none = none
before rest (some b) = some (b ∷ rest)

abbrev pub behind : TimeBucket → Option (List TimeBucket) → Option (List TimeBucket)
behind b none = none
behind b (some rest) = some (b ∷ rest)

-- `bucket := &c.buckets[index]` with what is done to it; an index past the end is a panic.
unfoldable pub record_at : ℕ → ℤ → QueryEvent → List TimeBucket → Option (List TimeBucket)
unfolding count_in turn_to
record_at i second q [] = none
record_at zero second q (b ∷ bs) = before bs (count_in q (turn_to second b))
record_at (suc i) second q (b ∷ bs) = behind b (record_at i second q bs)

unfoldable pub record_window : ℤ → QueryEvent → List TimeBucket → Option (List TimeBucket)
unfolding record_at
record_window second q bs = record_at (bucket_index (length bs) second) second q bs

-- Queries with the seconds at which they are recorded, the first one first.
abbrev pub Timed : Type 0
Timed = List (ℤ × QueryEvent)

abbrev pub or_panic {ℓ κ} : {A : Type ℓ} {B : Type κ} → Option A → (A → Option B) → Option B
or_panic none next = none
or_panic (some x) next = next x

unfoldable pub record_windows : Timed → List TimeBucket → Option (List TimeBucket)
unfolding record_window
record_windows [] bs = some bs
record_windows ((second, q) ∷ es) bs = or_panic (record_window second q bs) (record_windows es)

abbrev pub merge_counts : Counts → Counts → Counts
merge_counts s t = record s {
  queries = add64 s.queries t.queries;
  failed_queries = add64 s.failed_queries t.failed_queries;
  scattered_queries = add64 s.scattered_queries t.scattered_queries;
  single_shard_queries = add64 s.single_shard_queries t.single_shard_queries;
  total_duration_millis = add64 s.total_duration_millis t.total_duration_millis;
}

-- for shard, queries := range bucket.shards { shards[shard] += queries }
unfoldable pub merge_shards : GoMap ℕ → GoMap ℕ → GoMap ℕ
unfolding increase
merge_shards m [] = m
merge_shards m ((s, n) ∷ entries) = merge_shards (increase s n m) entries

abbrev pub entries_of : Option (GoMap ℕ) → GoMap ℕ
entries_of none = []
entries_of (some m) = m

-- The turns of the loop of `summarizeBuckets`; `window` is in seconds.
unfoldable pub summarize_from : ℤ → ℕ → List TimeBucket → Counts → GoMap ℕ → Counts × GoMap ℕ
unfolding merge_shards
summarize_from now window [] counts shards = (counts, shards)
summarize_from now window (b ∷ bs) counts shards =
    let skipped = summarize_from now window bs counts shards in
    let added =
      summarize_from now window bs (merge_counts counts b.counts)
        (merge_shards shards (entries_of b.executions)) in
    if in_window now window b.second then added else skipped

unfoldable pub summarize_buckets : List TimeBucket → ℤ → ℕ → Counts × GoMap ℕ
unfolding summarize_from
summarize_buckets bs now window = summarize_from now window bs no_counts []
