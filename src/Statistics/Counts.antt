-- ===== src/Statistics/Counts.antt =====
-- The counters of internal/statistics/statistics.go: `add`, `finalize`, and counts by name.
use hamstergres.Base.{
  ℕ, String, Bool, List, [], ◌∷◌, length, Option, none, some, ltb, if◌then◌else◌,
}
use hamstergres.Base.GoMap.{GoMap, get, put}
use hamstergres.Statistics.Words.{add64, lt64, div64}

pub record QueryEvent : Type 0 where
  pub duration : ℕ  -- time.Duration: an int64 of nanoseconds
  pub success : Bool
  pub shards : List String
  pub sql : String
  pub error_category : String

pub record Counts : Type 0 where
  pub queries : ℕ
  pub failed_queries : ℕ
  pub scattered_queries : ℕ
  pub single_shard_queries : ℕ
  pub total_duration_millis : ℕ
  pub average_duration_millis : ℕ

abbrev pub no_counts : Counts
no_counts = record {
  queries = 0;
  failed_queries = 0;
  scattered_queries = 0;
  single_shard_queries = 0;
  total_duration_millis = 0;
  average_duration_millis = 0;
}

-- Duration.Milliseconds()
abbrev pub milliseconds : ℕ → ℕ
milliseconds d = div64 d 1000000

unfoldable pub add : QueryEvent → Counts → Counts
add q s = record s {
  queries = add64 s.queries 1;
  failed_queries = if q.success then s.failed_queries else add64 s.failed_queries 1;
  scattered_queries =
      if ltb 1 (length q.shards) then add64 s.scattered_queries 1 else s.scattered_queries;
  single_shard_queries =
      if ltb 1 (length q.shards)
      then s.single_shard_queries
      else if ltb 0 (length q.shards)
      then add64 s.single_shard_queries 1
      else s.single_shard_queries;
  total_duration_millis = add64 s.total_duration_millis (milliseconds q.duration);
}

unfoldable pub finalize : Counts → Counts
finalize s =
    if lt64 0 s.queries
    then record s { average_duration_millis = div64 s.total_duration_millis s.queries }
    else s

abbrev pub or_zero : Option ℕ → ℕ
or_zero none = 0
or_zero (some n) = n

-- m[k] += n
unfoldable pub increase : String → ℕ → GoMap ℕ → GoMap ℕ
increase k n m = put k (add64 (or_zero (get k m)) n) m

-- for _, shard := range query.Shards { m[shard]++ }
unfoldable pub count_shards : List String → GoMap ℕ → GoMap ℕ
unfolding increase
count_shards [] m = m
count_shards (s ∷ ss) m = count_shards ss (increase s 1 m)
