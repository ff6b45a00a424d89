-- ===== src/Statistics/Collector.antt =====
-- The Collector of internal/statistics/statistics.go: `Record`, `RecordOperation` and the counts of
-- `Snapshot`. Each call holds the mutex of the collector throughout, so that calls follow one
-- another.
pub mod Bounded
pub mod Executions
pub mod Windowed
use hamstergres.Base.{
  ℕ, ◌≡◌, String, str_eq, Bool, true, false, ◌&&◌, List, [], ◌∷◌, map, Option, none, some,
  if◌then◌else◌, ℤ,
}
use hamstergres.Base.GoMap.{GoMap}
use hamstergres.Statistics.Words.{add64}
use hamstergres.Statistics.Counts.{
  QueryEvent, Counts, no_counts, add, finalize, increase, count_shards,
}
use hamstergres.Statistics.Windows.{
  TimeBucket, unused_bucket, rolling_buckets, replicate, record_window, summarize_buckets, or_panic,
}
use hamstergres.Statistics.Labels.{Labels, no_labels, summary_label}
use hamstergres.Statistics.Summaries.{Time, Summary, record_summary}

-- map[operationKey]int64, without repeated keys
abbrev pub OperationCounts : Type 0
OperationCounts = List (String × String × ℕ)

-- m[operationKey{operation, outcome}]++
unfoldable pub count_operation : String → String → OperationCounts → OperationCounts
count_operation operation outcome [] = (operation, outcome, 1) ∷ []
count_operation operation outcome ((o, r, n) ∷ m) =
    let rest = count_operation operation outcome m in
    if str_eq o operation && str_eq r outcome then (o, r, add64 n 1) ∷ m else (o, r, n) ∷ rest

-- The parameters of the collector: the floating-point numbers of the latencies, with their 0, their
-- sum, their order, the seconds of a duration and the number nearest to a count of thousandths; and
-- Normalize.
pub record Parameters : Type 1 where
  pub Float : Type 0
  pub zero_seconds : Float
  pub plus : Float → Float → Float
  pub is_at_most : Float → Float → Bool
  pub seconds : ℕ → Float
  pub thousandths : ℕ → Float
  pub normalize : String → String

module _ (env : Parameters) where
  pub record Bucket : Type 0 where
    pub upper_bound : env.Float
    pub bucket_count : ℕ

  pub record Histogram : Type 0 where
    pub latency_buckets : List Bucket
    pub count : ℕ
    pub sum : env.Float

  abbrev pub no_latencies : Histogram
  no_latencies = record {
    latency_buckets =
        map (λ n. record { upper_bound = env.thousandths n; bucket_count = 0 })
          (1 ∷ 5 ∷ 10 ∷ 25 ∷ 50 ∷ 100 ∷ 250 ∷ 500 ∷ 1000 ∷ 2500 ∷ 5000 ∷ 10000 ∷ []);
    count = 0;
    sum = env.zero_seconds;
  }

  abbrev pub count_latency : env.Float → Bucket → Bucket
  count_latency d b = record b {
    bucket_count =
        if env.is_at_most d b.upper_bound then add64 b.bucket_count 1 else b.bucket_count;
  }

  abbrev pub observe : ℕ → Histogram → Histogram
  observe duration h = record h {
    latency_buckets = map (count_latency (env.seconds duration)) h.latency_buckets;
    count = add64 h.count 1;
    sum = env.plus h.sum (env.seconds duration);
  }

  pub record Collector : Type 0 where
    pub buckets : List TimeBucket
    pub total : Counts
    pub executions : GoMap ℕ
    pub summaries : GoMap Summary
    pub labels : Labels
    pub latency : Histogram
    pub operations : OperationCounts
    pub failures : GoMap ℕ

  abbrev pub new_collector : Collector
  new_collector = record {
    buckets = replicate rolling_buckets unused_bucket;
    total = no_counts;
    executions = [];
    summaries = [];
    labels = no_labels;
    latency = no_latencies;
    operations = [];
    failures = [];
  }

  abbrev pub record_operation : String → String → Collector → Collector
  record_operation operation outcome c = record c {
    operations = count_operation operation outcome c.operations;
  }

  abbrev pub count_failure : QueryEvent → GoMap ℕ → GoMap ℕ
  count_failure q m =
      if q.success
      then m
      else increase (if str_eq q.error_category "" then "unknown" else q.error_category) 1 m

  -- The collector with a query counted, whose label and window have been recorded.
  unfoldable pub counted :
      Time → QueryEvent → Collector → String × Labels → List TimeBucket → Collector
  unfolding add count_shards record_summary increase
  counted now q c labelled buckets = record c {
    buckets = buckets;
    labels = labelled.1;
    total = add q c.total;
    failures = count_failure q c.failures;
    latency = observe q.duration c.latency;
    executions = count_shards q.shards c.executions;
    summaries = record_summary labelled.0 now q c.summaries;
  }

  -- `none` is a panic.
  unfoldable pub record_query : Time → QueryEvent → Collector → Option Collector
  unfolding summary_label record_window counted
  record_query now q c = or_panic (summary_label env.normalize q.sql c.labels) (λ labelled.
      or_panic (record_window now.second q c.buckets)
        (λ buckets. some (counted now q c labelled buckets)))

  -- The queries that a gateway records, the first one first.
  unfoldable pub record_queries : List (Time × QueryEvent) → Collector → Option Collector
  unfolding record_query
  record_queries [] c = some c
  record_queries ((now, q) ∷ es) c = or_panic (record_query now q c) (record_queries es)

  pub record WindowStatistics : Type 0 where
    pub name : String
    pub window_seconds : ℕ
    pub counts : Counts
    pub shard_executions : GoMap ℕ

  abbrev pub window_of : Time → Collector → String × ℕ → WindowStatistics
  window_of now c w =
      let sums = summarize_buckets c.buckets now.second w.1 in
      record {
        name = w.0;
        window_seconds = w.1;
        counts = finalize (sums.0);
        shard_executions = sums.1;
      }

  -- The windows of a snapshot; the sums by shard come in no order here.
  abbrev pub snapshot_windows : Time → Collector → List WindowStatistics
  snapshot_windows now c =
      map (window_of now c)
        (("10 seconds", 10) ∷ ("1 minute", 60) ∷ ("5 minutes", 300) ∷ ("10 minutes", 600) ∷ [])

  -- The total of a snapshot.
  abbrev pub snapshot_total : Collector → Counts
  snapshot_total c = finalize c.total
