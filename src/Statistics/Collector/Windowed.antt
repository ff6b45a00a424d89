-- ===== src/Statistics/Collector/Windowed.antt =====
-- The windows that `Snapshot` of internal/statistics/statistics.go reports count the queries of
-- their seconds, and no others.
use hamstergres.Base.{
  String, ℕ, ◌+◌, ◌≤◌, ◌≡◌, refl, if-cases, ◌∙◌, Bool, true, false, List, [], ◌∷◌, length, map,
  some, if◌then◌else◌, ltb, ℤ, arith,
}
use hamstergres.Base.GoMap.{GoMap}
use hamstergres.Statistics.Words.{add64, word}
use hamstergres.Statistics.Counts.{QueryEvent, Counts, no_counts, add, finalize, milliseconds}
use hamstergres.Statistics.Windows.{
  TimeBucket, Timed, record_windows, replicate, unused_bucket, merge_counts, merge_shards,
  entries_of, summarize_from, summarize_buckets,
}
use hamstergres.Statistics.Windows.Exact.{
  bucket_total, left_in, query_total, total_exact, LacksLag, LacksZero, IsPast,
}
use hamstergres.Statistics.Collector.Bounded.{timed, record_queries_total, new_collector-IsBounded}
use hamstergres.Statistics.Collector.Executions.{
  branch, executions_in, runs, summarize_buckets-executions,
}
use hamstergres.Statistics.Collector.{
  Parameters, Collector, new_collector, record_queries, snapshot_windows,
}
use hamstergres.Statistics.Summaries.{Time}
use hamstergres.Statistics.Windows.Safe.{IsCounted}
use hamstergres.Statistics.Windows.Seconds.{in_window, same_second}

-- What one query adds to each of the counters.
abbrev pub one : QueryEvent → ℕ
one q = 1

abbrev pub failure : QueryEvent → ℕ
failure q = if q.success then 0 else 1

abbrev pub scattered : QueryEvent → ℕ
scattered q = if ltb 1 (length q.shards) then 1 else 0

abbrev pub single : QueryEvent → ℕ
single q = if ltb 1 (length q.shards) then 0 else if ltb 0 (length q.shards) then 1 else 0

abbrev pub duration_millis : QueryEvent → ℕ
duration_millis q = milliseconds q.duration

sums : (f t q : ℕ) {x : ℕ} → f ≡ 0 → word t ≡ word q → x ≡ word (f + t) → x ≡ word q
sums f t q start total sum = omega arith

-- A field that the loop of summarizeBuckets adds up.
module _ (field : Counts → ℕ)
    (merges : (s t : Counts) → field (merge_counts s t) ≡ add64 (field s) (field t)) (now : ℤ)
    (window : ℕ) where
  abbrev measured : TimeBucket → ℕ
  measured b = field b.counts

  summarize_from-total :
      (bs : List TimeBucket) (counts : Counts) (shards : GoMap ℕ)
      → field counts ≡ word (field counts)
      → field ((summarize_from now window bs counts shards).0)
        ≡ word (field counts + bucket_total measured now window bs)
  unfolding summarize_from
  summarize_from-total [] counts shards reduced = omega arith
  summarize_from-total (b ∷ bs) counts shards reduced =
      let merged = merge_counts counts b.counts in
      let more = merge_shards shards (entries_of b.executions) in
      let sum : field merged ≡ add64 (field counts) (field b.counts) = merges counts b.counts in
      let again = summarize_from-total bs merged more (omega arith) in
      branch (λ r. field (r.0)) (in_window now window b.second)
        (summarize_from now window bs merged more) (summarize_from now window bs counts shards)
        (field counts) (field b.counts) (bucket_total measured now window bs) (again ∙ (rw sum))
        (summarize_from-total bs counts shards reduced)

  module _ (weight : QueryEvent → ℕ) (starts : field no_counts ≡ 0)
      (grows : (q : QueryEvent) (c : Counts)
        → word (field (add q c)) ≡ word (field c + weight q)) where
    grows_from :
        (same : Bool) (q : QueryEvent) (c : Counts)
        → word (field (add q (if same then c else no_counts)))
          ≡ word ((if same then field c else 0) + weight q)
    grows_from true q c = grows q c
    grows_from false q c = grows q no_counts ∙ (rw starts)

    grows_counted :
        (second : ℤ) (q : QueryEvent) (b b' : TimeBucket)
        → IsCounted second q b b'
        → word (field b'.counts) ≡ word (left_in measured second b + weight q)
    grows_counted second q b b' counted =
        (rw counted.counts_query) ∙ grows_from (same_second b.second second) q b.counts

    -- A counter of a window over a ring that has recorded queries.
    window_sum :
        (es : Timed) (bs : List TimeBucket)
        → window ≤ 600
        → LacksLag es
        → LacksZero es
        → IsPast now es
        → record_windows es (replicate 600 unused_bucket) ≡ some bs
        → field ((summarize_buckets bs now window).0) ≡ word (query_total weight now window es)
    unfolding summarize_buckets
    window_sum es bs short lag later past recorded =
        sums (field no_counts) (bucket_total measured now window bs)
          (query_total weight now window es) starts
          (total_exact measured weight starts grows_counted now window short es bs lag later past
            recorded)
          (summarize_from-total bs no_counts [] (omega (arith, starts)))

-- The counters of the queries of a window, each as the int64 that holds it.
abbrev pub counts_of : ℤ → ℕ → Timed → Counts
counts_of now window es = record {
  queries = word (query_total one now window es);
  failed_queries = word (query_total failure now window es);
  scattered_queries = word (query_total scattered now window es);
  single_shard_queries = word (query_total single now window es);
  total_duration_millis = word (query_total duration_millis now window es);
  average_duration_millis = 0;
}

failure_grows :
    (q : QueryEvent) (c : Counts)
    → word ((add q c).failed_queries) ≡ word (c.failed_queries + failure q)
unfolding add
failure_grows q c = ground arith

scattered_grows :
    (q : QueryEvent) (c : Counts)
    → word ((add q c).scattered_queries) ≡ word (c.scattered_queries + scattered q)
unfolding add
scattered_grows q c = ground arith

single_grows :
    (q : QueryEvent) (c : Counts)
    → word ((add q c).single_shard_queries) ≡ word (c.single_shard_queries + single q)
unfolding add
single_grows q c = ground arith

-- The loop keeps the average that it is given.
average_kept :
    (now : ℤ) (window : ℕ) (bs : List TimeBucket) (counts : Counts) (shards : GoMap ℕ)
    → (summarize_from now window bs counts shards).0.average_duration_millis
      ≡ counts.average_duration_millis
unfolding summarize_from
average_kept now window [] counts shards = refl
average_kept now window (b ∷ bs) counts shards =
    if-cases
      (λ (r : Counts × GoMap ℕ). r.0.average_duration_millis ≡ counts.average_duration_millis)
      (in_window now window b.second) (λ inside. average_kept now window bs _ _)
      (λ outside. average_kept now window bs counts shards)

abbrev counts_from : ℕ → ℕ → ℕ → ℕ → ℕ → ℕ → Counts
counts_from q f s o t a = record {
  queries = q;
  failed_queries = f;
  scattered_queries = s;
  single_shard_queries = o;
  total_duration_millis = t;
  average_duration_millis = a;
}

same_counts :
    {q q' f f' s s' o o' t t' a a' : ℕ}
    → q ≡ q'
    → f ≡ f'
    → s ≡ s'
    → o ≡ o'
    → t ≡ t'
    → a ≡ a'
    → counts_from q f s o t a ≡ counts_from q' f' s' o' t' a'
same_counts e1 e2 e3 e4 e5 e6 = cc

module _ (now : ℤ) (window : ℕ) (es : Timed) (bs : List TimeBucket) (short : window ≤ 600)
    (lag : LacksLag es) (later : LacksZero es) (past : IsPast now es)
    (recorded : record_windows es (replicate 600 unused_bucket) ≡ some bs) where
  sum_in :
      (field : Counts → ℕ) (weight : QueryEvent → ℕ)
      → ((s t : Counts) → field (merge_counts s t) ≡ add64 (field s) (field t))
      → field no_counts ≡ 0
      → ((q : QueryEvent) (c : Counts) → word (field (add q c)) ≡ word (field c + weight q))
      → field ((summarize_buckets bs now window).0) ≡ word (query_total weight now window es)
  sum_in field weight merges starts grows =
      window_sum field merges now window weight starts grows es bs short lag later past recorded

  -- What summarizeBuckets returns for the ring of a new collector that has recorded queries.
  pub summarize_buckets_exact : (summarize_buckets bs now window).0 ≡ counts_of now window es
  unfolding summarize_buckets add
  summarize_buckets_exact =
      same_counts (sum_in (λ c. c.queries) one (λ s t. refl) refl (λ q c. omega arith))
        (sum_in (λ c. c.failed_queries) failure (λ s t. refl) refl failure_grows)
        (sum_in (λ c. c.scattered_queries) scattered (λ s t. refl) refl scattered_grows)
        (sum_in (λ c. c.single_shard_queries) single (λ s t. refl) refl single_grows)
        (sum_in (λ c. c.total_duration_millis) duration_millis (λ s t. refl) refl
          (λ q c. omega arith))
        (average_kept now window bs no_counts [])

module _ (env : Parameters) where
  -- If no query is recorded ten minutes or more behind an earlier one, none at the Unix time of 0
  -- seconds, and none behind the time of the snapshot, a new collector records them all, and each
  -- window of its snapshot has the counts of exactly the queries whose second lies in the window,
  -- and for each Burrow the number of times that those ran on it, up to the wrap of int64.
  pub snapshot_windows_exact :
      (es : List (Time × QueryEvent)) (now : Time)
      → LacksLag (timed es)
      → LacksZero (timed es)
      → IsPast now.second (timed es)
      → (c : Collector env) × (record_queries env es (new_collector env) ≡ some c)
        × (map (λ w. w.counts) (snapshot_windows env now c)
            ≡ map (λ n. finalize (counts_of now.second n (timed es))) (10 ∷ 60 ∷ 300 ∷ 600 ∷ []))
        × ((burrow : String)
            → map (λ w. executions_in burrow w.shard_executions) (snapshot_windows env now c)
              ≡ map
                  (λ n. word (query_total (runs burrow) now.second n (timed es)))
                  (10 ∷ 60 ∷ 300 ∷ 600 ∷ []))
  snapshot_windows_exact es now lag later past =
      let (c, recorded, bounded, windows) =
        record_queries_total env es (new_collector env) later (new_collector-IsBounded env) in
      let exact = λ (n : ℕ) (short : n ≤ 600).
        summarize_buckets_exact now.second n (timed es) c.buckets short lag later past windows in
      let runs_exact = λ (burrow : String) (n : ℕ) (short : n ≤ 600).
        summarize_buckets-executions burrow now.second n (timed es) c.buckets short lag later past
          bounded.ring.1 windows in
      (
        c,
        recorded,
        rw (
          exact 10 (omega arith),
          exact 60 (omega arith),
          exact 300 (omega arith),
          exact 600 (omega arith),
        ),
        λ burrow. rw (
          runs_exact burrow 10 (omega arith),
          runs_exact burrow 60 (omega arith),
          runs_exact burrow 300 (omega arith),
          runs_exact burrow 600 (omega arith),
        ),
      )
