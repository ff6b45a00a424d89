-- ===== src/Tests/Statistics.antt =====
-- internal/statistics/statistics.go: a collector that records three queries.
use hamstergres.Base.{
  ℕ, String, true, false, List, [], ◌∷◌, map, length, ◌+◌, ◌≡◌, ◌≤◌, refl, leb, pos, some, none,
  ◌⊎◌, arith,
}
use hamstergres.Base.GoMap.{GoMap, get, delete}
use hamstergres.Statistics.Counts.{QueryEvent, no_counts, finalize}
use hamstergres.Statistics.Windows.{record_window, replicate, unused_bucket}
use hamstergres.Statistics.Summaries.{Time, Summary, evict_summary}
use hamstergres.Statistics.Summaries.Evicted.{IsEvicted, evict_summary-IsEvicted}
use hamstergres.Statistics.Collector.{
  Parameters, Collector, new_collector, record_queries, snapshot_windows,
}
use hamstergres.Statistics.Collector.Bounded.{timed, record_queries_bounded}
use hamstergres.Statistics.Words.{word}
use hamstergres.Statistics.Windows.Exact.{query_total}
use hamstergres.Statistics.Collector.Executions.{executions_in, runs}
use hamstergres.Statistics.Collector.Windowed.{counts_of, snapshot_windows_exact}

abbrev at_second : ℕ → Time
at_second n = record { second = pos n; nanosecond = 0 }

abbrev select_one : QueryEvent
select_one = record {
  duration = 2000000;
  success = true;
  shards = "burrow-a" ∷ [];
  sql = "SELECT 1";
  error_category = "";
}

abbrev failed_scatter : QueryEvent
failed_scatter = record {
  duration = 7000000;
  success = false;
  shards = "burrow-a" ∷ "burrow-b" ∷ [];
  sql = "SELECT * FROM orders";
  error_category = "";
}

-- The third query comes ten minutes behind the first, and takes its bucket.
abbrev recorded_queries : List (Time × QueryEvent)
recorded_queries =
    (at_second 1000, select_one)
    ∷ (at_second 1595, failed_scatter)
    ∷ (at_second 1600, select_one)
    ∷ []

abbrev as_is : String → String
as_is sql = sql

-- Natural numbers in place of the floating-point numbers.
abbrev as_numbers : Parameters
as_numbers = record {
  Float = ℕ;
  zero_seconds = 0;
  plus = λ a b. a + b;
  is_at_most = leb;
  seconds = λ n. n;
  thousandths = λ n. n;
  normalize = as_is;
}

snapshot_windows_exact_example :
    (c : Collector as_numbers) × (record_queries as_numbers recorded_queries
        (new_collector as_numbers)
      ≡ some c)
    × (map (λ w. w.counts) (snapshot_windows as_numbers (at_second 1601) c)
        ≡ map
            (λ n. finalize (counts_of (pos 1601) n (timed recorded_queries)))
            (10 ∷ 60 ∷ 300 ∷ 600 ∷ []))
    × ((burrow : String)
        → map
            (λ w. executions_in burrow w.shard_executions)
            (snapshot_windows as_numbers (at_second 1601) c)
          ≡ map
              (λ n. word (query_total (runs burrow) (pos 1601) n (timed recorded_queries)))
              (10 ∷ 60 ∷ 300 ∷ 600 ∷ []))
snapshot_windows_exact_example =
    snapshot_windows_exact as_numbers recorded_queries (at_second 1601)
      ((refl, (refl, tt)), ((refl, tt), (tt, tt))) (refl, (refl, (refl, tt)))
      (refl, (refl, (refl, tt)))

record_queries_bounded_example :
    (c : Collector as_numbers) × (record_queries as_numbers recorded_queries
        (new_collector as_numbers)
      ≡ some c)
    × (length c.buckets ≡ 600)
    × (length c.labels.labels ≤ 100)
    × ((sql : String)
        → (get sql c.labels.labels ≡ none) ⊎ (get sql c.labels.labels ≡ some (as_is sql)))
    × (length c.summaries ≤ 100)
record_queries_bounded_example =
    record_queries_bounded as_numbers recorded_queries (refl, (refl, (refl, tt)))

abbrev used_at : ℕ → ℕ → Summary
used_at n second = record {
  counts = record no_counts { queries = n };
  executions = [];
  last_seen_at = at_second second;
}

-- The second of the two that ran once, seen last at 1005.
abbrev three_summaries : GoMap Summary
three_summaries =
    ("SELECT ?", used_at 2 1000) ∷ ("COMMIT", used_at 1 1010) ∷ ("BEGIN", used_at 1 1005) ∷ []

evict_summary-IsEvicted_example : IsEvicted three_summaries (evict_summary three_summaries)
evict_summary-IsEvicted_example =
    evict_summary-IsEvicted three_summaries (refl, (refl, (refl, tt))) (omega arith)

least_used_is_evicted :
    evict_summary three_summaries ≡ ("SELECT ?", used_at 2 1000) ∷ ("COMMIT", used_at 1 1010) ∷ []
unfolding evict_summary delete
least_used_is_evicted = refl

-- At the Unix time of 0 seconds an unused bucket passes for one of that second, and its map is nil.
panics_at_zero : record_window (pos 0) select_one (replicate 600 unused_bucket) ≡ none
unfolding record_window replicate
panics_at_zero = refl
