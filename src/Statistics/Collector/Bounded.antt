-- ===== src/Statistics/Collector/Bounded.antt =====
-- The collector of internal/statistics/statistics.go records every query without a panic, in
-- bounded space.
use hamstergres.Base.{
  ◌≤◌, ◌<◌, ◌≡◌, refl, ◌∙◌, String, false, List, [], ◌∷◌, length, All, Option, Option-cases, none,
  some, ◌⊎◌, inl, inr, ℤ, pos, arith,
}
use hamstergres.Base.GoMap.{get}
use hamstergres.Statistics.Counts.{QueryEvent}
use hamstergres.Statistics.Windows.{unused_bucket, TimeBucket, Timed, record_window, record_windows}
use hamstergres.Statistics.Windows.Safe.{
  IsReady, record_at_total, Recorded-IsReady, replicate-IsReady, length-replicate,
}
use hamstergres.Statistics.Windows.Exact.{LacksZero}
use hamstergres.Statistics.Windows.Seconds.{bucket_index, bucket_index-lt, same_second}
use hamstergres.Statistics.Labels.{Labels, summary_label}
use hamstergres.Statistics.Labels.Bounded.{
  IsCache, IsLabelled, no_labels-IsCache, summary_label-IsLabelled,
}
use hamstergres.Statistics.Summaries.{Time}
use hamstergres.Statistics.Summaries.Evicted.{AreSummaries, record_summary-AreSummaries}
use hamstergres.Statistics.Collector.{
  Parameters, Collector, counted, new_collector, record_query, record_queries,
}

-- The seconds of the queries.
abbrev pub timed : List (Time × QueryEvent) → Timed
timed [] = []
timed ((now, q) ∷ es) = (now.second, q) ∷ timed es

-- A ring of 600 buckets, each ready to count.
abbrev pub IsRing : List TimeBucket → Type 0
IsRing bs = (length bs ≡ 600) × All IsReady bs

IsRing-record_window :
    (second : ℤ) (q : QueryEvent) (bs : List TimeBucket)
    → same_second (pos 0) second ≡ false
    → IsRing bs
    → (bs' : List TimeBucket) × (record_window second q bs ≡ some bs') × IsRing bs'
unfolding record_window
IsRing-record_window second q bs later (size, ready) =
    let inside : bucket_index (length bs) second < length bs =
      ground (arith, bucket_index-lt second) in
    let (bs', done, recorded) =
      record_at_total (bucket_index (length bs) second) second q bs later ready inside in
    let (ready', same) = Recorded-IsReady second q recorded ready in
    (bs', done, (same ∙ size, ready'))

label_of :
    (normalize : String → String) (sql : String) (o : Option (String × Labels))
    → IsLabelled normalize sql o
    → (c : Labels) × (o ≡ some (normalize sql, c)) × IsCache normalize c
label_of normalize sql none labelled = elim labelled [ ]
label_of normalize sql (some (label, c)) (same, cache) = (c, rw same, cache)

-- A label that is cached is the one that Normalize gives.
cached :
    (normalize : String → String) (sql : String) (c : Labels)
    → IsCache normalize c
    → (get sql c.labels ≡ none) ⊎ (get sql c.labels ≡ some (normalize sql))
cached normalize sql c cache = elim (Option-cases (get sql c.labels)) [
  | inl missing ↦ inl missing
  | inr (label, found) ↦ inr (found ∙ (rw (cache.normalized sql label found)))
]

module _ (env : Parameters) where
  abbrev C : Type 0
  C = Collector env

  pub record IsBounded (c : C) : Type 0 where
    pub ring : IsRing c.buckets
    pub cache : IsCache env.normalize c.labels
    pub summarized : AreSummaries c.summaries

  abbrev start : C
  start = new_collector env

  pub new_collector-IsBounded : IsBounded start
  new_collector-IsBounded = record {
    ring = (length-replicate 600 unused_bucket, replicate-IsReady 600);
    cache = no_labels-IsCache env.normalize;
    summarized = record { differ = tt; bounded = omega arith };
  }

  abbrev record_one : Time → QueryEvent → C → Option C
  record_one = record_query env

  record_query_total :
      (now : Time) (q : QueryEvent) (c : C)
      → same_second (pos 0) now.second ≡ false
      → IsBounded c
      → (c' : C) × (record_one now q c ≡ some c')
        × IsBounded c'
        × (record_window now.second q c.buckets ≡ some c'.buckets)
  unfolding record_query counted
  record_query_total now q c later bounded =
      let (labels, labelled, cache) =
        label_of env.normalize q.sql (summary_label env.normalize q.sql c.labels)
          (summary_label-IsLabelled env.normalize q.sql c.labels bounded.cache) in
      let (buckets, done, ring) = IsRing-record_window now.second q c.buckets later bounded.ring in
      (
        counted env now q c (env.normalize q.sql, labels) buckets,
        rw (labelled, done),
        record {
          ring = ring;
          cache = cache;
          summarized =
              record_summary-AreSummaries (env.normalize q.sql) now q c.summaries
                bounded.summarized;
        },
        done,
      )

  pub record_queries_total :
      (es : List (Time × QueryEvent)) (c : C)
      → LacksZero (timed es)
      → IsBounded c
      → (c' : C) × (record_queries env es c ≡ some c')
        × IsBounded c'
        × (record_windows (timed es) c.buckets ≡ some c'.buckets)
  unfolding record_queries record_windows
  record_queries_total [] c later bounded = (c, refl, bounded, refl)
  record_queries_total ((now, q) ∷ es) c later bounded =
      let (c', once, bounded', window) = record_query_total now q c later.0 bounded in
      let (c'', others, bounded'', windows) = record_queries_total es c' later.1 bounded' in
      (c'', (rw once) ∙ others, bounded'', (rw window) ∙ windows)

  -- Whatever queries a new collector records, at no Unix time of 0 seconds, each call of Record
  -- returns, without a write to a nil map or an index past the end, and leaves a ring of 600
  -- buckets, at most 100 cached labels, each of them what Normalize returns for its text, and at
  -- most 100 summaries.
  pub record_queries_bounded :
      (es : List (Time × QueryEvent))
      → LacksZero (timed es)
      → (c : C) × (record_queries env es start ≡ some c)
        × (length c.buckets ≡ 600)
        × (length c.labels.labels ≤ 100)
        × ((sql : String)
            → (get sql c.labels.labels ≡ none)
              ⊎ (get sql c.labels.labels ≡ some (env.normalize sql)))
        × (length c.summaries ≤ 100)
  record_queries_bounded es later =
      let (c, recorded, bounded, _) = record_queries_total es start later new_collector-IsBounded in
      (
        c,
        recorded,
        bounded.ring.0,
        bounded.cache.bounded,
        (λ sql. cached env.normalize sql c.labels bounded.cache),
        bounded.summarized.bounded,
      )
