-- ===== src/Statistics/Collector/Executions.antt =====
-- The executions by Burrow that the windows of internal/statistics/statistics.go report.
use hamstergres.Base.{
  ℕ, ◌+◌, ◌≤◌, ◌≡◌, refl, ◌∙◌, String, str_eq, eq_iff, Bool, true, false, List, [], ◌∷◌, All,
  IsFresh, contains-IsFresh, Bool-cases, inl, inr, some, if◌then◌else◌, ℤ, arith,
}
use hamstergres.Base.GoMap.{GoMap, get, keys, get-put}
use hamstergres.Base.GoMap.Keys.{is_present-get}
use hamstergres.Statistics.Words.{add64, word}
use hamstergres.Statistics.Counts.{QueryEvent, Counts, no_counts, or_zero, increase, count_shards}
use hamstergres.Statistics.Windows.{
  TimeBucket, Timed, record_windows, replicate, unused_bucket, merge_counts, merge_shards,
  entries_of, summarize_from, summarize_buckets,
}
use hamstergres.Statistics.Windows.Exact.{
  bucket_total, left_in, query_total, total_exact, LacksLag, LacksZero, IsPast,
}
use hamstergres.Statistics.Windows.Safe.{IsCounted, IsReady}
use hamstergres.Statistics.Windows.Seconds.{in_window, same_second}

-- A number that is read off the result of either branch of the loop of summarizeBuckets.
pub branch :
    (read : Counts × GoMap ℕ → ℕ) (inside : Bool) (added skipped : Counts × GoMap ℕ) (f m t : ℕ)
    → read added ≡ word (add64 f m + t)
    → read skipped ≡ word (f + t)
    → read (if inside then added else skipped) ≡ word (f + ((if inside then m else 0) + t))
branch read true added skipped f m t h k = omega arith
branch read false added skipped f m t h k = omega arith

-- How often a query has run on a Burrow.
abbrev pub occurs : String → List String → ℕ
occurs k [] = 0
occurs k (s ∷ ss) = (if str_eq s k then 1 else 0) + occurs k ss

module _ (k : String) where
  abbrev pub executions_in : GoMap ℕ → ℕ
  executions_in m = or_zero (get k m)

  abbrev pub executions_of : TimeBucket → ℕ
  executions_of b = executions_in (entries_of b.executions)

  abbrev pub runs : QueryEvent → ℕ
  runs q = occurs k q.shards

  executions_in-increase :
      (s : String) (n : ℕ) (m : GoMap ℕ)
      → executions_in (increase s n m)
        ≡ (if str_eq s k then add64 (executions_in m) n else executions_in m)
  unfolding increase
  executions_in-increase s n m = elim (Bool-cases (str_eq s k)) [
    | inl same ↦ rw (get-put s k _ m, same, (eq_iff s k).0 same)
    | inr differs ↦ rw (get-put s k _ m, differs)
  ]

  executions_in-count_shards :
      (ss : List String) (m : GoMap ℕ)
      → word (executions_in (count_shards ss m)) ≡ word (executions_in m + occurs k ss)
  unfolding count_shards
  executions_in-count_shards [] m = omega arith
  executions_in-count_shards (s ∷ ss) m =
      ground (arith, executions_in-count_shards ss (increase s 1 m), executions_in-increase s 1 m)

  left_by :
      (same : Bool) (m : GoMap ℕ)
      → executions_in (if same then m else []) ≡ (if same then executions_in m else 0)
  unfolding get
  left_by true m = refl
  left_by false m = refl

  runs_grow :
      (second : ℤ) (q : QueryEvent) (b b' : TimeBucket)
      → IsCounted second q b b'
      → word (executions_of b') ≡ word (left_in executions_of second b + runs q)
  runs_grow second q b b' counted =
      (rw counted.counts_shards)
      ∙ executions_in-count_shards q.shards
          (if same_second b.second second then entries_of b.executions else [])
      ∙ (rw (left_by (same_second b.second second) (entries_of b.executions)))

  executions_in-merge_shards :
      (seen : List String) (es m : GoMap ℕ)
      → IsFresh seen (keys es)
      → executions_in m ≡ word (executions_in m)
      → executions_in (merge_shards m es) ≡ word (executions_in m + executions_in es)
  unfolding merge_shards get
  executions_in-merge_shards seen [] m fresh reduced = omega arith
  executions_in-merge_shards seen ((s, n) ∷ es) m fresh reduced = ground (
    arith,
    executions_in-merge_shards (s ∷ seen) es (increase s n m) fresh.1,
    executions_in-increase s n m,
    is_present-get k es,
    contains-IsFresh (s ∷ seen) (keys es) k fresh.1,
    eq_iff s k,
  )

  summarize_from-executions :
      (now : ℤ) (window : ℕ) (bs : List TimeBucket) (counts : Counts) (shards : GoMap ℕ)
      → All IsReady bs
      → executions_in shards ≡ word (executions_in shards)
      → executions_in ((summarize_from now window bs counts shards).1)
        ≡ word (executions_in shards + bucket_total executions_of now window bs)
  unfolding summarize_from
  summarize_from-executions now window [] counts shards ready reduced = omega arith
  summarize_from-executions now window (b ∷ bs) counts shards ready reduced =
      let merged = merge_counts counts b.counts in
      let more = merge_shards shards (entries_of b.executions) in
      let sum : executions_in more ≡ add64 (executions_in shards) (executions_of b) =
        executions_in-merge_shards [] (entries_of b.executions) shards ready.0.1 reduced in
      let again = summarize_from-executions now window bs merged more ready.1 (omega arith) in
      branch (λ r. executions_in (r.1)) (in_window now window b.second)
        (summarize_from now window bs merged more) (summarize_from now window bs counts shards)
        (executions_in shards) (executions_of b) (bucket_total executions_of now window bs)
        (again ∙ (rw sum)) (summarize_from-executions now window bs counts shards ready.1 reduced)

  -- For the ring of a new collector that has recorded queries.
  pub summarize_buckets-executions :
      (now : ℤ) (window : ℕ) (es : Timed) (bs : List TimeBucket)
      → window ≤ 600
      → LacksLag es
      → LacksZero es
      → IsPast now es
      → All IsReady bs
      → record_windows es (replicate 600 unused_bucket) ≡ some bs
      → executions_in ((summarize_buckets bs now window).1) ≡ word (query_total runs now window es)
  unfolding summarize_buckets get
  summarize_buckets-executions now window es bs short lag later past ready recorded =
      let sum = summarize_from-executions now window bs no_counts [] ready (omega arith) in
      let total =
        total_exact executions_of runs refl runs_grow now window short es bs lag later past
          recorded in
      omega (arith, sum, total)
