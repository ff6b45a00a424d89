-- ===== src/Statistics/Summaries.antt =====
-- The bounded set of query summaries of internal/statistics/statistics.go.
pub mod Used
pub mod Evicted
use hamstergres.Base.{
  ℕ, ◌≡◌, String, Bool, true, false, ◌&&◌, ◌||◌, List, [], ◌∷◌, length, Option, none, some, ltb,
  leb, ◌==◌, if◌then◌else◌, ℤ, is_present,
}
use hamstergres.Base.GoMap.{GoMap, get, put, delete}
use hamstergres.Statistics.Words.{lt64, eq64}
use hamstergres.Statistics.Counts.{QueryEvent, Counts, no_counts, add, count_shards}
use hamstergres.Statistics.Windows.Seconds.{same_second, lt_second}

abbrev pub max_query_summaries : ℕ
max_query_summaries = 100

-- time.Time, as far as it is read: the Unix second and the nanosecond within it.
pub record Time : Type 0 where
  pub second : ℤ
  pub nanosecond : ℕ

-- t.Before(u)
abbrev pub is_before : Time → Time → Bool
is_before t u =
    lt_second t.second u.second || (same_second t.second u.second && ltb t.nanosecond u.nanosecond)

pub record Summary : Type 0 where
  pub counts : Counts
  pub executions : GoMap ℕ
  pub last_seen_at : Time

-- The condition of the loop of evictSummary for a candidate that is there.
abbrev pub is_older : Summary → Summary → Bool
is_older a b =
    lt64 a.counts.queries b.counts.queries
    || (eq64 a.counts.queries b.counts.queries && is_before a.last_seen_at b.last_seen_at)

abbrev pub better : String × Summary → Option (String × Summary) → String × Summary
better item none = item
better item (some candidate) = if is_older item.1 candidate.1 then item else candidate

-- The loop of evictSummary over the rest of the map, with its candidate.
unfoldable pub candidate_of : Option (String × Summary) → GoMap Summary → Option (String × Summary)
candidate_of candidate [] = candidate
candidate_of candidate (item ∷ items) = candidate_of (some (better item candidate)) items

abbrev pub delete_candidate : Option (String × Summary) → GoMap Summary → GoMap Summary
delete_candidate none m = delete "" m
delete_candidate (some item) m = delete (item.0) m

unfoldable pub evict_summary : GoMap Summary → GoMap Summary
unfolding candidate_of
evict_summary m = delete_candidate (candidate_of none m) m

abbrev pub new_summary : Time → Summary
new_summary now = record { counts = no_counts; executions = []; last_seen_at = now }

abbrev pub count_summary : Time → QueryEvent → Summary → Summary
count_summary now q s = record {
  counts = add q s.counts;
  executions = count_shards q.shards s.executions;
  last_seen_at = now;
}

abbrev pub recorded_in : String → Time → QueryEvent → GoMap Summary → Option Summary → GoMap Summary
recorded_in label now q m (some item) = put label (count_summary now q item) m
recorded_in label now q m none =
    put label (count_summary now q (new_summary now))
      (if leb max_query_summaries (length m) then evict_summary m else m)

unfoldable pub record_summary : String → Time → QueryEvent → GoMap Summary → GoMap Summary
unfolding get add evict_summary
record_summary label now q m = recorded_in label now q m (get label m)
