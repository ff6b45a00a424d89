-- ===== src/Statistics/Summaries/Evicted.antt =====
-- The summaries of internal/statistics/statistics.go stay within their bound, and the one that
-- gives way is one that was used least.
use hamstergres.Base.{
  Option-cases, leb, is_present, ◌≤◌, ◌<◌, ◌≡◌, refl, sym, subst, String, str_eq, eq_iff, true,
  false, List, [], ◌∷◌, length, All, some, if-cases, arith, Bool-cases, inl, inr, eq_refl, ◌⊎◌, ◌∙◌,
  All-map, contains, IsFresh, Distinct, contains-IsFresh,
}
use hamstergres.Base.GoMap.{GoMap, keys, get, put, delete}
use hamstergres.Statistics.Counts.{QueryEvent}
use hamstergres.Statistics.Summaries.Used.{
  is_older_trans, is_older_refl, better_oldest, IsLeastUsed, less_used,
}
use hamstergres.Statistics.Summaries.{
  record_summary, recorded_in, count_summary, new_summary, max_query_summaries, Time, Summary,
  is_older, better, candidate_of, evict_summary,
}
use hamstergres.Base.GoMap.Keys.{
  length-delete, length-delete_present, length-put, is_present-get, Distinct-put, Distinct-delete,
}

-- Nothing in the list is older than `best`.
abbrev IsOldest : Summary → GoMap Summary → Type 0
IsOldest best items = All (λ item. is_older item.1 best ≡ false) items

-- An entry of the list `items`, or the candidate.
abbrev IsChoice : String × Summary → GoMap Summary → String × Summary → Type 0
IsChoice candidate items best = (best ≡ candidate) ⊎ (get best.0 items ≡ some best.1)

IsChoice-behind :
    (item best : String × Summary) (items : GoMap Summary)
    → contains item.0 (keys items) ≡ false
    → get best.0 items ≡ some best.1
    → get best.0 (item ∷ items) ≡ some best.1
unfolding get
IsChoice-behind item best items fresh at = elim (Bool-cases (str_eq item.0 best.0)) [
  | inl same ↦
      let held : contains best.0 (keys items) ≡ true =
        (sym (is_present-get best.0 items)) ∙ (rw at) in
      ground (arith, eq_iff item.0 best.0)
  | inr differs ↦ (rw differs) ∙ at
]

IsChoice-better :
    (item candidate best : String × Summary) (items : GoMap Summary)
    → contains item.0 (keys items) ≡ false
    → IsChoice (better item (some candidate)) items best
    → IsChoice candidate (item ∷ items) best
unfolding get
IsChoice-better item candidate best items fresh (inr at) =
    inr (IsChoice-behind item best items fresh at)
IsChoice-better item candidate best items fresh (inl same) =
    subst (IsChoice candidate (item ∷ items)) (sym same) (
      if-cases (IsChoice candidate (item ∷ items)) (is_older item.1 candidate.1)
        (λ older. inr (rw (eq_refl item.0))) (λ newer. inl refl))

chosen :
    (item best : String × Summary) (items : GoMap Summary)
    → contains item.0 (keys items) ≡ false
    → IsChoice item items best
    → get best.0 (item ∷ items) ≡ some best.1
unfolding get
chosen item best items fresh (inl same) = rw (same, eq_refl item.0)
chosen item best items fresh (inr at) = IsChoice-behind item best items fresh at

-- The loop ends with the candidate that it had or with an entry of the map, and none is older.
candidate_found :
    (seen : List String) (candidate : String × Summary) (items : GoMap Summary)
    → IsFresh seen (keys items)
    → (best : String × Summary) × (candidate_of (some candidate) items ≡ some best)
      × (is_older candidate.1 best.1 ≡ false)
      × IsOldest best.1 items
      × IsChoice candidate items best
unfolding candidate_of
candidate_found seen candidate [] fresh = (candidate, refl, is_older_refl candidate.1, tt, inl refl)
candidate_found seen candidate (item ∷ items) fresh =
    let next = better item (some candidate) in
    let (candidate_older, item_older) = better_oldest item candidate in
    let (best, found, older, rest, choice) = candidate_found (item.0 ∷ seen) next items fresh.1 in
    (
      best,
      found,
      is_older_trans candidate.1 next.1 best.1 candidate_older older,
      (is_older_trans item.1 next.1 best.1 item_older older, rest),
      IsChoice-better item candidate best items
          (contains-IsFresh (item.0 ∷ seen) (keys items) item.0 fresh.1
            (ground (arith, eq_refl item.0)))
          choice,
    )

-- A map of summaries as the collector keeps it.
pub record AreSummaries (m : GoMap Summary) : Type 0 where
  pub differ : Distinct (keys m)
  pub bounded : length m ≤ 100

-- What evictSummary takes out of a map.
abbrev pub IsEvicted : GoMap Summary → GoMap Summary → Type 0
IsEvicted m n =
    (label : String) × (victim : Summary) × (get label m ≡ some victim)
    × IsLeastUsed victim m
    × (n ≡ delete label m)

-- From a map that is not empty, and has no label twice, evictSummary takes an entry that no other has fewer queries than,
-- or as many and an earlier use.
pub evict_summary-IsEvicted :
    (m : GoMap Summary) → Distinct (keys m) → 0 < length m → IsEvicted m (evict_summary m)
unfolding evict_summary get candidate_of
evict_summary-IsEvicted [] differ some_left = elim some_left [ ]
evict_summary-IsEvicted (item ∷ items) differ some_left =
    let (best, found, older, rest, choice) = candidate_found (item.0 ∷ []) item items differ.1 in
    let fresh =
      contains-IsFresh (item.0 ∷ []) (keys items) item.0 differ.1
        (ground (arith, eq_refl item.0)) in
    (
      best.0,
      best.1,
      chosen item best items fresh choice,
      All-map (item ∷ items) (λ other h. less_used best.1 other.1 h) (older, rest),
      rw found,
    )

put_bounded :
    (label : String) (s : Summary) (m : GoMap Summary)
    → Distinct (keys m)
    → length m < 100
    → AreSummaries (put label s m)
put_bounded label s m differ room = record {
  differ = Distinct-put label s m differ;
  bounded = omega (arith, length-put label s m, length-delete label m);
}

evicted_bounded :
    (label : String) (s : Summary) (m n : GoMap Summary)
    → AreSummaries m
    → IsEvicted m n
    → AreSummaries (put label s n)
evicted_bounded label s m n kept (leaving, victim, at, _, gone) =
    let shorter : length (delete leaving m) < length m = length-delete_present leaving m (rw at) in
    let bounded : length (delete leaving m) < 100 = omega (arith, shorter, kept.bounded) in
    subst (λ k. AreSummaries (put label s k)) (sym gone)
      (put_bounded label s (delete leaving m) (Distinct-delete leaving m kept.differ) bounded)

-- An assignment to a key that is present.
put_present :
    (label : String) (s t : Summary) (m : GoMap Summary)
    → AreSummaries m
    → get label m ≡ some t
    → AreSummaries (put label s m)
put_present label s t m kept held = record {
  differ = Distinct-put label s m kept.differ;
  bounded =
      let present : is_present (get label m) ≡ true = rw held in
      omega (arith, length-put label s m, length-delete_present label m present, kept.bounded);
}

-- recordSummary keeps at most 100 summaries, of different labels.
pub record_summary-AreSummaries :
    (label : String) (now : Time) (q : QueryEvent) (m : GoMap Summary)
    → AreSummaries m
    → AreSummaries (record_summary label now q m)
unfolding record_summary
record_summary-AreSummaries label now q m kept = elim (Option-cases (get label m)) [
  | inl missing ↦
      let fresh = count_summary now q (new_summary now) in
      subst (λ o. AreSummaries (recorded_in label now q m o)) (sym missing)
        (if-cases (λ n. AreSummaries (put label fresh n)) (leb max_query_summaries (length m))
          (λ full.
            evicted_bounded label fresh m (evict_summary m) kept
              (evict_summary-IsEvicted m kept.differ (ground arith)))
          (λ room. put_bounded label fresh m kept.differ (ground arith)))
  | inr (s, held) ↦
      subst (λ o. AreSummaries (recorded_in label now q m o)) (sym held)
        (put_present label (count_summary now q s) s m kept held)
]
