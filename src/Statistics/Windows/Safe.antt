-- ===== src/Statistics/Windows/Safe.antt =====
-- `recordWindow` of internal/statistics/statistics.go does not write to a nil map, but at the Unix
-- time 0, the second that an unused bucket carries.
use hamstergres.Base.{
  ℕ, String, zero, suc, ◌<◌, ◌≡◌, refl, sym, ◌∙◌, inl, inr, true, false, List, [], ◌∷◌, length, All,
  Option, none, some, ℤ, pos, negsuc, arith, Bool-cases, is_present, if◌then◌else◌, if-cases, subst,
  Distinct,
}
use hamstergres.Base.GoMap.{GoMap, keys}
use hamstergres.Base.GoMap.Keys.{Distinct-put}
use hamstergres.Statistics.Counts.{QueryEvent, Counts, no_counts, add, increase, count_shards}
use hamstergres.Statistics.Windows.{
  TimeBucket, unused_bucket, replicate, count_executions, turn_to, count_in, record_at,
  with_executions, entries_of,
}
use hamstergres.Statistics.Windows.Seconds.{same_second}

-- Only a bucket of the second 0 may have a nil map, and a map has no key twice.
abbrev pub IsReady : TimeBucket → Type 0
IsReady b =
    (is_present b.executions ≡ false → same_second (pos 0) b.second ≡ true)
    × Distinct (keys (entries_of b.executions))

pub replicate-IsReady : (n : ℕ) → All IsReady (replicate n unused_bucket)
unfolding replicate
replicate-IsReady zero = tt
replicate-IsReady (suc n) = (((λ nil. refl), tt), replicate-IsReady n)

pub length-replicate : (n : ℕ) (b : TimeBucket) → length (replicate n b) ≡ n
unfolding replicate
length-replicate zero b = refl
length-replicate (suc n) b = rw (length-replicate n b)

pub same_second_eq : (a b : ℤ) → same_second a b ≡ true → a ≡ b
same_second_eq (pos a) (pos b) same = ground arith
same_second_eq (pos a) (negsuc b) same = cc
same_second_eq (negsuc a) (pos b) same = cc
same_second_eq (negsuc a) (negsuc b) same = ground arith

-- What a bucket holds when a query of the second has been counted in it.
pub record IsCounted (second : ℤ) (q : QueryEvent) (b b' : TimeBucket) : Type 0 where
  pub at_second : b'.second ≡ second
  pub counts_query : b'.counts ≡ add q (if same_second b.second second then b.counts else no_counts)
  pub counts_shards :
      entries_of b'.executions
      ≡ count_shards q.shards (if same_second b.second second then entries_of b.executions else [])
  pub keeps_map : is_present b'.executions ≡ true

counted_in :
    (counts : Counts) (second : ℤ) (shards : List String) (m : GoMap ℕ)
    → (b' : TimeBucket) × (with_executions counts second (count_executions shards (some m))
        ≡ some b')
      × (b'.second ≡ second)
      × (b'.counts ≡ counts)
      × (entries_of b'.executions ≡ count_shards shards m)
      × (is_present b'.executions ≡ true)
unfolding count_executions count_shards
counted_in counts second [] m = (_, refl, refl, refl, refl, refl)
counted_in counts second (s ∷ ss) m = (_, refl, refl, refl, refl, refl)

-- A bucket is turned to a second other than 0 with a map that is not nil.
turned :
    (second s : ℤ) (counts : Counts) (executions : Option (GoMap ℕ))
    → same_second (pos 0) second ≡ false
    → (is_present executions ≡ false → same_second (pos 0) s ≡ true)
    → (m : GoMap ℕ) × (turn_to second
          (record { second = s; counts = counts; executions = executions })
        ≡ record {
          second = second;
          counts = if same_second s second then counts else no_counts;
          executions = some m;
        })
      × (m ≡ (if same_second s second then entries_of executions else []))
unfolding turn_to
turned second s counts none later ready =
    let at_zero : s ≡ pos 0 = sym (same_second_eq (pos 0) s (ready refl)) in
    let differs : same_second s second ≡ false = rw (at_zero, later) in ([], rw differs, rw differs)
turned second s counts (some m) later ready = elim (Bool-cases (same_second s second)) [
  | inl same ↦ (m, rw (same, same_second_eq s second same), rw same)
  | inr differs ↦ ([], rw differs, rw differs)
]

-- The bucket of a second other than 0 is turned to that second and counts the query.
pub count_in_total :
    (second : ℤ) (q : QueryEvent) (b : TimeBucket)
    → same_second (pos 0) second ≡ false
    → IsReady b
    → (b' : TimeBucket) × (count_in q (turn_to second b) ≡ some b') × IsCounted second q b b'
unfolding count_in
count_in_total second q b later ready =
    let (m, turned_eq, kept) = turned second b.second b.counts b.executions later ready.0 in
    let counts = if same_second b.second second then b.counts else no_counts in
    let (b', counted, at, counts_eq, shards_eq, made) =
      counted_in (add q counts) second q.shards m in
    (
      b',
      (rw turned_eq) ∙ counted,
      record {
        at_second = at;
        counts_query = counts_eq;
        counts_shards = shards_eq ∙ (rw kept);
        keeps_map = made;
      },
    )

-- The ring before and after: the bucket at `i` has counted the query, the others are as they were.
pub data Recorded (second : ℤ) (q : QueryEvent)
    : ℕ → List TimeBucket → List TimeBucket → Type 0 where
  here :
      {b b' : TimeBucket} {bs : List TimeBucket}
      → IsCounted second q b b'
      → Recorded second q zero (b ∷ bs) (b' ∷ bs)
  there :
      {i : ℕ} {b : TimeBucket} {bs bs' : List TimeBucket}
      → Recorded second q i bs bs'
      → Recorded second q (suc i) (b ∷ bs) (b ∷ bs')

pub record_at_total :
    (i : ℕ) (second : ℤ) (q : QueryEvent) (bs : List TimeBucket)
    → same_second (pos 0) second ≡ false
    → All IsReady bs
    → i < length bs
    → (bs' : List TimeBucket) × (record_at i second q bs ≡ some bs') × Recorded second q i bs bs'
unfolding record_at
record_at_total i second q [] later ready within = elim within [ ]
record_at_total zero second q (b ∷ bs) later ready within =
    let (b', counted, is_counted) = count_in_total second q b later ready.0 in
    (b' ∷ bs, rw counted, here is_counted)
record_at_total (suc i) second q (b ∷ bs) later ready within =
    let (bs', done, recorded) = record_at_total i second q bs later ready.1 (omega arith) in
    (b ∷ bs', rw done, there recorded)

Distinct-count_shards :
    (shards : List String) (m : GoMap ℕ)
    → Distinct (keys m)
    → Distinct (keys (count_shards shards m))
unfolding count_shards increase
Distinct-count_shards [] m differ = differ
Distinct-count_shards (s ∷ ss) m differ =
    Distinct-count_shards ss (increase s 1 m) (Distinct-put s _ m differ)

IsReady-IsCounted :
    (second : ℤ) (q : QueryEvent) (b b' : TimeBucket)
    → IsCounted second q b b'
    → IsReady b
    → IsReady b'
IsReady-IsCounted second q b b' counted ready =
    let differ : Distinct
        (keys (if same_second b.second second then entries_of b.executions else [])) =
      if-cases (λ (m : GoMap ℕ). Distinct (keys m)) (same_second b.second second) (λ same. ready.1)
        (λ differs. tt) in
    (
      (λ nil. cc (nil, counted.keeps_map)),
      subst (λ (m : GoMap ℕ). Distinct (keys m)) (sym counted.counts_shards)
          (Distinct-count_shards q.shards _ differ),
    )

pub Recorded-IsReady :
    (second : ℤ) (q : QueryEvent) {i : ℕ} {bs bs' : List TimeBucket}
    → Recorded second q i bs bs'
    → All IsReady bs
    → All IsReady bs' × (length bs' ≡ length bs)
Recorded-IsReady second q (here counted) ready =
    ((IsReady-IsCounted second q _ _ counted ready.0, ready.1), refl)
Recorded-IsReady second q (there recorded) ready =
    let (rest, same) = Recorded-IsReady second q recorded ready.1 in ((ready.0, rest), rw same)
