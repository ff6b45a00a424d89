-- ===== src/Statistics/Windows/Exact.antt =====
-- The sums of `summarizeBuckets` in internal/statistics/statistics.go over a ring that has recorded
-- queries whose seconds lag by less than ten minutes.
use hamstergres.Base.{
  ℕ, zero, suc, ◌+◌, ◌%◌, ◌<◌, ◌≤◌, ◌≡◌, refl, sym, ap, subst, pos, ◌∙◌, ◌⊎◌, inl, inr, Bool, true,
  false, List, [], ◌∷◌, length, All, some, ℤ, pos, arith, Bool-cases, if◌then◌else◌, if-cases,
}
use hamstergres.Statistics.Counts.{QueryEvent}
use hamstergres.Statistics.Windows.{TimeBucket, unused_bucket, replicate, Timed, record_windows}
use hamstergres.Statistics.Windows.Safe.{
  length-replicate, replicate-IsReady, same_second_eq, IsCounted, Recorded, here, there, IsReady,
  record_at_total, Recorded-IsReady,
}
use hamstergres.Statistics.Windows.Seconds.{
  bucket_index, in_window, same_second, lt_second, before_by, stale, bucket_index-lt,
}

-- Each of the seconds is less than ten minutes before `second`, or later.
abbrev pub IsAhead : ℤ → Timed → Type 0
IsAhead second [] = Unit
IsAhead second ((s, q) ∷ es) = (lt_second (before_by 600 second) s ≡ true) × IsAhead second es

-- No query lags ten minutes or more behind one recorded before it.
abbrev pub LacksLag : Timed → Type 0
LacksLag [] = Unit
LacksLag ((s, q) ∷ es) = IsAhead s es × LacksLag es

-- No query is recorded at a second behind `now`.
abbrev pub IsPast : ℤ → Timed → Type 0
IsPast now [] = Unit
IsPast now ((s, q) ∷ es) = (lt_second now s ≡ false) × IsPast now es

-- None is recorded in the second 0 of the Unix time.
abbrev pub LacksZero : Timed → Type 0
LacksZero [] = Unit
LacksZero ((s, q) ∷ es) = (same_second (pos 0) s ≡ false) × LacksZero es

-- A bucket at index `i` before the queries `es`.
abbrev pub IsHeld : Timed → ℕ → TimeBucket → Type 0
IsHeld es i b = (b ≡ unused_bucket) ⊎ ((bucket_index 600 b.second ≡ i) × IsAhead b.second es)

abbrev pub AreHeld : Timed → ℕ → List TimeBucket → Type 0
AreHeld es i [] = Unit
AreHeld es i (b ∷ bs) = IsHeld es i b × AreHeld es (suc i) bs

-- The bucket that has counted the query holds for the queries to come, as the others do.
IsHeld-later :
    (e : ℤ × QueryEvent) (es : Timed) (i : ℕ) (b : TimeBucket) → IsHeld (e ∷ es) i b → IsHeld es i b
IsHeld-later e es i b (inl unused) = inl unused
IsHeld-later e es i b (inr (index, ahead)) = inr (index, ahead.1)

AreHeld-later :
    (e : ℤ × QueryEvent) (es : Timed) (i : ℕ) (bs : List TimeBucket)
    → AreHeld (e ∷ es) i bs
    → AreHeld es i bs
AreHeld-later e es i [] held = tt
AreHeld-later e es i (b ∷ bs) held =
    (IsHeld-later e es i b held.0, AreHeld-later e es (suc i) bs held.1)

AreHeld-Recorded :
    (second : ℤ) (q : QueryEvent) (es : Timed) (i j : ℕ) (bs bs' : List TimeBucket)
    → Recorded second q j bs bs'
    → bucket_index 600 second ≡ i + j
    → AreHeld ((second, q) ∷ es) i bs
    → IsAhead second es
    → AreHeld es i bs'
AreHeld-Recorded second q es i zero [] bs' recorded at held ahead = elim recorded [ ]
AreHeld-Recorded second q es i (suc j) [] bs' recorded at held ahead = elim recorded [ ]
AreHeld-Recorded second q es i zero (b ∷ bs) [] recorded at held ahead = elim recorded [ ]
AreHeld-Recorded second q es i (suc j) (b ∷ bs) [] recorded at held ahead = elim recorded [ ]
AreHeld-Recorded second q es i zero (b ∷ bs) (b' ∷ _) (here counted) at held ahead =
    let index : bucket_index 600 second ≡ i = omega arith in
    (
      inr (rw (counted.at_second, index), rw (← counted.at_second) at ahead),
      AreHeld-later (second, q) es (suc i) bs held.1,
    )
AreHeld-Recorded second q es i (suc j) (b ∷ bs) (_ ∷ bs') (there recorded) at held ahead = (
  IsHeld-later (second, q) es i b held.0,
  AreHeld-Recorded second q es (suc i) j bs bs' recorded (omega arith) held.1 ahead,
)

pub AreHeld-replicate : (es : Timed) (i n : ℕ) → AreHeld es i (replicate n unused_bucket)
unfolding replicate
AreHeld-replicate es i zero = tt
AreHeld-replicate es i (suc n) = (inl refl, AreHeld-replicate es (suc i) n)

-- A step counts inside of the window only.
within :
    (inside : Bool) (b' b w : ℕ)
    → b' % 18446744073709551616 ≡ (b + w) % 18446744073709551616
    → (if inside then b' else 0) % 18446744073709551616
      ≡ ((if inside then b else 0) + (if inside then w else 0)) % 18446744073709551616
within true b' b w h = h
within false b' b w h = refl

within_new :
    (inside : Bool) (b' w : ℕ)
    → b' % 18446744073709551616 ≡ (0 + w) % 18446744073709551616
    → (if inside then b' else 0) % 18446744073709551616
      ≡ (0 + (if inside then w else 0)) % 18446744073709551616
within_new true b' w h = h
within_new false b' w h = refl

add_mod :
    (a b w r : ℕ)
    → a % 18446744073709551616 ≡ (b + w) % 18446744073709551616
    → (a + r) % 18446744073709551616 ≡ (b + r + w) % 18446744073709551616
add_mod a b w r h = omega arith

mod_add :
    (a b w r : ℕ)
    → a % 18446744073709551616 ≡ (b + w) % 18446744073709551616
    → (r + a) % 18446744073709551616 ≡ (r + b + w) % 18446744073709551616
mod_add a b w r h = omega arith

chain :
    (a b c t w : ℕ)
    → a % 18446744073709551616 ≡ (b + t) % 18446744073709551616
    → b % 18446744073709551616 ≡ (c + w) % 18446744073709551616
    → a % 18446744073709551616 ≡ (c + (w + t)) % 18446744073709551616
chain a b c t w h k = omega arith

-- The sum of a counter over the buckets of a window, and of what queries add to one.
abbrev pub bucket_share : (TimeBucket → ℕ) → ℤ → ℕ → TimeBucket → ℕ
bucket_share measure now window b = if in_window now window b.second then measure b else 0

abbrev pub bucket_total : (TimeBucket → ℕ) → ℤ → ℕ → List TimeBucket → ℕ
bucket_total measure now window [] = 0
bucket_total measure now window (b ∷ bs) =
    bucket_share measure now window b + bucket_total measure now window bs

abbrev pub query_share : (QueryEvent → ℕ) → ℤ → ℕ → ℤ → QueryEvent → ℕ
query_share weight now window second q = if in_window now window second then weight q else 0

abbrev pub query_total : (QueryEvent → ℕ) → ℤ → ℕ → Timed → ℕ
query_total weight now window [] = 0
query_total weight now window ((s, q) ∷ es) =
    query_share weight now window s q + query_total weight now window es

-- What a bucket has before a query of the second, once it is turned to it.
abbrev pub left_in : (TimeBucket → ℕ) → ℤ → TimeBucket → ℕ
left_in measure second b = if same_second b.second second then measure b else 0

-- A measure of buckets that one query increases by `weight`, up to the wrap of int64.
module _ (measure : TimeBucket → ℕ) (weight : QueryEvent → ℕ) (starts : measure unused_bucket ≡ 0)
    (grows : (second : ℤ) (q : QueryEvent) (b b' : TimeBucket)
      → IsCounted second q b b'
      → measure b' % 18446744073709551616
        ≡ (left_in measure second b + weight q) % 18446744073709551616)
    (now : ℤ) (window : ℕ) (short : window ≤ 600) where
  abbrev share : TimeBucket → ℕ
  share = bucket_share measure now window

  abbrev total : List TimeBucket → ℕ
  total = bucket_total measure now window

  abbrev share_of : ℤ → QueryEvent → ℕ
  share_of = query_share weight now window

  abbrev tally : Timed → ℕ
  tally = query_total weight now window

  -- A bucket that has to be turned to another second has no share any more.
  share_gone :
      (second : ℤ) (q : QueryEvent) (es : Timed) (b : TimeBucket)
      → same_second b.second second ≡ false
      → IsHeld ((second, q) ∷ es) (bucket_index 600 second) b
      → lt_second now second ≡ false
      → share b ≡ 0
  share_gone second q es b differs (inl unused) past =
      if-cases (λ n. n ≡ 0) (in_window now window b.second) (λ inside. ap measure unused ∙ starts)
        (λ outside. refl)
  share_gone second q es b differs (inr (index, ahead)) past =
      rw (stale now b.second second window index differs ahead.0 past short)

  share-IsCounted :
      (second : ℤ) (q : QueryEvent) (es : Timed) (b b' : TimeBucket)
      → IsCounted second q b b'
      → IsHeld ((second, q) ∷ es) (bucket_index 600 second) b
      → lt_second now second ≡ false
      → share b' % 18446744073709551616 ≡ (share b + share_of second q) % 18446744073709551616
  share-IsCounted second q es b b' counted held past =
      elim (Bool-cases (same_second b.second second)) [
        | inl same ↦
            let at : b.second ≡ second = same_second_eq b.second second same in
            let left : left_in measure second b ≡ measure b = rw same in
            (rw (counted.at_second, sym at))
            ∙ within (in_window now window b.second) (measure b') (measure b) (weight q)
                (grows second q b b' counted ∙ (rw left))
            ∙ (rw at)
        | inr differs ↦
            let left : left_in measure second b ≡ 0 = rw differs in
            let gone : share b ≡ 0 = share_gone second q es b differs held past in
            (rw counted.at_second)
            ∙ within_new (in_window now window second) (measure b') (weight q)
                (grows second q b b' counted ∙ (rw left))
            ∙ (rw gone)
      ]

  total-Recorded :
      (second : ℤ) (q : QueryEvent) (es : Timed) (i j : ℕ) (bs bs' : List TimeBucket)
      → Recorded second q j bs bs'
      → bucket_index 600 second ≡ i + j
      → AreHeld ((second, q) ∷ es) i bs
      → lt_second now second ≡ false
      → total bs' % 18446744073709551616 ≡ (total bs + share_of second q) % 18446744073709551616
  total-Recorded second q es i zero [] _ recorded at held past = elim recorded [ ]
  total-Recorded second q es i (suc j) [] _ recorded at held past = elim recorded [ ]
  total-Recorded second q es i zero (b ∷ bs) [] recorded at held past = elim recorded [ ]
  total-Recorded second q es i (suc j) (b ∷ bs) [] recorded at held past = elim recorded [ ]
  total-Recorded second q es i zero (b ∷ bs) (b' ∷ _) (here counted) at held past =
      let index : bucket_index 600 second ≡ i = omega arith in
      let step = share-IsCounted second q es b b' counted (rw (← index) at held.0) past in
      add_mod (share b') (share b) (share_of second q) (total bs) step
  total-Recorded second q es i (suc j) (b ∷ bs) (_ ∷ bs') (there recorded) at held past =
      mod_add (total bs') (total bs) (share_of second q) (share b)
        (total-Recorded second q es (suc i) j bs bs' recorded (omega arith) held.1 past)

  -- A ring that is ready for the queries counts each of them, and those in the window are in the
  -- total of the window.
  pub record_windows_exact :
      (es : Timed) (bs : List TimeBucket)
      → length bs ≡ 600
      → All IsReady bs
      → AreHeld es 0 bs
      → LacksLag es
      → LacksZero es
      → IsPast now es
      → (bs' : List TimeBucket) × (record_windows es bs ≡ some bs')
        × (total bs' % 18446744073709551616 ≡ (total bs + tally es) % 18446744073709551616)
  unfolding record_windows
  record_windows_exact [] bs size ready held lag later past = (bs, refl, omega arith)
  record_windows_exact ((s, q) ∷ es) bs size ready held lag later past =
      let index : bucket_index (length bs) s ≡ bucket_index 600 s = rw size in
      let inside : bucket_index (length bs) s < length bs = omega (arith, bucket_index-lt s) in
      let (bs', done, recorded) =
        record_at_total (bucket_index (length bs) s) s q bs later.0 ready inside in
      let at : bucket_index 600 s ≡ 0 + bucket_index (length bs) s = omega arith in
      let step =
        total-Recorded s q es 0 (bucket_index (length bs) s) bs bs' recorded at held past.0 in
      let (ready', same) = Recorded-IsReady s q recorded ready in
      let held' =
        AreHeld-Recorded s q es 0 (bucket_index (length bs) s) bs bs' recorded at held lag.0 in
      let (bs'', rest, sum) =
        record_windows_exact es bs' (same ∙ size) ready' held' lag.1 later.1 past.1 in
      (
        bs'',
        (rw done) ∙ rest,
        chain (total bs'') (total bs') (total bs) (tally es) (share_of s q) sum step,
      )

  bucket_total-replicate : (n : ℕ) → total (replicate n unused_bucket) ≡ 0
  unfolding replicate
  bucket_total-replicate zero = refl
  bucket_total-replicate (suc n) =
      if-cases (λ (k : ℕ). k + total (replicate n unused_bucket) ≡ 0) (in_window now window (pos 0))
        (λ inside. omega (arith, starts, bucket_total-replicate n))
        (λ outside. omega (arith, bucket_total-replicate n))

  -- The total of a window over the ring of a new collector that has recorded queries.
  pub total_exact :
      (es : Timed) (bs : List TimeBucket)
      → LacksLag es
      → LacksZero es
      → IsPast now es
      → record_windows es (replicate 600 unused_bucket) ≡ some bs
      → total bs % 18446744073709551616 ≡ tally es % 18446744073709551616
  total_exact es bs lag later past recorded =
      let (bs', done, sum) =
        record_windows_exact es (replicate 600 unused_bucket) (length-replicate 600 unused_bucket)
          (replicate-IsReady 600) (AreHeld-replicate es 0 600) lag later past in
      let same : bs' ≡ bs = cc (done, recorded) in
      let empty = bucket_total-replicate 600 in
      subst (λ ring. total ring % 18446744073709551616 ≡ tally es % 18446744073709551616) same
        (omega (arith, sum, empty))
