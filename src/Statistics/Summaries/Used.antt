-- ===== src/Statistics/Summaries/Used.antt =====
-- The order of the summaries by which evictSummary of internal/statistics/statistics.go chooses.
use hamstergres.Base.{
  ◌≤◌, ◌<◌, ◌≡◌, String, true, false, All, some, if-cases, ℤ, pos, negsuc, arith, Bool-cases, inl,
  inr, ◌⊎◌, ltb, ◌-◌, ◌^◌, ◌==◌, ap, if◌then◌else◌, ℕ, ◌%◌,
}
use hamstergres.Base.GoMap.{GoMap}
use hamstergres.Statistics.Windows.Seconds.{lt_second, same_second}
use hamstergres.Statistics.Words.{lt64, eq64}
use hamstergres.Statistics.Summaries.{Time, Summary, is_before, is_older, better}

-- `is_older` orders the summaries.
lt_second_trans :
    (a b c : ℤ)
    → lt_second a b ≡ false
    → lt_second b c ≡ false
    → (lt_second a c ≡ false)
      × (same_second a c ≡ true → (same_second a b ≡ true) × (same_second b c ≡ true))
lt_second_trans (pos a) (pos b) (pos c) h k = ground arith
lt_second_trans (pos a) (pos b) (negsuc c) h k = ground arith
lt_second_trans (pos a) (negsuc b) (pos c) h k = ground arith
lt_second_trans (pos a) (negsuc b) (negsuc c) h k = ground arith
lt_second_trans (negsuc a) (pos b) (pos c) h k = ground arith
lt_second_trans (negsuc a) (pos b) (negsuc c) h k = ground arith
lt_second_trans (negsuc a) (negsuc b) (pos c) h k = ground arith
lt_second_trans (negsuc a) (negsuc b) (negsuc c) h k = ground arith

is_before_trans :
    (a b c : Time) → is_before a b ≡ false → is_before b c ≡ false → is_before a c ≡ false
is_before_trans a b c h k = ground (arith, lt_second_trans a.second b.second c.second)

pub is_older_trans :
    (a b c : Summary) → is_older a b ≡ false → is_older b c ≡ false → is_older a c ≡ false
is_older_trans a b c h k =
    ground (arith, is_before_trans a.last_seen_at b.last_seen_at c.last_seen_at)

lt_second_asym :
    (a b : ℤ)
    → (lt_second a b ≡ true → lt_second b a ≡ false)
      × (same_second a b ≡ true → (lt_second a b ≡ false) × (lt_second b a ≡ false))
lt_second_asym (pos a) (pos b) = ground arith
lt_second_asym (pos a) (negsuc b) = ground arith
lt_second_asym (negsuc a) (pos b) = ground arith
lt_second_asym (negsuc a) (negsuc b) = ground arith

is_older_asym : (a b : Summary) → is_older a b ≡ true → is_older b a ≡ false
is_older_asym a b older = ground (
  arith,
  lt_second_asym a.last_seen_at.second b.last_seen_at.second,
  lt_second_asym b.last_seen_at.second a.last_seen_at.second,
)

pub is_older_refl : (a : Summary) → is_older a a ≡ false
is_older_refl a = ground (arith, is_older_asym a a)

-- The better of two is not newer than either.
pub better_oldest :
    (item candidate : String × Summary)
    → (is_older candidate.1 (better item (some candidate)).1 ≡ false)
      × (is_older item.1 (better item (some candidate)).1 ≡ false)
better_oldest item candidate =
    if-cases
      (λ (b : String × Summary). (is_older candidate.1 b.1 ≡ false) × (is_older item.1 b.1 ≡ false))
      (is_older item.1 candidate.1)
      (λ older. (is_older_asym item.1 candidate.1 older, is_older_refl item.1))
      (λ newer. (is_older_refl candidate.1, newer))

-- The number that a word of 64 bits stands for in two's complement.
abbrev pub signed_word : ℕ → ℤ
signed_word w = if ltb w (2 ^ 63) then pos w else negsuc (2 ^ 64 - 1 - w)

abbrev pub signed : ℕ → ℤ
signed w = signed_word (w % 2 ^ 64)

abbrev pub IsLess : ℤ → ℤ → Type 0
IsLess (pos a) (pos b) = a < b
IsLess (pos a) (negsuc b) = ⊥
IsLess (negsuc a) (pos b) = Unit
IsLess (negsuc a) (negsuc b) = b < a

-- By the second, and within it by the nanosecond.
abbrev pub IsNotLater : Time → Time → Type 0
IsNotLater t u = IsLess t.second u.second ⊎ ((t.second ≡ u.second) × (t.nanosecond ≤ u.nanosecond))

-- A summary with fewer queries than another, or with as many and an earlier use or the same.
abbrev pub IsLessUsed : Summary → Summary → Type 0
IsLessUsed a b =
    IsLess (signed a.counts.queries) (signed b.counts.queries)
    ⊎ ((signed a.counts.queries ≡ signed b.counts.queries)
        × IsNotLater a.last_seen_at b.last_seen_at)

abbrev pub IsLeastUsed : Summary → GoMap Summary → Type 0
IsLeastUsed victim items = All (λ item. IsLessUsed victim item.1) items

not_later_seconds :
    (a b : ℤ) → lt_second b a ≡ false → IsLess a b ⊎ ((a ≡ b) × (same_second b a ≡ true))
not_later_seconds (pos a) (pos b) h = elim (Bool-cases (a == b)) [
  | inl same ↦ inr (ap pos (ground arith), ground arith)
  | inr differ ↦ inl (ground arith)
]
not_later_seconds (pos a) (negsuc b) h = cc
not_later_seconds (negsuc a) (pos b) h = inl tt
not_later_seconds (negsuc a) (negsuc b) h = elim (Bool-cases (a == b)) [
  | inl same ↦ inr (ap negsuc (ground arith), ground arith)
  | inr differ ↦ inl (ground arith)
]

not_later : (t u : Time) → is_before u t ≡ false → IsNotLater t u
not_later t u h = elim (not_later_seconds t.second u.second (ground arith)) [
  | inl less ↦ inl less
  | inr (same, again) ↦ inr (same, ground arith)
]

IsLess-words :
    (a b : ℕ)
    → lt64 b a ≡ false
    → a < 2 ^ 64
    → b < 2 ^ 64
    → IsLess (signed_word a) (signed_word b) ⊎ ((signed_word a ≡ signed_word b) × (b ≡ a))
IsLess-words a b h small_a small_b = elim (Bool-cases (a == b)) [
  | inl same ↦ inr (ap signed_word (ground arith), ground arith)
  | inr differ ↦ inl (elim (Bool-cases (ltb a (2 ^ 63))) [
    | inl p ↦ elim (Bool-cases (ltb b (2 ^ 63))) [
      | inl q ↦ rw (p, q) (ground arith)
      | inr q ↦ absurd (ground arith)
    ]
    | inr p ↦ elim (Bool-cases (ltb b (2 ^ 63))) [
      | inl q ↦ rw (p, q) tt
      | inr q ↦ rw (p, q) (ground arith)
    ]
  ])
]

IsLess-signed :
    (a b : ℕ)
    → lt64 b a ≡ false
    → IsLess (signed a) (signed b) ⊎ ((signed a ≡ signed b) × (eq64 b a ≡ true))
IsLess-signed a b h =
    elim (IsLess-words (a % 2 ^ 64) (b % 2 ^ 64) (ground arith) (omega arith) (omega arith)) [
      | inl less ↦ inl less
      | inr (same, again) ↦ inr (same, ground arith)
    ]

pub less_used : (a b : Summary) → is_older b a ≡ false → IsLessUsed a b
less_used a b h = elim (IsLess-signed a.counts.queries b.counts.queries (ground arith)) [
  | inl less ↦ inl less
  | inr (same, again) ↦ inr (same, not_later a.last_seen_at b.last_seen_at (ground arith))
]
