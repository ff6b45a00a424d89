-- ===== src/Statistics/Windows/Seconds.antt =====
-- The arithmetic on Unix seconds of `recordWindow` and `summarizeBuckets`. The times of the clock
-- are far from the ends of int64.
use hamstergres.Base.{
  ℕ, zero, suc, ◌+◌, ◌-◌, ◌%◌, ◌≤◌, ◌<◌, ◌≡◌, Bool, true, false, not, ◌&&◌, ltb, leb, ◌==◌,
  if◌then◌else◌, ℤ, pos, negsuc, arith,
}

abbrev pub same_second : ℤ → ℤ → Bool
same_second (pos a) (pos b) = a == b
same_second (negsuc a) (negsuc b) = a == b
same_second _ _ = false

abbrev pub lt_second : ℤ → ℤ → Bool
lt_second (pos a) (pos b) = ltb a b
lt_second (pos a) (negsuc b) = false
lt_second (negsuc a) (pos b) = true
lt_second (negsuc a) (negsuc b) = ltb b a

-- s - n
abbrev pub before_by : ℕ → ℤ → ℤ
before_by n (pos a) = if leb n a then pos (a - n) else negsuc (n - a - 1)
before_by n (negsuc a) = negsuc (a + n)

-- s + 1
abbrev pub next_second : ℤ → ℤ
next_second (pos a) = pos (a + 1)
next_second (negsuc zero) = pos 0
next_second (negsuc (suc a)) = negsuc a

-- `index` of recordWindow: Go's remainder has the sign of the second.
abbrev pub bucket_index : ℕ → ℤ → ℕ
bucket_index n (pos a) = a % n
bucket_index n (negsuc a) = let r = (a + 1) % n in if r == 0 then 0 else n - r

-- not (bucket.second < cutoff || bucket.second > now)
unfoldable pub in_window : ℤ → ℕ → ℤ → Bool
in_window now window second =
    not (lt_second second (next_second (before_by window now))) && not (lt_second now second)

-- A second that shares the bucket of another one at most ten minutes minus a second older, and
-- differs from it, has left every window of ten minutes that ends at the latter or behind it.
pub stale :
    (now b s : ℤ) (window : ℕ)
    → bucket_index 600 b ≡ bucket_index 600 s
    → same_second b s ≡ false
    → lt_second (before_by 600 b) s ≡ true
    → lt_second now s ≡ false
    → window ≤ 600
    → in_window now window b ≡ false
unfolding in_window
stale (pos n) (pos b) (pos s) window same differs lag past short = ground arith
stale (pos n) (pos b) (negsuc s) window same differs lag past short = ground arith
stale (pos n) (negsuc b) (pos s) window same differs lag past short = ground arith
stale (pos n) (negsuc b) (negsuc s) window same differs lag past short = ground arith
stale (negsuc n) (pos b) (pos s) window same differs lag past short = ground arith
stale (negsuc n) (pos b) (negsuc s) window same differs lag past short = ground arith
stale (negsuc n) (negsuc b) (pos s) window same differs lag past short = ground arith
stale (negsuc n) (negsuc b) (negsuc s) window same differs lag past short = ground arith

pub bucket_index-lt : (s : ℤ) → bucket_index 600 s < 600
bucket_index-lt (pos a) = ground arith
bucket_index-lt (negsuc a) = ground arith
