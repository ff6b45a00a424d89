-- ===== src/Statistics/Words.antt =====
-- Go's int64 as its bits, a number below 2^64, and the arithmetic of the counters on it.
use hamstergres.Base.{ℕ, ◌+◌, ◌-◌, ◌/◌, ◌%◌, Bool, ltb, ◌==◌, if◌then◌else◌}

-- The int64 in which Go keeps a number.
abbrev pub word : ℕ → ℕ
word n = n % 18446744073709551616

abbrev pub add64 : ℕ → ℕ → ℕ
add64 a b = (a + b) % 18446744073709551616

-- The sign bit is set.
abbrev pub is_negative64 : ℕ → Bool
is_negative64 a = ltb 9223372036854775807 a

-- a < b as signed numbers
abbrev pub lt64 : ℕ → ℕ → Bool
lt64 a b = ltb (add64 a 9223372036854775808) (add64 b 9223372036854775808)

abbrev pub eq64 : ℕ → ℕ → Bool
eq64 a b = add64 a 0 == add64 b 0

-- a / b for a positive b: Go rounds towards zero.
abbrev pub div64 : ℕ → ℕ → ℕ
div64 a b =
    if is_negative64 a
    then (18446744073709551616 - (18446744073709551616 - a) / b) % 18446744073709551616
    else a / b
