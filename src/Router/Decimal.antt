-- ===== src/Router/Decimal.antt =====
-- `canonicalDecimal` of internal/router/router.go.
use hamstergres.Base.{
  ℕ, zero, suc, ◌+◌, ◌-◌, ◌*◌, ◌^◌, ◌==◌, leb, ltb, ℤ, pos, negsuc, Bool, false, not, ◌&&◌, ◌||◌,
  [], ◌∷◌, ◌++◌, Option, none, some, Result, ok, err, ◌>>=◌, ◌>>◌, refuse, if◌then◌else◌, length,
  take, drop,
}
use hamstergres.Router.Bytes.{Bytes, trim_space, trim_left, all_digits, is_empty}

-- A value that is refused, or a run-time panic.
pub data ScalarError : Type 0 where
  rejected panics : ScalarError

abbrev pub digits_value : ℕ → Bytes → ℕ
digits_value n [] = n
digits_value n (c ∷ cs) = digits_value (n * 10 + (c - 48)) cs

-- Digits behind a sign; at least one.
abbrev pub unsigned_of : Bytes → Option ℕ
unsigned_of v = if is_empty v || not (all_digits v) then none else some (digits_value 0 v)

abbrev pub negative : ℕ → ℤ
negative zero = pos 0
negative (suc n) = negsuc n

-- strconv.Atoi: an `int` of 64 bits
unfoldable pub atoi : Bytes → Option ℤ
atoi [] = none
atoi (c ∷ cs) =
    if c == 45
    then elim (unsigned_of cs) [
      | none ↦ none
      | some n ↦ if leb n (2 ^ 63) then some (negative n) else none
    ]
    else elim (unsigned_of (if c == 43 then cs else c ∷ cs)) [
      | none ↦ none
      | some n ↦ if ltb n (2 ^ 63) then some (pos n) else none
    ]

-- The bytes before the first `e` or `E`, and those behind it.
unfoldable pub split_exponent : Bytes → Bytes × Option Bytes
split_exponent [] = ([], none)
split_exponent (c ∷ cs) =
    let rest = split_exponent cs in
    if c == 101 || c == 69 then ([], some cs) else (c ∷ rest.0, rest.1)

abbrev pub exponent_of : Option Bytes → Result ScalarError ℤ
exponent_of none = ok (pos 0)
exponent_of (some v) = elim (atoi v) [ none ↦ err rejected | some n ↦ ok n ]

-- The digits before and behind the point, and whether a second point follows.
unfoldable pub split_point : Bytes → Bytes × Bytes
split_point [] = ([], [])
split_point (c ∷ cs) =
    let rest = split_point cs in if c == 46 then ([], cs) else (c ∷ rest.0, rest.1)

abbrev pub has_point : Bytes → Bool
has_point [] = false
has_point (c ∷ cs) = c == 46 || has_point cs

-- len(fraction) - exponent, of 64 bits
abbrev pub scale_of : ℕ → ℤ → ℤ
scale_of f (pos e) = if leb e f then pos (f - e) else negsuc (e - f - 1)
scale_of f (negsuc n) =
    if ltb (f + n + 1) (2 ^ 63) then pos (f + n + 1) else negsuc (2 ^ 64 - (f + n + 1) - 1)

-- The digits without their last zero, if they end in one.
abbrev pub drop_zero : Bytes → Option Bytes
drop_zero [] = none
drop_zero (c ∷ []) = if c == 48 then some [] else none
drop_zero (c ∷ d ∷ ds) =
    let rest = drop_zero (d ∷ ds) in elim rest [ none ↦ none | some cs ↦ some (c ∷ cs) ]

-- for scale > 0 && strings.HasSuffix(digits, "0")
unfoldable pub strip_zeros : Bytes → ℕ → Bytes × ℕ
strip_zeros digits zero = (digits, zero)
strip_zeros digits (suc scale) = elim (drop_zero digits) [
  | none ↦ (digits, suc scale)
  | some rest ↦ strip_zeros rest scale
]

abbrev pub zeros : ℕ → Bytes
zeros zero = []
zeros (suc n) = 48 ∷ zeros n

-- The three returns, for a scale that is not negative.
abbrev pub place_point : Bytes → Bytes × ℕ → Bytes
place_point sign (digits, zero) = sign ++ digits
place_point sign (digits, suc n) =
    if leb (length digits) (suc n)
    then sign ++ 48 ∷ 46 ∷ (zeros (suc n - length digits) ++ digits)
    else sign ++ (take (length digits - suc n) digits ++ 46 ∷ drop (length digits - suc n) digits)

-- strings.Repeat panics for a negative count: -scale stays negative for the least `int`.
abbrev pub write_decimal : Bytes → Bytes → ℤ → Result ScalarError Bytes
write_decimal sign digits (pos scale) = ok (place_point sign (strip_zeros digits scale))
write_decimal sign digits (negsuc n) =
    if n + 1 == 2 ^ 63 then err panics else ok (sign ++ (digits ++ zeros (n + 1)))

abbrev pub decimal_digits : Bytes → Bytes → Bytes → ℤ → Result ScalarError Bytes
decimal_digits sign fraction [] scale = ok (48 ∷ [])
decimal_digits sign fraction (c ∷ cs) scale = write_decimal sign (c ∷ cs) scale

unfoldable pub unsigned_decimal : Bytes → Bytes → Result ScalarError Bytes
unsigned_decimal sign v = do
  let parts = split_exponent v
  exponent ← exponent_of parts.1
  let whole = (split_point parts.0).0
  let fraction = (split_point parts.0).1
  refuse (has_point fraction) rejected
  refuse
      (is_empty whole && is_empty fraction || not (all_digits whole) || not (all_digits fraction))
      rejected
  decimal_digits sign fraction (trim_left 48 (whole ++ fraction))
      (scale_of (length fraction) exponent)

abbrev pub signed_decimal : Bytes → Result ScalarError Bytes
signed_decimal [] = err rejected
signed_decimal (c ∷ cs) =
    if c == 45
    then unsigned_decimal (45 ∷ []) cs
    else unsigned_decimal [] (if c == 43 then cs else c ∷ cs)

unfoldable pub canonical_decimal : Bytes → Result ScalarError Bytes
canonical_decimal v = signed_decimal (trim_space v)
