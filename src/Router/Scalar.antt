-- ===== src/Router/Scalar.antt =====
-- `canonicalScalar` of internal/router/router.go: one text for all texts of an SQL value.
use hamstergres.Base.{
  ℕ, ◌-◌, ◌==◌, String, str_eq, not, ◌||◌, List, [], ◌∷◌, ◌++◌, Option, none, some, Result, ok, err,
  ◌>>◌, refuse, if◌then◌else◌, length, take, drop,
}
use hamstergres.CopyRouter.Keys.{normalized_type, one_of}
use hamstergres.Router.Bytes.{
  Bytes, trim_space, trim_left, trim_right, trim_braces, without, to_lower, all_digits, all_hex,
  is_empty,
}
use hamstergres.Router.Decimal.{ScalarError, rejected, canonical_decimal}

-- The cases of the `switch`; its normalisation of the type's name is `normalizedType`.
pub data ScalarType : Type 0 where
  integer numeric float32 float64 boolean uuid plain padded : ScalarType

unfoldable pub scalar_type : List ℕ → Option ScalarType
scalar_type v =
    if one_of v (
      "int2" ∷ "smallint" ∷ "smallserial" ∷ "serial2" ∷ "int4" ∷ "int" ∷ "integer" ∷ "serial"
      ∷ "serial4" ∷ "int8" ∷ "bigint" ∷ "bigserial" ∷ "serial8" ∷ "oid" ∷ [])
    then some integer
    else if one_of v ("numeric" ∷ "decimal" ∷ [])
    then some numeric
    else if one_of v ("float4" ∷ "real" ∷ [])
    then some float32
    else if one_of v ("float8" ∷ "double precision" ∷ [])
    then some float64
    else if one_of v ("bool" ∷ "boolean" ∷ [])
    then some boolean
    else if one_of v ("uuid" ∷ [])
    then some uuid
    else if one_of v ("text" ∷ "varchar" ∷ "character varying" ∷ "name" ∷ [])
    then some plain
    else if one_of v ("bpchar" ∷ "char" ∷ "character" ∷ [])
    then some padded
    else none

-- big.Int.String: no leading zeros, and no sign for zero
abbrev pub integer_text : Bytes → Bytes → Bytes
integer_text sign [] = 48 ∷ []
integer_text sign (c ∷ cs) = sign ++ c ∷ cs

abbrev pub unsigned_integer : Bytes → Bytes → Result ScalarError Bytes
unsigned_integer sign v =
    if is_empty v || not (all_digits v)
    then err rejected
    else ok (integer_text sign (trim_left 48 v))

-- big.Int.SetString(_, 10): a sign, and one or more digits
abbrev pub signed_integer : Bytes → Result ScalarError Bytes
signed_integer [] = err rejected
signed_integer (c ∷ cs) =
    if c == 45
    then unsigned_integer (45 ∷ []) cs
    else unsigned_integer [] (if c == 43 then cs else c ∷ cs)

abbrev pub canonical_bool : Bytes → Result ScalarError Bytes
canonical_bool v =
    if one_of v ("true" ∷ "t" ∷ "yes" ∷ "y" ∷ "on" ∷ "1" ∷ [])
    then ok (b't' ∷ b'r' ∷ b'u' ∷ b'e' ∷ [])
    else if one_of v ("false" ∷ "f" ∷ "no" ∷ "n" ∷ "off" ∷ "0" ∷ [])
    then ok (b'f' ∷ b'a' ∷ b'l' ∷ b's' ∷ b'e' ∷ [])
    else err rejected

-- value[from:to]
abbrev pub slice : ℕ → ℕ → Bytes → Bytes
slice from to v = take (to - from) (drop from v)

abbrev pub dashed : Bytes → Bytes
dashed v =
    slice 0 8 v
    ++ 45 ∷ (slice 8 12 v ++ 45 ∷ (slice 12 16 v ++ 45 ∷ (slice 16 20 v ++ 45 ∷ slice 20 32 v)))

abbrev pub canonical_uuid : Bytes → Result ScalarError Bytes
canonical_uuid v = do
  let compact = without 45 (to_lower (trim_braces (trim_space v)))
  refuse (not (length compact == 32) || not (all_hex compact)) rejected
  ok (dashed compact)

-- strconv.ParseFloat(_, bits), and strconv.FormatFloat(_, 'g', -1, bits) of its result
abbrev pub FloatText : Type 0
FloatText = ℕ → Bytes → Option Bytes

abbrev pub or_rejected : Option Bytes → Result ScalarError Bytes
or_rejected none = err rejected
or_rejected (some v) = ok v

module _ (float_text : FloatText) where
  abbrev pub canonical_as : ScalarType → Bytes → Result ScalarError Bytes
  canonical_as integer v = signed_integer (trim_space v)
  canonical_as numeric v = canonical_decimal v
  canonical_as float32 v = or_rejected (float_text 32 (trim_space v))
  canonical_as float64 v = or_rejected (float_text 64 (trim_space v))
  canonical_as boolean v = canonical_bool (to_lower (trim_space v))
  canonical_as uuid v = canonical_uuid v
  canonical_as plain v = ok v
  canonical_as padded v = ok (trim_right 32 v)

  unfoldable pub canonical_scalar : Bytes → String → Result ScalarError Bytes
  canonical_scalar v t = if str_eq t "" then ok v else elim (scalar_type (normalized_type t)) [
    | none ↦ err rejected
    | some k ↦ canonical_as k v
  ]
