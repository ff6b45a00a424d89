-- ===== src/CopyRouter/Keys.antt =====
-- The shard keys of binary COPY: `normalizedType`, `supportedBinaryType` and `decodeBinaryKey` of
-- internal/copyrouter/copy.go. A text is the list of its code points.
use Prim.Native.Char.{code}
use hamstergres.Base.{
  ℕ, zero, suc, ◌+◌, ◌-◌, ◌*◌, ◌/◌, ◌%◌, ◌^◌, ◌==◌, leb, ltb, String, Bool, false, not, ◌&&◌, ◌||◌,
  List, [], ◌∷◌, ◌++◌, Option, none, some, Result, ok, err, ◌>>◌, refuse, if◌then◌else◌, length,
  take, drop, is_space, is_present,
}
use hamstergres.CopyRouter.Plan.{Bytes, bytes_eq, CopyError, bad_key, invalid_utf8}
use hamstergres.CopyRouter.Fields.{valid_utf8}

unfoldable pub codes : String → List ℕ
codes String.[] = []
codes (String.◌∷◌ c s) = code c ∷ codes s

-- `unicode.ToLower`, as far as its result is an ASCII character; the others never match.
abbrev pub lower : ℕ → ℕ
lower c =
    if leb 65 c && leb c 90
    then c + 32
    else if c == 0x130
    then 105
    else if c == 0x212a
    then 107
    else c

abbrev pub lower_all : List ℕ → List ℕ
lower_all [] = []
lower_all (c ∷ cs) = lower c ∷ lower_all cs

abbrev pub trim_left : List ℕ → List ℕ
trim_left [] = []
trim_left (c ∷ cs) = let rest = trim_left cs in if is_space c then rest else c ∷ cs

abbrev pub unless_space : ℕ → List ℕ → List ℕ
unless_space c [] = if is_space c then [] else c ∷ []
unless_space c (d ∷ ds) = c ∷ d ∷ ds

abbrev pub trim_right : List ℕ → List ℕ
trim_right [] = []
trim_right (c ∷ cs) = unless_space c (trim_right cs)

-- strings.TrimSpace
abbrev pub trim_space : List ℕ → List ℕ
trim_space cs = trim_right (trim_left cs)

-- strings.TrimPrefix
abbrev pub trim_prefix : List ℕ → List ℕ → List ℕ
trim_prefix p cs = if bytes_eq (take (length p) cs) p then drop (length p) cs else cs

-- value[:strings.IndexByte(value, '(')], if there is one
abbrev pub before_paren : List ℕ → Option (List ℕ)
before_paren [] = none
before_paren (c ∷ cs) =
    let rest = before_paren cs in
    if c == 40 then some [] else elim rest [ none ↦ none | some ds ↦ some (c ∷ ds) ]

unfoldable pub normalized_type : String → List ℕ
unfolding codes
normalized_type t =
    let v = trim_prefix (codes "pg_catalog.") (lower_all (trim_space (codes t))) in
    elim (before_paren v) [ none ↦ v | some ds ↦ trim_space ds ]

unfoldable pub one_of : List ℕ → List String → Bool
unfolding codes
one_of v [] = false
one_of v (name ∷ names) = bytes_eq v (codes name) || one_of v names

-- The cases of the two `switch` statements.
pub data KeyType : Type 0 where
  int2 int4 int8 oid float4 float8 boolean uuid texts : KeyType

unfoldable pub key_type : List ℕ → Option KeyType
key_type v =
    if one_of v ("int2" ∷ "smallint" ∷ "smallserial" ∷ "serial2" ∷ [])
    then some int2
    else if one_of v ("int4" ∷ "int" ∷ "integer" ∷ "serial" ∷ "serial4" ∷ [])
    then some int4
    else if one_of v ("int8" ∷ "bigint" ∷ "bigserial" ∷ "serial8" ∷ [])
    then some int8
    else if one_of v ("oid" ∷ [])
    then some oid
    else if one_of v ("float4" ∷ "real" ∷ [])
    then some float4
    else if one_of v ("float8" ∷ "double precision" ∷ [])
    then some float8
    else if one_of v ("bool" ∷ "boolean" ∷ [])
    then some boolean
    else if one_of v ("uuid" ∷ [])
    then some uuid
    else if one_of v
        ("text" ∷ "varchar" ∷ "character varying" ∷ "name" ∷ "bpchar" ∷ "char" ∷ "character" ∷ [])
    then some texts
    else none

unfoldable pub supported_binary_type : String → Bool
supported_binary_type t = is_present (key_type (normalized_type t))

-- binary.BigEndian
abbrev pub big_endian_from : ℕ → Bytes → ℕ
big_endian_from n [] = n
big_endian_from n (c ∷ cs) = big_endian_from (n * 256 + c) cs

abbrev pub big_endian : Bytes → ℕ
big_endian = big_endian_from 0

-- strconv.FormatUint(n, 10), with at most `fuel` digits
abbrev pub digits : ℕ → ℕ → Bytes
digits zero n = []
digits (suc fuel) n =
    let rest = digits fuel (n / 10) in
    if ltb n 10 then (48 + n) ∷ [] else rest ++ (48 + n % 10) ∷ []

-- 20 digits hold every uint64.
abbrev pub decimal : ℕ → Bytes
decimal = digits 20

-- strconv.FormatInt of the integer of `bits` bits
abbrev pub signed_decimal : ℕ → ℕ → Bytes
signed_decimal bits n = if ltb n (2 ^ (bits - 1)) then decimal n else 45 ∷ decimal (2 ^ bits - n)

abbrev pub hex_char : ℕ → ℕ
hex_char d = if ltb d 10 then 48 + d else 87 + d

abbrev pub hex_of : Bytes → Bytes
hex_of [] = []
hex_of (c ∷ cs) = hex_char (c / 16) ∷ hex_char (c % 16) ∷ hex_of cs

-- fmt.Sprintf("%08x-%04x-%04x-%04x-%012x", ...)
abbrev pub uuid_text : Bytes → Bytes
uuid_text v =
    hex_of (take 4 v)
    ++ 45
      ∷ (hex_of (take 2 (drop 4 v))
          ++ 45
            ∷ (hex_of (take 2 (drop 6 v))
                ++ 45 ∷ (hex_of (take 2 (drop 8 v)) ++ 45 ∷ hex_of (drop 10 v))))

abbrev pub bool_text : Bytes → Result CopyError Bytes
bool_text (c ∷ []) =
    if ltb 1 c
    then err bad_key
    else ok
        (if c == 1 then b't' ∷ b'r' ∷ b'u' ∷ b'e' ∷ [] else b'f' ∷ b'a' ∷ b'l' ∷ b's' ∷ b'e' ∷ [])
bool_text _ = err bad_key

abbrev pub sized : ℕ → Bytes → Bytes → Result CopyError Bytes
sized n v result = do refuse (not (length v == n)) bad_key; ok result

-- `float_text bits n` is what strconv.FormatFloat(_, 'g', -1, bits) makes of the bits `n`.
module _ (float_text : ℕ → ℕ → Bytes) where
  abbrev pub decode_as : KeyType → Bytes → Result CopyError Bytes
  decode_as int2 v = sized 2 v (signed_decimal 16 (big_endian v))
  decode_as int4 v = sized 4 v (signed_decimal 32 (big_endian v))
  decode_as int8 v = sized 8 v (signed_decimal 64 (big_endian v))
  decode_as oid v = sized 4 v (decimal (big_endian v))
  decode_as float4 v = sized 4 v (float_text 32 (big_endian v))
  decode_as float8 v = sized 8 v (float_text 64 (big_endian v))
  decode_as boolean v = bool_text v
  decode_as uuid v = sized 16 v (uuid_text v)
  decode_as texts v = do refuse (not (valid_utf8 v)) invalid_utf8; ok v

  unfoldable pub decode_binary_key : Bytes → String → Result CopyError Bytes
  decode_binary_key v t = elim (key_type (normalized_type t)) [
    | none ↦ err bad_key
    | some k ↦ decode_as k v
  ]
