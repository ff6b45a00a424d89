-- ===== src/CopyRouter/Binary.antt =====
-- `consumeBinary` of internal/copyrouter/copy.go: binary COPY input, cut into rows that go to their
-- owners.
pub mod Conserved
use hamstergres.Base.{
  ℕ, zero, suc, ◌+◌, ◌-◌, ◌^◌, ◌==◌, leb, ltb, String, true, not, ◌&&◌, ◌||◌, List, [], ◌∷◌, Option,
  none, some, Result, ok, err, ◌>>=◌, if◌then◌else◌, length, get_elem?, take, drop,
}
use hamstergres.CopyRouter.Plan.{
  Plan, Bytes, CopyError, bytes_eq, max_row_bytes, wrong_columns, null_key, bad_index,
  bad_signature, extension_too_long, field_too_long, after_trailer,
}
use hamstergres.CopyRouter.State.{Chunk, Stream, Next, stop, fail, emit, routed, after}
use hamstergres.CopyRouter.Keys.{big_endian, decode_binary_key}

abbrev pub binary_signature : Bytes
binary_signature = b'P' ∷ b'G' ∷ b'C' ∷ b'O' ∷ b'P' ∷ b'Y' ∷ 10 ∷ 255 ∷ 13 ∷ 10 ∷ 0 ∷ []

-- The first `n` bytes, for every Burrow.
abbrev pub to_all : ℕ → Stream → Stream → Next
to_all n s t =
    emit (record { target = ""; payload = take n s.buffer }) (record t { buffer = drop n s.buffer })

-- int(binary.BigEndian.Uint32(s.buffer[15:19])), of 64 bits
abbrev pub extension : Bytes → ℕ
extension b = big_endian (take 4 (drop 15 b))

-- The header, while it has not been read; `stop` waits for more bytes.
unfoldable pub binary_start : Stream → Next
binary_start s =
    if ltb (length s.buffer) 19
    then stop
    else if not (bytes_eq (take 11 s.buffer) binary_signature)
    then fail bad_signature s
    else if ltb max_row_bytes (extension s.buffer)
    then fail extension_too_long s
    else if ltb (length s.buffer) (19 + extension s.buffer)
    then stop
    else to_all (19 + extension s.buffer) s (record s { binary_header = true })

-- One field of a row: its value (`none` for NULL) and the position behind it.
pub data FieldAt : Type 0 where
  short over : FieldAt
  found : Option Bytes → ℕ → FieldAt

abbrev pub value_at : ℕ → ℕ → Bytes → FieldAt
value_at width position b =
    if width == 2 ^ 32 - 1
    then found none position
    else if leb (2 ^ 31) width || ltb max_row_bytes width || ltb max_row_bytes (position + width)
    then over
    else if ltb (length b) (position + width)
    then short
    else found (some (take width (drop position b))) (position + width)

unfoldable pub field_at : ℕ → Bytes → FieldAt
field_at position b =
    if ltb (length b) (position + 4)
    then short
    else value_at (big_endian (take 4 (drop position b))) (position + 4) b

-- The fields of a row, and the position behind the row.
pub data RowAt : Type 0 where
  incomplete too_long : RowAt
  whole : List (Option Bytes) → ℕ → RowAt

abbrev pub with_field : Option Bytes → RowAt → RowAt
with_field f incomplete = incomplete
with_field f too_long = too_long
with_field f (whole fs position) = whole (f ∷ fs) position

-- for index := 0; index < columns; index++
unfoldable pub row_at : ℕ → ℕ → Bytes → RowAt
row_at zero position b = whole [] position
row_at (suc columns) position b = elim (field_at position b) [
  | short ↦ incomplete
  | over ↦ too_long
  | found f next ↦ with_field f (row_at columns next b)
]

-- The router, and the text of floating-point numbers.
module _ (route : Plan → List Bytes → Option String) (float_text : ℕ → ℕ → Bytes) where
  abbrev pub binary_value : Option (Option Bytes) → Option String → Result CopyError Bytes
  binary_value none t = err bad_index
  binary_value (some none) t = err null_key
  binary_value (some (some v)) none = err bad_index
  binary_value (some (some v)) (some t) = decode_binary_key float_text v t

  -- The values of the shard key, from key `k` on. `bad_index` is a slice read out of its range.
  unfoldable pub binary_values :
      List (Option Bytes) → List String → ℕ → List ℕ → Result CopyError (List Bytes)
  binary_values fields types k [] = ok []
  binary_values fields types k (i ∷ is) = do
    value ← binary_value (get_elem? fields i) (get_elem? types k)
    values ← binary_values fields types (k + 1) is
    ok (value ∷ values)

  unfoldable pub binary_target : Plan → List (Option Bytes) → Result CopyError String
  binary_target p fields = do
    values ← binary_values fields p.key_types 0 p.key_indexes
    routed (route p values)

  abbrev pub send_binary : ℕ → Stream → Result CopyError String → Next
  send_binary n s (err e) = fail e s
  send_binary n s (ok t) =
      emit (record { target = t; payload = take n s.buffer })
        (record s { buffer = drop n s.buffer; rows = s.rows + 1 })

  abbrev pub send_row_at : RowAt → Stream → Next
  send_row_at incomplete s = stop
  send_row_at too_long s = fail field_too_long s
  send_row_at (whole fields n) s = send_binary n s (binary_target s.plan fields)

  -- `columns` is the field count, of 16 bits in two's complement.
  abbrev pub row_turn : ℕ → Stream → Next
  row_turn columns s =
      if columns == 2 ^ 16 - 1
      then to_all 2 s (record s { binary_trailer = true })
      else if leb (2 ^ 15) columns || not (columns == length s.plan.columns)
      then fail wrong_columns s
      else send_row_at (row_at columns 2 s.buffer) s

  -- One turn of `for len(s.buffer) >= 2 && !s.binaryTrailer`.
  unfoldable pub binary_turn : Stream → Next
  binary_turn s =
      if ltb (length s.buffer) 2 || s.binary_trailer
      then stop
      else row_turn (big_endian (take 2 s.buffer)) s

  -- The loop with fuel; a turn takes at least two bytes.
  unfoldable pub binary_rows : ℕ → Stream → Result CopyError (List Chunk) × Stream
  binary_rows zero s = (ok [], s)
  binary_rows (suc n) s = after (binary_rows n) s (binary_turn s)

  abbrev pub nothing_behind :
      Result CopyError (List Chunk) × Stream → Result CopyError (List Chunk) × Stream
  nothing_behind (err e, s) = (err e, s)
  nothing_behind (ok cs, s) =
      if s.binary_trailer && not (length s.buffer == 0) then (err after_trailer, s) else (ok cs, s)

  abbrev pub all_rows : Stream → Result CopyError (List Chunk) × Stream
  all_rows s = nothing_behind (binary_rows (suc (length s.buffer)) s)

  unfoldable pub consume_binary : Stream → Result CopyError (List Chunk) × Stream
  consume_binary s = if s.binary_header then all_rows s else after all_rows s (binary_start s)
