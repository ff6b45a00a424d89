-- ===== src/CopyRouter/Output.antt =====
-- `OutputStream` of internal/copyrouter/copy.go: the output of several Burrows, merged into one
-- stream with one header and one trailer.
pub mod Header
use hamstergres.Base.{
  ℕ, zero, suc, ◌+◌, ◌-◌, ◌^◌, ◌==◌, leb, ltb, Bool, true, false, not, ◌&&◌, ◌||◌, List, [], ◌∷◌,
  ◌++◌, Result, ok, err, if◌then◌else◌, length, take, drop,
}
use hamstergres.CopyRouter.Plan.{
  Plan, Bytes, Format, text, csv, binary, CopyError, bytes_eq, max_row_bytes, wrong_columns,
  bad_signature, extension_too_long, field_too_long, after_trailer, row_too_long, no_header,
  incomplete_binary,
}
use hamstergres.CopyRouter.Records.{record_end}
use hamstergres.CopyRouter.Keys.{big_endian}
use hamstergres.CopyRouter.Binary.{
  binary_signature, extension, RowAt, incomplete, too_long, whole, row_at,
}

pub record OutputStream : Type 0 where
  pub plan : Plan
  pub first : Bool
  pub last : Bool
  pub header_pending : Bool
  pub binary_header : Bool
  pub binary_trailer : Bool
  pub buffer : Bytes

abbrev pub is_csv : Format → Bool
is_csv csv = true
is_csv _ = false

-- The source tests `index == count-1` on integers.
unfoldable pub new_output_stream : Plan → ℕ → ℕ → OutputStream
new_output_stream p index count = record {
  plan = p;
  first = index == 0;
  last = index + 1 == count;
  header_pending = is_csv p.format && p.header && ltb 0 index;
  binary_header = false;
  binary_trailer = false;
  buffer = [];
}

-- What is passed on, and the stream afterwards.
abbrev pub Passed : Type 0
Passed = Result CopyError (List Bytes) × OutputStream

-- One step of `consumeBinaryOutput`: wait, return an error, or take bytes off the buffer.
pub data Taken : Type 0 where
  waits : Taken
  fails : CopyError → OutputStream → Taken
  takes : List Bytes → OutputStream → Taken

-- `n` bytes, passed on if `kept`.
abbrev pub take_off : Bool → ℕ → OutputStream → OutputStream → Taken
take_off true n s t = takes (take n s.buffer ∷ []) (record t { buffer = drop n s.buffer })
take_off false n s t = takes [] (record t { buffer = drop n s.buffer })

unfoldable pub output_start : OutputStream → Taken
output_start s =
    if ltb (length s.buffer) 19
    then waits
    else if not (bytes_eq (take 11 s.buffer) binary_signature)
    then fails bad_signature s
    else if ltb max_row_bytes (extension s.buffer)
    then fails extension_too_long s
    else if ltb (length s.buffer) (19 + extension s.buffer)
    then waits
    else take_off s.first (19 + extension s.buffer) s (record s { binary_header = true })

abbrev pub output_row_at : RowAt → OutputStream → Taken
output_row_at incomplete s = waits
output_row_at too_long s = fails field_too_long s
output_row_at (whole fields n) s = take_off true n s s

abbrev pub output_row : ℕ → OutputStream → Taken
output_row columns s =
    if columns == 2 ^ 16 - 1
    then take_off s.last 2 s (record s { binary_trailer = true })
    else if leb (2 ^ 15) columns
    then fails wrong_columns s
    else output_row_at (row_at columns 2 s.buffer) s

-- One turn of `for len(s.buffer) >= 2 && !s.binaryTrailer`.
unfoldable pub output_turn : OutputStream → Taken
output_turn s =
    if ltb (length s.buffer) 2 || s.binary_trailer
    then waits
    else output_row (big_endian (take 2 s.buffer)) s

abbrev pub pass_first : List Bytes → Passed → Passed
pass_first parts (ok rest, s) = (ok (parts ++ rest), s)
pass_first parts (err e, s) = (err e, s)

abbrev pub then_pass : (OutputStream → Passed) → OutputStream → Taken → Passed
then_pass again s waits = (ok [], s)
then_pass again s (fails e t) = (err e, t)
then_pass again s (takes parts t) = pass_first parts (again t)

-- The loop with fuel; a turn takes at least two bytes.
unfoldable pub output_rows : ℕ → OutputStream → Passed
output_rows zero s = (ok [], s)
output_rows (suc n) s = then_pass (output_rows n) s (output_turn s)

abbrev pub nothing_after : Passed → Passed
nothing_after (err e, s) = (err e, s)
nothing_after (ok parts, s) =
    if s.binary_trailer && not (length s.buffer == 0) then (err after_trailer, s) else (ok parts, s)

abbrev pub all_output_rows : OutputStream → Passed
all_output_rows s = nothing_after (output_rows (suc (length s.buffer)) s)

unfoldable pub consume_binary_output : OutputStream → Passed
consume_binary_output s =
    if s.binary_header then all_output_rows s else then_pass all_output_rows s (output_start s)

abbrev pub within_limit : Passed → Passed
within_limit (err e, s) = (err e, s)
within_limit (ok parts, s) =
    if ltb max_row_bytes (length s.buffer) then (err row_too_long, s) else (ok parts, s)

abbrev pub unless_empty : Bytes → List Bytes
unless_empty [] = []
unless_empty (c ∷ rest) = (c ∷ rest) ∷ []

-- The header with the bytes of this write: `s` has both in its buffer.
abbrev pub skip_header : ℕ × Bool → OutputStream → Passed
skip_header (zero, quoted) s =
    if quoted && ltb max_row_bytes (length s.buffer) then (err row_too_long, s) else (ok [], s)
skip_header (suc n, quoted) s =
    (ok (unless_empty (drop (suc n) s.buffer)), record s { header_pending = false; buffer = [] })

abbrev pub write_delimited : Bytes → OutputStream → Passed
write_delimited d s =
    if not s.header_pending
    then (ok (d ∷ []), s)
    else skip_header (record_end s.plan (s.buffer ++ d)) (record s { buffer = s.buffer ++ d })

abbrev pub write_as : Format → Bytes → OutputStream → Passed
write_as text d s = write_delimited d s
write_as csv d s = write_delimited d s
write_as binary d s = within_limit (consume_binary_output (record s { buffer = s.buffer ++ d }))

unfoldable pub output_write : Bytes → OutputStream → Passed
output_write [] s = (ok [], s)
output_write (c ∷ rest) s = write_as s.plan.format (c ∷ rest) s

abbrev pub complete : Passed → Passed
complete (err e, s) = (err e, s)
complete (ok parts, s) =
    if not (length s.buffer == 0) || not s.binary_header || not s.binary_trailer
    then (err incomplete_binary, s)
    else (ok parts, s)

abbrev pub header_seen : OutputStream → Passed
header_seen s = if s.header_pending then (err no_header, s) else (ok [], s)

abbrev pub finish_as : Format → OutputStream → Passed
finish_as text s = header_seen s
finish_as csv s = header_seen s
finish_as binary s = complete (consume_binary_output s)

unfoldable pub output_finish : OutputStream → Passed
output_finish s = finish_as s.plan.format s
