-- ===== src/Tests/CopyRouter.antt =====
-- internal/copyrouter/copy.go on a table with an integer key.
use hamstergres.Base.{
  ℕ, ◌≡◌, refl, ◌≢◌, ◌+◌, String, true, false, List, [], ◌∷◌, ◌++◌, map, Option, none, some, ok,
  err, arith,
}
use mathlib.Core.List.{flatten}
use hamstergres.CopyRouter.Plan.{Plan, Bytes, text, csv, null_key}
use hamstergres.CopyRouter.Records.{line_end, end_in, record_end, trim_terminator, scan, scan_byte}
use hamstergres.CopyRouter.Records.Ends.{record_end-append}
use hamstergres.CopyRouter.Fields.{
  valid_utf8, parse_text_record, parse_csv_record, split_text, text_fields, text_field,
  decode_text_field, decode_from, text_byte,
}
use hamstergres.CopyRouter.Fields.TextRoundTrip
use hamstergres.CopyRouter.Fields.CsvRoundTrip
use hamstergres.CopyRouter.Fields.TextRoundTrip.{parse-join_text}
use hamstergres.CopyRouter.Fields.CsvRoundTrip.{parse-join_csv}
use hamstergres.CopyRouter.Stream.{
  Chunk, Stream, key_value, key_values, target_for_record, send, cut, turn, consume,
  consume_delimited, write, finish,
}
use hamstergres.CopyRouter.Stream.Runs.{Runs, consume-Runs}
use hamstergres.CopyRouter.Stream.Conserved.{payloads}
use hamstergres.CopyRouter.Output.{OutputStream, new_output_stream, output_write, output_finish}
use hamstergres.CopyRouter.Output.Header.{output, behind_header, output_passes}
use hamstergres.CopyRouter.Stream.Transfer.{transfer, transfer_conserves}
use hamstergres.CopyRouter.Stream.Splits.{write-append}
use hamstergres.CopyRouter.Stream.Routed.{AreRouted, count_rows, write-AreRouted}

abbrev plan : Plan
plan = record {
  table = "accounts";
  columns = "id" ∷ "note" ∷ [];
  from = true;
  server_side = false;
  program = false;
  sharded = true;
  format = text;
  delimiter = 9;
  null = 92 ∷ 78 ∷ [];
  header = false;
  quote = 0;
  escape = 0;
  encoding = "UTF8";
  key_indexes = 0 ∷ [];
  key_types = "integer" ∷ [];
}

abbrev csv_plan : Plan
csv_plan = record plan { format = csv; delimiter = b','; null = []; quote = b'"'; escape = b'"' }

-- A fleet of one Burrow.
abbrev route : Plan → List Bytes → Option String
route p values = some "burrow-01"

abbrev no_floats : ℕ → ℕ → Bytes
no_floats bits n = []

abbrev opened : Stream
opened = record {
  plan = plan;
  buffer = [];
  header_pending = false;
  binary_header = false;
  binary_trailer = false;
  rows = 0;
}

-- "7\ta\n", in two pieces.
abbrev head : Bytes
head = b'7' ∷ 9 ∷ []

abbrev rest : Bytes
rest = b'a' ∷ 10 ∷ []

abbrev row : Chunk
row = record { target = "burrow-01"; payload = b'7' ∷ 9 ∷ b'a' ∷ 10 ∷ [] }

head_written : write route no_floats head opened ≡ (ok [], record opened { buffer = head })
unfolding write consume_delimited consume turn record_end end_in line_end
head_written = refl

rest_written :
    write route no_floats rest (record opened { buffer = head })
    ≡ (ok (row ∷ []), record opened { rows = 1 })
unfolding write consume_delimited consume turn record_end end_in line_end cut send trim_terminator
    target_for_record parse_text_record split_text text_fields text_field decode_text_field
    decode_from text_byte key_values key_value valid_utf8
rest_written = refl

transferred :
    transfer route no_floats (head ∷ rest ∷ []) opened ≡ (ok (row ∷ []), record opened { rows = 1 })
unfolding write consume_delimited consume turn record_end end_in line_end cut send trim_terminator
    target_for_record parse_text_record split_text text_fields text_field decode_text_field
    decode_from text_byte key_values key_value valid_utf8 finish
transferred = refl

consumed :
    consume route no_floats 5 true (record opened { buffer = head ++ rest })
    ≡ (ok (row ∷ []), record opened { rows = 1 })
unfolding consume turn record_end end_in line_end cut send trim_terminator target_for_record
    parse_text_record split_text text_fields text_field decode_text_field decode_from text_byte
    key_values key_value valid_utf8
consumed = refl

consume-Runs_example :
    Runs route no_floats true
      (record opened { buffer = head ++ rest })
      (row ∷ [])
      (record opened { rows = 1 })
consume-Runs_example =
    consume-Runs route no_floats 5 true (record opened { buffer = head ++ rest }) (row ∷ [])
      (record opened { rows = 1 }) (omega arith) consumed

-- A NULL shard key is refused.
null_key_refused : (write route no_floats (92 ∷ 78 ∷ 9 ∷ b'a' ∷ 10 ∷ []) opened).0 ≡ err null_key
unfolding write consume_delimited consume turn record_end end_in line_end cut send trim_terminator
    target_for_record parse_text_record split_text text_fields text_field decode_text_field
    decode_from text_byte key_values key_value valid_utf8
null_key_refused = refl

transfer_conserves_example : payloads (row ∷ []) ≡ opened.buffer ++ flatten (head ∷ rest ∷ [])
transfer_conserves_example =
    transfer_conserves route no_floats (head ∷ rest ∷ []) opened (row ∷ [])
      (record opened { rows = 1 }) transferred

write-append_example :
    write route no_floats (head ++ rest) opened ≡ (ok ([] ++ row ∷ []), record opened { rows = 1 })
write-append_example =
    write-append route no_floats head rest opened (record opened { buffer = head })
      (record opened { rows = 1 }) [] (row ∷ []) tt head_written rest_written

write-AreRouted_example :
    AreRouted route no_floats plan false (row ∷ [])
    × (1 ≡ 0 + count_rows route no_floats (row ∷ []))
write-AreRouted_example =
    write-AreRouted route no_floats rest (record opened { buffer = head }) (row ∷ [])
      (record opened { rows = 1 }) tt rest_written

parse-join_text_example :
    parse_text_record plan (TextRoundTrip.join_text 9 (some (b'7' ∷ 9 ∷ 92 ∷ [])) (none ∷ []))
    ≡ ok (map TextRoundTrip.read_field (some (b'7' ∷ 9 ∷ 92 ∷ []) ∷ none ∷ []))
parse-join_text_example =
    parse-join_text plan (some (b'7' ∷ 9 ∷ 92 ∷ [])) (none ∷ [])
      (record {
        no_backslash = refl;
        no_null = refl;
        no_hex = refl;
        no_octal = refl;
        no_control = refl;
      })
      refl

parse-join_csv_example :
    parse_csv_record csv_plan
      (CsvRoundTrip.join_csv csv_plan (some (b'"' ∷ b',' ∷ 10 ∷ [])) (none ∷ []))
    ≡ ok (map CsvRoundTrip.read_field (some (b'"' ∷ b',' ∷ 10 ∷ []) ∷ none ∷ []))
parse-join_csv_example =
    parse-join_csv csv_plan (some (b'"' ∷ b',' ∷ 10 ∷ [])) (none ∷ [])
      (record { empty_null = refl; quote_differs = refl; escape_differs = refl })

abbrev line : Bytes
line = b'"' ∷ 10 ∷ b'"' ∷ 10 ∷ []

line_ends : (record_end csv_plan line).0 ≢ 0
unfolding record_end end_in scan scan_byte
line_ends e = omega arith

record_end-append_example : record_end csv_plan (line ++ head) ≡ record_end csv_plan line
record_end-append_example = record_end-append csv_plan line head line_ends

-- The second of two Burrows, in CSV format with a header.
abbrev second : OutputStream
second = record {
  plan = record csv_plan { header = true };
  first = false;
  last = true;
  header_pending = true;
  binary_header = false;
  binary_trailer = false;
  buffer = [];
}

second_opened : new_output_stream (record csv_plan { header = true }) 1 2 ≡ second
unfolding new_output_stream
second_opened = refl

-- "id\n7,a\n", in two pieces.
header_passed :
    output ((b'i' ∷ []) ∷ (b'd' ∷ 10 ∷ b'7' ∷ []) ∷ rest ∷ []) second
    ≡ (ok ((b'7' ∷ []) ∷ rest ∷ []), record second { header_pending = false })
unfolding output_write output_finish record_end end_in scan scan_byte
header_passed = refl

output_passes_example :
    flatten ((b'7' ∷ []) ∷ rest ∷ [])
    ≡ behind_header true second.plan (flatten ((b'i' ∷ []) ∷ (b'd' ∷ 10 ∷ b'7' ∷ []) ∷ rest ∷ []))
output_passes_example =
    output_passes ((b'i' ∷ []) ∷ (b'd' ∷ 10 ∷ b'7' ∷ []) ∷ rest ∷ []) second
      ((b'7' ∷ []) ∷ rest ∷ []) (record second { header_pending = false }) tt header_passed
