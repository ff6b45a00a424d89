-- ===== src/CopyRouter/Stream.antt =====
-- `Stream` of internal/copyrouter/copy.go: COPY input, cut into records that go to their owners.
pub mod Runs
pub mod Conserved
pub mod Transfer
pub mod Splits
pub mod Routed
pub use hamstergres.CopyRouter.State.{
  Chunk, Stream, Next, stop, fail, emit, routed, and_then, after,
}
use hamstergres.Base.{
  ℕ, zero, suc, ◌+◌, ◌<◌, ◌==◌, ltb, String, Bool, true, false, not, ◌&&◌, ◌||◌, List, [], ◌∷◌,
  ◌++◌, Option, none, some, Result, ok, err, ◌>>=◌, ◌>>◌, refuse, if◌then◌else◌, str_eq, length,
  get_elem?, take, drop,
}
use hamstergres.CopyRouter.Plan.{
  Plan, Bytes, Format, text, csv, binary, CopyError, bytes_eq, max_row_bytes, wrong_columns,
  null_key, invalid_utf8, bad_index, unroutable, unterminated_quote, row_too_long, no_header,
  no_sharded_plan, incomplete_binary,
}
use hamstergres.CopyRouter.Records.{record_end, trim_terminator}
use hamstergres.CopyRouter.Binary.{consume_binary}
use hamstergres.CopyRouter.Fields.{CopyField, valid_utf8, parse_csv_record, parse_text_record}

-- One value of the shard key. `bad_index` is a slice read out of its range.
unfoldable pub key_value : List CopyField → ℕ → Result CopyError Bytes
key_value fields i = elim (get_elem? fields i) [
  | none ↦ err bad_index
  | some f ↦ do refuse f.null null_key; refuse (not (valid_utf8 f.value)) invalid_utf8; ok f.value
]

unfoldable pub key_values : List CopyField → List ℕ → Result CopyError (List Bytes)
key_values fields [] = ok []
key_values fields (i ∷ is) = do
  value ← key_value fields i
  values ← key_values fields is
  ok (value ∷ values)

abbrev pub is_text : Format → Bool
is_text text = true
is_text _ = false

abbrev pub parse_record : Plan → Format → Bytes → Result CopyError (List CopyField)
parse_record p csv raw = parse_csv_record p raw
parse_record p _ raw = parse_text_record p raw

abbrev pub terminator : Bytes
terminator = 92 ∷ 46 ∷ []

-- The router's `TargetForTableShardKey`, at the registry and the Burrows of the stream, and the
-- text of floating-point numbers.
module _ (route : Plan → List Bytes → Option String) (float_text : ℕ → ℕ → Bytes) where
  unfoldable pub target_for_record : Plan → Bytes → Result CopyError String
  target_for_record p raw = do
    fields ← parse_record p p.format raw
    refuse (not (length fields == length p.columns)) wrong_columns
    values ← key_values fields p.key_indexes
    routed (route p values)

  abbrev pub send_row : Stream → Bytes → Result CopyError String → Next
  send_row s record' (err e) = fail e s
  send_row s record' (ok t) =
      emit (record { target = t; payload = record' }) (record s { rows = s.rows + 1 })

  -- The body of the loop, from `s.buffer = s.buffer[end:]` on.
  unfoldable pub send : Stream → Bytes → Next
  send s record' =
      if s.header_pending
      then emit (record { target = ""; payload = record' }) (record s { header_pending = false })
      else if is_text s.plan.format && bytes_eq (trim_terminator record') terminator
      then emit (record { target = ""; payload = record' }) s
      else send_row s record' (target_for_record s.plan (trim_terminator record'))

  unfoldable pub cut : ℕ → Stream → Next
  cut n s = send (record s { buffer = drop n s.buffer }) (take n s.buffer)

  -- The end of the record: 0 if it is not there yet.
  abbrev pub at_end : Bool → ℕ × Bool → Stream → Next
  at_end final (suc n, quoted) s = cut (suc n) s
  at_end false (zero, quoted) s = stop
  at_end true (zero, true) s = fail unterminated_quote s
  at_end true (zero, false) s = cut (length s.buffer) s

  abbrev pub is_nil : Bytes → Bool
  is_nil [] = true
  is_nil (c ∷ rest) = false

  -- One turn of `for len(s.buffer) > 0`.
  unfoldable pub turn : Bool → Stream → Next
  turn final s = if is_nil s.buffer then stop else at_end final (record_end s.plan s.buffer) s

  -- The loop with fuel; a turn takes at least one byte.
  unfoldable pub consume : ℕ → Bool → Stream → Result CopyError (List Chunk) × Stream
  consume zero final s = (ok [], s)
  consume (suc n) final s = after (consume n final) s (turn final s)

  unfoldable pub consume_delimited : Bool → Stream → Result CopyError (List Chunk) × Stream
  consume_delimited final s = consume (suc (length s.buffer)) final s

  abbrev pub limited :
      Result CopyError (List Chunk) × Stream → Result CopyError (List Chunk) × Stream
  limited (err e, s) = (err e, s)
  limited (ok cs, s) =
      if ltb max_row_bytes (length s.buffer) then (err row_too_long, s) else (ok cs, s)

  abbrev pub by_format : Bool → Format → Stream → Result CopyError (List Chunk) × Stream
  by_format final text s = consume_delimited final s
  by_format final csv s = consume_delimited final s
  by_format final binary s = consume_binary route float_text s

  unfoldable pub write : Bytes → Stream → Result CopyError (List Chunk) × Stream
  write [] s = (ok [], s)
  write (c ∷ rest) s =
      limited (by_format false s.plan.format (record s { buffer = s.buffer ++ c ∷ rest }))

  abbrev pub ended : Result CopyError (List Chunk) × Stream → Result CopyError (List Chunk) × Stream
  ended (err e, s) = (err e, s)
  ended (ok cs, s) = if s.header_pending then (err no_header, s) else (ok cs, s)

  abbrev pub ended_binary :
      Result CopyError (List Chunk) × Stream → Result CopyError (List Chunk) × Stream
  ended_binary (err e, s) = (err e, s)
  ended_binary (ok cs, s) =
      if not (is_nil s.buffer) || not s.binary_header || not s.binary_trailer
      then (err incomplete_binary, s)
      else (ok cs, s)

  abbrev pub finish_format : Format → Stream → Result CopyError (List Chunk) × Stream
  finish_format text s = ended (consume_delimited true s)
  finish_format csv s = ended (consume_delimited true s)
  finish_format binary s = ended_binary (consume_binary route float_text s)

  unfoldable pub finish : Stream → Result CopyError (List Chunk) × Stream
  finish s = finish_format s.plan.format s

unfoldable pub new_stream : Plan → Result CopyError Stream
new_stream p = do
  refuse (not p.from || not p.sharded || length p.key_indexes == 0) no_sharded_plan
  ok (record {
    plan = p;
    buffer = [];
    header_pending = p.header;
    binary_header = false;
    binary_trailer = false;
    rows = 0;
  })
