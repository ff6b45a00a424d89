-- ===== src/CopyRouter/Fields.antt =====
-- The fields of one record of COPY data: `parseTextRecord`, `decodeTextField` and
-- `parseCSVRecord` of internal/copyrouter/copy.go. Loops that look at the bytes ahead are loops
-- over the bytes with a mode.
mod Utf8
pub mod TextRoundTrip
pub mod CsvRoundTrip
unfoldable pub use Utf8.{valid_utf8}
use hamstergres.Base.{
  ℕ, ◌+◌, ◌-◌, ◌*◌, ◌==◌, leb, ltb, Bool, true, false, not, ◌&&◌, ◌||◌, List, [], ◌∷◌, ◌++◌, Result,
  ok, err, ◌>>=◌, ◌>>◌, refuse, if◌then◌else◌, map,
}
use hamstergres.CopyRouter.Plan.{
  Plan, Bytes, CopyError, bytes_eq, ends_with_escape, unterminated_quote, trailing_data,
  stray_quote,
}
use hamstergres.CopyRouter.Records.{quotes_next}

pub record CopyField : Type 0 where
  pub value : Bytes
  pub null : Bool
  pub quoted : Bool

-- Text

abbrev pub push : ℕ → List Bytes → List Bytes
push c [] = (c ∷ []) ∷ []
push c (f ∷ fs) = (c ∷ f) ∷ fs

-- The raw fields. `odd` says whether an odd number of backslashes of the field stands directly
-- before the byte, which the source counts backwards.
unfoldable pub split_text : ℕ → Bool → Bytes → List Bytes
split_text delimiter odd [] = [] ∷ []
split_text delimiter odd (c ∷ rest) = elim (c == delimiter && not odd) [
  | true ↦ [] ∷ split_text delimiter false rest
  | false ↦ push c (split_text delimiter (c == 92 && not odd) rest)
]

abbrev pub is_hex : ℕ → Bool
is_hex c = leb 48 c && leb c 57 || leb 97 c && leb c 102 || leb 65 c && leb c 70

abbrev pub is_octal : ℕ → Bool
is_octal c = leb 48 c && leb c 55

abbrev pub hex_digit : ℕ → ℕ
hex_digit c = if leb c 57 then c - 48 else if leb c 70 then c - 55 else c - 87

-- What strconv.ParseUint(_, base, 8) returns beside its error: at most 255.
abbrev pub clamp_byte : ℕ → ℕ
clamp_byte n = if ltb 255 n then 255 else n

-- Where `decodeTextField` stands: outside an escape, after a backslash, after `\x` and no or one
-- digit, or after one or two octal digits.
pub data TextMode : Type 0 where
  plain escaped hex : TextMode
  hex_one octal_one octal_two : ℕ → TextMode

-- The letters of the `switch`.
abbrev pub control : ℕ → ℕ
control c =
    if c == 98
    then 8
    else if c == 102
    then 12
    else if c == 110
    then 10
    else if c == 114
    then 13
    else if c == 116
    then 9
    else if c == 118
    then 11
    else c

abbrev pub plain_byte : ℕ → Bytes × TextMode
plain_byte c = if c == 92 then ([], escaped) else (c ∷ [], plain)

-- A finished value, before a byte that is outside the escape.
abbrev pub before : ℕ → Bytes × TextMode → Bytes × TextMode
before v (out, m) = (v ∷ out, m)

-- The bytes that one byte of the raw field adds to the value, and the mode after it.
unfoldable pub text_byte : TextMode → ℕ → Bytes × TextMode
text_byte plain c = plain_byte c
text_byte escaped c =
    if c == 120
    then ([], hex)
    else if is_octal c
    then ([], octal_one (c - 48))
    else (control c ∷ [], plain)
text_byte hex c = if is_hex c then ([], hex_one (hex_digit c)) else before 120 (plain_byte c)
text_byte (hex_one v) c =
    if is_hex c then ((v * 16 + hex_digit c) ∷ [], plain) else before v (plain_byte c)
text_byte (octal_one v) c =
    if is_octal c then ([], octal_two (v * 8 + (c - 48))) else before v (plain_byte c)
text_byte (octal_two v) c =
    if is_octal c
    then (clamp_byte (v * 8 + (c - 48)) ∷ [], plain)
    else before (clamp_byte v) (plain_byte c)

-- The end of the raw field.
abbrev pub text_end : TextMode → Result CopyError Bytes
text_end plain = ok []
text_end escaped = err ends_with_escape
text_end hex = ok (120 ∷ [])
text_end (hex_one v) = ok (v ∷ [])
text_end (octal_one v) = ok (v ∷ [])
text_end (octal_two v) = ok (v ∷ [])

abbrev pub prepend : Bytes → Result CopyError Bytes → Result CopyError Bytes
prepend out (ok v) = ok (out ++ v)
prepend out (err e) = err e

unfoldable pub decode_from : TextMode → Bytes → Result CopyError Bytes
decode_from m [] = text_end m
decode_from m (c ∷ rest) = prepend (text_byte m c).0 (decode_from (text_byte m c).1 rest)

unfoldable pub decode_text_field : Bytes → Result CopyError Bytes
decode_text_field raw = decode_from plain raw

unfoldable pub text_field : Plan → Bytes → Result CopyError CopyField
text_field p raw =
    if bytes_eq raw p.null then ok (record { value = []; null = true; quoted = false }) else do
      value ← decode_text_field raw
      ok (record { value = value; null = false; quoted = false })

unfoldable pub text_fields : Plan → List Bytes → Result CopyError (List CopyField)
text_fields p [] = ok []
text_fields p (raw ∷ raws) = do
  field ← text_field p raw
  fields ← text_fields p raws
  ok (field ∷ fields)

unfoldable pub parse_text_record : Plan → Bytes → Result CopyError (List CopyField)
parse_text_record p raw = text_fields p (split_text p.delimiter false raw)

-- CSV

-- Where `parseCSVRecord` stands: before a field, in a field with its value so far (`taken`: an
-- escape was read, and the next byte belongs to the value), or behind the closing quote.
pub data CsvMode : Type 0 where
  start : CsvMode
  bare inside taken closed : Bytes → CsvMode

abbrev pub bare_field : Plan → Bytes → CopyField
bare_field p v = record { value = v; null = bytes_eq v p.null; quoted = false }

abbrev pub quoted_field : Bytes → CopyField
quoted_field v = record { value = v; null = false; quoted = true }

-- After one byte: on in a mode, a field that a delimiter ends, or an error.
pub data CsvAfter : Type 0 where
  on : CsvMode → CsvAfter
  field : CopyField → CsvAfter
  bad : CopyError → CsvAfter

abbrev pub bare_byte : Plan → Bytes → ℕ → CsvAfter
bare_byte p v c =
    if c == p.delimiter
    then field (bare_field p v)
    else if c == p.quote
    then bad stray_quote
    else on (bare (v ++ c ∷ []))

unfoldable pub csv_byte : Plan → CsvMode → ℕ → Bytes → CsvAfter
csv_byte p start c rest = if c == p.quote then on (inside []) else bare_byte p [] c
csv_byte p (bare v) c rest = bare_byte p v c
csv_byte p (inside v) c rest =
    if c == p.escape && quotes_next p rest
    then on (taken v)
    else if c == p.quote
    then on (closed v)
    else on (inside (v ++ c ∷ []))
csv_byte p (taken v) c rest = on (inside (v ++ c ∷ []))
csv_byte p (closed v) c rest =
    if c == p.delimiter then field (quoted_field v) else bad trailing_data

abbrev pub csv_end : Plan → CsvMode → Result CopyError (List CopyField)
csv_end p start = ok (bare_field p [] ∷ [])
csv_end p (bare v) = ok (bare_field p v ∷ [])
csv_end p (inside v) = err unterminated_quote
csv_end p (taken v) = err unterminated_quote
csv_end p (closed v) = ok (quoted_field v ∷ [])

abbrev pub csv_next :
    (CsvMode → Result CopyError (List CopyField)) → CsvAfter → Result CopyError (List CopyField)
csv_next again (on m) = again m
csv_next again (field f) = again start >>= λ fs. ok (f ∷ fs)
csv_next again (bad e) = err e

unfoldable pub parse_csv : Plan → CsvMode → Bytes → Result CopyError (List CopyField)
parse_csv p m [] = csv_end p m
parse_csv p m (c ∷ rest) = csv_next (λ m'. parse_csv p m' rest) (csv_byte p m c rest)

unfoldable pub parse_csv_record : Plan → Bytes → Result CopyError (List CopyField)
parse_csv_record p raw = parse_csv p start raw
