-- ===== src/CopyRouter/Fields/CsvRoundTrip.antt =====
-- `parseCSVRecord` of internal/copyrouter/copy.go reads back quoted fields and empty NULLs.
use hamstergres.Base.{
  ℕ, ◌≡◌, ap, ◌∙◌, true, false, ◌||◌, ◌==◌, List, [], ◌∷◌, ◌++◌, map, Option, none, some, arith, ok,
  ◌>>=◌, if◌then◌else◌, Bool-cases, inl, inr,
}
use mathlib.Core.List.{append-nil, append_assoc}
use hamstergres.CopyRouter.Plan.{Plan, Bytes, bytes_eq}
use hamstergres.CopyRouter.Fields.{
  CopyField, start, inside, field, csv_byte, parse_csv, parse_csv_record, quoted_field, bare_field,
}

-- How the documentation of COPY writes the bytes of a quoted value.
abbrev pub quote_bytes : Plan → Bytes → Bytes
quote_bytes p [] = []
quote_bytes p (c ∷ v) =
    if c == p.quote || c == p.escape then p.escape ∷ c ∷ quote_bytes p v else c ∷ quote_bytes p v

-- A NULL is written as nothing, a value between quotes.
abbrev pub csv_of : Plan → Option Bytes → Bytes → Bytes
csv_of p none rest = rest
csv_of p (some v) rest = p.quote ∷ (quote_bytes p v ++ p.quote ∷ rest)

abbrev pub join_csv : Plan → Option Bytes → List (Option Bytes) → Bytes
join_csv p f [] = csv_of p f []
join_csv p f (g ∷ gs) = csv_of p f (p.delimiter ∷ join_csv p g gs)

abbrev pub read_field : Option Bytes → CopyField
read_field none = record { value = []; null = true; quoted = false }
read_field (some v) = quoted_field v

-- What the plan of a CSV COPY ensures of its characters, with the default null marker.
pub record IsCsvPlan (p : Plan) : Type 0 where
  pub empty_null : p.null ≡ []
  pub quote_differs : (p.delimiter == p.quote) ≡ false
  pub escape_differs : (p.delimiter == p.escape) ≡ false

module _ (p : Plan) (s : IsCsvPlan p) where
  inside_special :
      (c : ℕ) (w rest : Bytes)
      → (c == p.quote || c == p.escape) ≡ true
      → parse_csv p (inside w) (p.escape ∷ c ∷ rest) ≡ parse_csv p (inside (w ++ c ∷ [])) rest
  unfolding parse_csv csv_byte
  inside_special c w rest h = ground arith

  inside_other :
      (c : ℕ) (w rest : Bytes)
      → (c == p.quote || c == p.escape) ≡ false
      → parse_csv p (inside w) (c ∷ rest) ≡ parse_csv p (inside (w ++ c ∷ [])) rest
  unfolding parse_csv csv_byte
  inside_other c w rest h = ground arith

  inside_quote_bytes :
      (v w rest : Bytes)
      → parse_csv p (inside w) (quote_bytes p v ++ rest) ≡ parse_csv p (inside (w ++ v)) rest
  inside_quote_bytes [] w rest = rw append-nil
  inside_quote_bytes (c ∷ v) w rest = elim (Bool-cases (c == p.quote || c == p.escape)) [
    | inl special ↦ rw special (
        inside_special c w (quote_bytes p v ++ rest) special
        ∙ inside_quote_bytes v (w ++ c ∷ []) rest
        ∙ rw append_assoc)
    | inr other ↦ rw other (
        inside_other c w (quote_bytes p v ++ rest) other
        ∙ inside_quote_bytes v (w ++ c ∷ []) rest
        ∙ rw append_assoc)
  ]

  -- The closing quote, before a delimiter or at the end.
  close_delimiter :
      (w rest : Bytes)
      → parse_csv p (inside w) (p.quote ∷ p.delimiter ∷ rest)
        ≡ (parse_csv p start rest >>= λ fs. ok (quoted_field w ∷ fs))
  unfolding parse_csv csv_byte
  close_delimiter w rest = ground (arith, s.quote_differs, s.escape_differs)

  close_end : (w : Bytes) → parse_csv p (inside w) (p.quote ∷ []) ≡ ok (quoted_field w ∷ [])
  unfolding parse_csv csv_byte
  close_end w = ground arith

  open_quote : (rest : Bytes) → parse_csv p start (p.quote ∷ rest) ≡ parse_csv p (inside []) rest
  unfolding parse_csv csv_byte
  open_quote rest = ground arith

  null_field : bare_field p [] ≡ read_field none
  null_field = ap (λ n. record { value = []; null = bytes_eq [] n; quoted = false }) s.empty_null

  delimiter_byte : (rest : Bytes) → csv_byte p start p.delimiter rest ≡ field (read_field none)
  unfolding csv_byte
  delimiter_byte rest = ground (arith, s.quote_differs, null_field)

  null_delimiter :
      (rest : Bytes)
      → parse_csv p start (p.delimiter ∷ rest)
        ≡ (parse_csv p start rest >>= λ fs. ok (read_field none ∷ fs))
  unfolding parse_csv
  null_delimiter rest = rw delimiter_byte

  null_end : parse_csv p start [] ≡ ok (read_field none ∷ [])
  unfolding parse_csv
  null_end = rw null_field

  -- One field, before a delimiter or at the end.
  field_delimiter :
      (f : Option Bytes) (rest : Bytes)
      → parse_csv p start (csv_of p f (p.delimiter ∷ rest))
        ≡ (parse_csv p start rest >>= λ fs. ok (read_field f ∷ fs))
  field_delimiter none rest = null_delimiter rest
  field_delimiter (some v) rest =
      open_quote (quote_bytes p v ++ p.quote ∷ p.delimiter ∷ rest)
      ∙ inside_quote_bytes v [] (p.quote ∷ p.delimiter ∷ rest)
      ∙ close_delimiter v rest

  field_end : (f : Option Bytes) → parse_csv p start (csv_of p f []) ≡ ok (read_field f ∷ [])
  field_end none = null_end
  field_end (some v) =
      open_quote (quote_bytes p v ++ p.quote ∷ [])
      ∙ inside_quote_bytes v [] (p.quote ∷ [])
      ∙ close_end v

  parse_csv-join :
      (f : Option Bytes) (fs : List (Option Bytes))
      → parse_csv p start (join_csv p f fs) ≡ ok (map read_field (f ∷ fs))
  parse_csv-join f [] = field_end f
  parse_csv-join f (g ∷ gs) = field_delimiter f (join_csv p g gs) ∙ rw (parse_csv-join g gs)

-- In a CSV plan whose delimiter differs from the quote and the escape, with the default null
-- marker, a record of quoted values and empty NULLs is read back: values of any bytes, the quote,
-- the escape, the delimiter and newlines among them.
pub parse-join_csv :
    (p : Plan) (f : Option Bytes) (fs : List (Option Bytes))
    → IsCsvPlan p
    → parse_csv_record p (join_csv p f fs) ≡ ok (map read_field (f ∷ fs))
unfolding parse_csv_record
parse-join_csv p f fs s = parse_csv-join p s f fs
