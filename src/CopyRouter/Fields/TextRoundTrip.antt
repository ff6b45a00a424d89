-- ===== src/CopyRouter/Fields/TextRoundTrip.antt =====
-- `parseTextRecord` of internal/copyrouter/copy.go reads back what COPY TO writes in text format.
use hamstergres.Base.{
  ℕ, ◌≡◌, refl, ap, sym, ◌∙◌, true, false, ◌==◌, List, [], ◌∷◌, ◌++◌, map, Option, none, some,
  arith, Result, ok, err, if◌then◌else◌,
}
use mathlib.Core.List.{append-nil, append_assoc}
use hamstergres.CopyRouter.Plan.{CopyError, Plan, Bytes, bytes_eq}
use hamstergres.CopyRouter.Fields.{
  CopyField, prepend, push, split_text, is_octal, control, plain, escaped, text_byte, decode_from,
  decode_text_field, text_field, text_fields, parse_text_record,
}

-- The byte behind the backslash by which the documentation of COPY writes a byte of a value;
-- `none` if the byte stands for itself.
abbrev pub letter : ℕ → ℕ → Option ℕ
letter d c =
    if c == 92
    then some 92
    else if c == 8
    then some 98
    else if c == 12
    then some 102
    else if c == 10
    then some 110
    else if c == 13
    then some 114
    else if c == 9
    then some 116
    else if c == 11
    then some 118
    else if c == d
    then some c
    else none

abbrev pub written : ℕ → Option ℕ → Bytes
written c none = c ∷ []
written c (some l) = 92 ∷ l ∷ []

abbrev pub escape_text : ℕ → Bytes → Bytes
escape_text d [] = []
escape_text d (c ∷ v) = written c (letter d c) ++ escape_text d v

-- A delimiter that PostgreSQL accepts in text format does not read as an escape: it is no
-- backslash, no digit and none of b f n r t v x; nor is it the N of the null marker.
pub record IsTextDelimiter (d : ℕ) : Type 0 where
  pub no_backslash : (d == 92) ≡ false
  pub no_null : (d == 78) ≡ false
  pub no_hex : (d == 120) ≡ false
  pub no_octal : is_octal d ≡ false
  pub no_control : control d ≡ d

letter-some :
    (d c l : ℕ) → IsTextDelimiter d → letter d c ≡ some l → text_byte escaped l ≡ (c ∷ [], plain)
unfolding text_byte
letter-some d c l s e = ground arith

letter-none : (d c : ℕ) → letter d c ≡ none → ((c == 92) ≡ false) × ((c == d) ≡ false)
letter-none d c e = ground arith

-- Decoding

decode_nil : decode_from plain [] ≡ ok []
unfolding decode_from
decode_nil = refl

plain_itself : (c : ℕ) → (c == 92) ≡ false → text_byte plain c ≡ (c ∷ [], plain)
unfolding text_byte
plain_itself c h = rw h

after_backslash : text_byte plain 92 ≡ ([], escaped)
unfolding text_byte
after_backslash = refl

prepend-nil : (r : Result CopyError Bytes) → prepend [] r ≡ r
prepend-nil (ok v) = refl
prepend-nil (err e) = refl

decode-written :
    (d c : ℕ) (rest : Bytes) (l : Option ℕ)
    → IsTextDelimiter d
    → letter d c ≡ l
    → decode_from plain (written c l ++ rest) ≡ prepend (c ∷ []) (decode_from plain rest)
unfolding decode_from
decode-written d c rest none s e = rw (plain_itself c (letter-none d c e).0)
decode-written d c rest (some l) s e = rw (after_backslash, letter-some d c l s e) (prepend-nil _)

-- A value that is escaped decodes to itself.
decode-escape_text :
    (d : ℕ) (v : Bytes) → IsTextDelimiter d → decode_from plain (escape_text d v) ≡ ok v
decode-escape_text d [] s = decode_nil
decode-escape_text d (c ∷ v) s =
    decode-written d c (escape_text d v) (letter d c) s refl
    ∙ ap (prepend (c ∷ [])) (decode-escape_text d v s)

-- Splitting

push_all : Bytes → List Bytes → List Bytes
push_all [] fs = fs
push_all (c ∷ cs) fs = push c (push_all cs fs)

split-written :
    (d c : ℕ) (rest : Bytes) (l : Option ℕ)
    → IsTextDelimiter d
    → letter d c ≡ l
    → split_text d false (written c l ++ rest) ≡ push_all (written c l) (split_text d false rest)
unfolding split_text push_all
split-written d c rest none s e = let (a, b) = letter-none d c e in ground arith
split-written d c rest (some l) s e = ground arith

push_all-append :
    (xs ys : Bytes) (fs : List Bytes) → push_all (xs ++ ys) fs ≡ push_all xs (push_all ys fs)
unfolding push_all
push_all-append [] ys fs = refl
push_all-append (x ∷ xs) ys fs = ap (push x) (push_all-append xs ys fs)

split-escape_text :
    (d : ℕ) (v rest : Bytes)
    → IsTextDelimiter d
    → split_text d false (escape_text d v ++ rest)
      ≡ push_all (escape_text d v) (split_text d false rest)
unfolding push_all
split-escape_text d [] rest s = refl
split-escape_text d (c ∷ v) rest s =
    rw
      (
        append_assoc,
        split-written d c (escape_text d v ++ rest) (letter d c) s refl,
        split-escape_text d v rest s,
      )
      (sym (push_all-append (written c (letter d c)) (escape_text d v) (split_text d false rest)))

-- A field of the output: a value, or the null marker.
abbrev pub raw_of : ℕ → Option Bytes → Bytes
raw_of d none = 92 ∷ 78 ∷ []
raw_of d (some v) = escape_text d v

abbrev pub join_text : ℕ → Option Bytes → List (Option Bytes) → Bytes
join_text d f [] = raw_of d f
join_text d f (g ∷ gs) = raw_of d f ++ d ∷ join_text d g gs

split-raw_of :
    (d : ℕ) (f : Option Bytes) (rest : Bytes)
    → IsTextDelimiter d
    → split_text d false (raw_of d f ++ rest) ≡ push_all (raw_of d f) (split_text d false rest)
unfolding split_text push_all
split-raw_of d none rest s = ground arith
split-raw_of d (some v) rest s = split-escape_text d v rest s

push_all-cons : (xs : Bytes) (fs : List Bytes) → push_all xs ([] ∷ fs) ≡ xs ∷ fs
unfolding push_all
push_all-cons [] fs = refl
push_all-cons (x ∷ xs) fs = rw (push_all-cons xs fs)

split_delimiter :
    (d : ℕ) (rest : Bytes) → split_text d false (d ∷ rest) ≡ [] ∷ split_text d false rest
unfolding split_text
split_delimiter d rest = ground arith

split_nil : (d : ℕ) → split_text d false [] ≡ [] ∷ []
unfolding split_text
split_nil d = refl

split-join_text :
    (d : ℕ) (f : Option Bytes) (fs : List (Option Bytes))
    → IsTextDelimiter d
    → split_text d false (join_text d f fs) ≡ map (raw_of d) (f ∷ fs)
split-join_text d f [] s =
    ap (split_text d false) (sym (append-nil (raw_of d f)))
    ∙ split-raw_of d f [] s
    ∙ rw (split_nil, push_all-cons)
split-join_text d f (g ∷ gs) s =
    split-raw_of d f (d ∷ join_text d g gs) s
    ∙ rw (split_delimiter, push_all-cons, split-join_text d g gs s)

-- Fields

abbrev pub read_field : Option Bytes → CopyField
read_field none = record { value = []; null = true; quoted = false }
read_field (some v) = record { value = v; null = false; quoted = false }

-- No escaped value reads as the null marker.
written-ne-null :
    (d c : ℕ) (rest : Bytes) (l : Option ℕ)
    → IsTextDelimiter d
    → letter d c ≡ l
    → bytes_eq (written c l ++ rest) (92 ∷ 78 ∷ []) ≡ false
written-ne-null d c rest none s e = ground (arith, letter-none d c e)
written-ne-null d c rest (some l) s e = ground arith

text_field-raw_of :
    (p : Plan) (f : Option Bytes)
    → IsTextDelimiter p.delimiter
    → p.null ≡ 92 ∷ 78 ∷ []
    → text_field p (raw_of p.delimiter f) ≡ ok (read_field f)
unfolding text_field decode_text_field
text_field-raw_of p none s n = rw n
text_field-raw_of p (some []) s n = rw (n, decode_nil)
text_field-raw_of p (some (c ∷ v)) s n = rw (
  n,
  written-ne-null p.delimiter c (escape_text p.delimiter v) (letter p.delimiter c) s refl,
  decode-escape_text p.delimiter (c ∷ v) s,
)

text_fields-map :
    (p : Plan) (fs : List (Option Bytes))
    → IsTextDelimiter p.delimiter
    → p.null ≡ 92 ∷ 78 ∷ []
    → text_fields p (map (raw_of p.delimiter) fs) ≡ ok (map read_field fs)
unfolding text_fields
text_fields-map p [] s n = refl
text_fields-map p (f ∷ fs) s n = rw (text_field-raw_of p f s n, text_fields-map p fs s n)

-- With the default null marker and a delimiter that PostgreSQL accepts, the fields that COPY TO
-- writes in text format, NULLs and values of any bytes, are read back unchanged.
pub parse-join_text :
    (p : Plan) (f : Option Bytes) (fs : List (Option Bytes))
    → IsTextDelimiter p.delimiter
    → p.null ≡ 92 ∷ 78 ∷ []
    → parse_text_record p (join_text p.delimiter f fs) ≡ ok (map read_field (f ∷ fs))
unfolding parse_text_record
parse-join_text p f fs s n =
    rw (split-join_text p.delimiter f fs s) (text_fields-map p (f ∷ fs) s n)
