-- ===== src/CopyRouter/Plan.antt =====
-- The plan of one COPY operation, of internal/copyrouter/copy.go. Data are lists of bytes.
use hamstergres.Base.{ℕ, ◌*◌, ◌^◌, ◌==◌, ◌&&◌, String, Bool, true, false, List, [], ◌∷◌}

-- 16 << 20
abbrev pub max_row_bytes : ℕ
max_row_bytes = 16 * 2 ^ 20

abbrev pub Bytes : Type 0
Bytes = List ℕ

pub data Format : Type 0 where
  text csv binary : Format

pub record Plan : Type 0 where
  pub table : String
  pub columns : List String
  pub from : Bool
  pub server_side : Bool
  pub program : Bool
  pub sharded : Bool
  pub format : Format
  pub delimiter : ℕ
  pub null : Bytes
  pub header : Bool
  pub quote : ℕ
  pub escape : ℕ
  pub encoding : String
  pub key_indexes : List ℕ
  pub key_types : List String

-- bytes.Equal, and == of the strings that two byte slices hold
abbrev pub bytes_eq : Bytes → Bytes → Bool
bytes_eq [] [] = true
bytes_eq (a ∷ as') (b ∷ bs) = a == b && bytes_eq as' bs
bytes_eq _ _ = false

pub data CopyError : Type 0 where
  unterminated_quote trailing_data stray_quote ends_with_escape : CopyError
  wrong_columns null_key invalid_utf8 bad_index unroutable : CopyError
  row_too_long no_header no_sharded_plan unsupported_format : CopyError
  bad_signature extension_too_long field_too_long after_trailer incomplete_binary : CopyError
  bad_key : CopyError
