-- ===== src/Nest/Maintenance.antt =====
-- `validateTestKey` and `prefixRangeEnd` of internal/nest/maintenance.go. Keys are lists of bytes.
pub mod Prefix
use hamstergres.Base.{
  ℕ, ◌+◌, ◌==◌, leb, ltb, Bool, true, false, not, ◌&&◌, ◌||◌, List, [], ◌∷◌, Option, none, some,
  Result, ok, err, ◌>>◌, refuse, if◌then◌else◌, length, is_present,
}

pub data KeyError : Type 0 where
  bad_length unsafe_character : KeyError

unfoldable pub is_safe : ℕ → Bool
is_safe c =
    leb b'a' c && leb c b'z'
    || leb b'A' c && leb c b'Z'
    || leb b'0' c && leb c b'9'
    || c == b'-'
    || c == b'_'
    || c == b'.'

-- for _, character := range testKey; a byte of a longer character is unsafe, as the character is
unfoldable pub check_characters : List ℕ → Result KeyError (Unit {0})
check_characters [] = ok tt
check_characters (c ∷ cs) = do refuse (not (is_safe c)) unsafe_character; check_characters cs

unfoldable pub validate_test_key : List ℕ → Result KeyError (Unit {0})
validate_test_key key = do
  refuse (length key == 0 || ltb 128 (length key)) bad_length
  check_characters key

-- The loop from the end: `none` if it returns nowhere.
abbrev pub increment : ℕ → Option (List ℕ) → Option (List ℕ)
increment c (some end') = some (c ∷ end')
increment c none = if ltb c 0xff then some ((c + 1) ∷ []) else none

unfoldable pub range_end_from : List ℕ → Option (List ℕ)
range_end_from [] = none
range_end_from (c ∷ cs) = increment c (range_end_from cs)

unfoldable pub prefix_range_end : List ℕ → List ℕ
prefix_range_end prefix = elim (range_end_from prefix) [ none ↦ 0 ∷ [] | some end' ↦ end' ]
