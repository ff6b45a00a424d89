-- ===== src/Router/Bytes.antt =====
-- Go's texts as lists of bytes: strings.TrimSpace and friends.
use hamstergres.Base.{
  ℕ, zero, suc, ◌+◌, ◌-◌, ◌==◌, leb, Bool, true, false, ◌&&◌, ◌||◌, List, [], ◌∷◌, if◌then◌else◌,
}

abbrev pub Bytes : Type 0
Bytes = List ℕ

-- The bytes behind the first two of a space character of three bytes (0xe1, 0xe2 or 0xe3).
abbrev is_space_tail : ℕ → ℕ → ℕ → Bool
is_space_tail a b c =
    a == 0xe1 && b == 0x9a && c == 0x80
    || a == 0xe2 && b == 0x80 && (leb 0x80 c && leb c 0x8a || c == 0xa8 || c == 0xa9 || c == 0xaf)
    || a == 0xe2 && b == 0x81 && c == 0x9f
    || a == 0xe3 && b == 0x80 && c == 0x80

-- The width of the space character at the front, in UTF-8; 0 if there is none (`unicode.IsSpace`).
unfoldable pub space_width : Bytes → ℕ
space_width [] = 0
space_width (a ∷ rest) = if leb 9 a && leb a 13 || a == 32 then 1 else wide a rest
  where
    wide : ℕ → Bytes → ℕ
    wide a [] = 0
    wide a (b ∷ []) = if a == 0xc2 && (b == 0x85 || b == 0xa0) then 2 else 0
    wide a (b ∷ c ∷ more) =
        if a == 0xc2 && (b == 0x85 || b == 0xa0) then 2 else if is_space_tail a b c then 3 else 0

-- The same at the end, of the reversed text.
unfoldable pub space_width_reversed : Bytes → ℕ
space_width_reversed [] = 0
space_width_reversed (a ∷ rest) = if leb 9 a && leb a 13 || a == 32 then 1 else wide a rest
  where
    wide : ℕ → Bytes → ℕ
    wide c [] = 0
    wide c (b ∷ []) = if b == 0xc2 && (c == 0x85 || c == 0xa0) then 2 else 0
    wide c (b ∷ a ∷ more) =
        if b == 0xc2 && (c == 0x85 || c == 0xa0) then 2 else if is_space_tail a b c then 3 else 0

-- Skip `n` bytes, then the spaces that follow.
unfoldable pub trim_from : (Bytes → ℕ) → ℕ → Bytes → Bytes
trim_from width n [] = []
trim_from width (suc n) (c ∷ cs) = trim_from width n cs
trim_from width zero (c ∷ cs) =
    let rest = trim_from width (width (c ∷ cs) - 1) cs in
    if width (c ∷ cs) == 0 then c ∷ cs else rest

abbrev pub reverse_onto : Bytes → Bytes → Bytes
reverse_onto [] acc = acc
reverse_onto (c ∷ cs) acc = reverse_onto cs (c ∷ acc)

abbrev pub reverse : Bytes → Bytes
reverse cs = reverse_onto cs []

unfoldable pub trim_space : Bytes → Bytes
unfolding trim_from space_width space_width_reversed
trim_space v = reverse (trim_from space_width_reversed 0 (reverse (trim_from space_width 0 v)))

-- strings.TrimLeft(_, c), for one character
abbrev pub trim_left : ℕ → Bytes → Bytes
trim_left x [] = []
trim_left x (c ∷ cs) = let rest = trim_left x cs in if c == x then rest else c ∷ cs

-- strings.TrimRight(_, c)
abbrev pub trim_right : ℕ → Bytes → Bytes
trim_right x v = reverse (trim_left x (reverse v))

-- strings.Trim(_, "{}")
abbrev pub trim_braces : Bytes → Bytes
trim_braces v = reverse (skip (reverse (skip v)))
  where
    skip : Bytes → Bytes
    skip [] = []
    skip (c ∷ cs) = let rest = skip cs in if c == 123 || c == 125 then rest else c ∷ cs

-- strings.ReplaceAll(_, c, "")
abbrev pub without : ℕ → Bytes → Bytes
without x [] = []
without x (c ∷ cs) = let rest = without x cs in if c == x then rest else c ∷ rest

-- strings.ToLower, on the ASCII letters: no other letter makes a text that is compared below.
abbrev pub to_lower : Bytes → Bytes
to_lower [] = []
to_lower (c ∷ cs) = (if leb 65 c && leb c 90 then c + 32 else c) ∷ to_lower cs

abbrev pub is_digit : ℕ → Bool
is_digit c = leb 48 c && leb c 57

abbrev pub all_digits : Bytes → Bool
all_digits [] = true
all_digits (c ∷ cs) = is_digit c && all_digits cs

abbrev pub all_hex : Bytes → Bool
all_hex [] = true
all_hex (c ∷ cs) = (is_digit c || leb 97 c && leb c 102) && all_hex cs

abbrev pub is_empty : Bytes → Bool
is_empty [] = true
is_empty (c ∷ cs) = false
