-- ===== src/CopyRouter/Fields/Utf8.antt =====
-- Go's `utf8.Valid`, over bytes.
use hamstergres.Base.{
  ℕ, zero, suc, Bool, true, false, ◌&&◌, ◌||◌, ◌==◌, leb, ltb, List, [], ◌∷◌, if◌then◌else◌,
}

-- The continuation bytes that are missing, and the range of the next of them.
pub record Missing : Type 0 where
  pub count : ℕ
  pub low : ℕ
  pub high : ℕ

abbrev tail : ℕ → Missing
tail n = record { count = n; low = 0x80; high = 0xbf }

-- Whether a byte may start a character, and what it makes missing.
abbrev starts : ℕ → Bool
starts c = ltb c 0x80 || leb 0xc2 c && leb c 0xf4

abbrev missing_after : ℕ → Missing
missing_after c =
    if ltb c 0x80
    then tail 0
    else if ltb c 0xe0
    then tail 1
    else if c == 0xe0
    then record { count = 2; low = 0xa0; high = 0xbf }
    else if c == 0xed
    then record { count = 2; low = 0x80; high = 0x9f }
    else if ltb c 0xf0
    then tail 2
    else if c == 0xf0
    then record { count = 3; low = 0x90; high = 0xbf }
    else if c == 0xf4
    then record { count = 3; low = 0x80; high = 0x8f }
    else tail 3

valid_from : ℕ → ℕ → ℕ → List ℕ → Bool
valid_from zero low high [] = true
valid_from (suc n) low high [] = false
valid_from zero low high (c ∷ rest) =
    let m = missing_after c in starts c && valid_from m.count m.low m.high rest
valid_from (suc n) low high (c ∷ rest) = leb low c && leb c high && valid_from n 0x80 0xbf rest

unfoldable pub valid_utf8 : List ℕ → Bool
unfolding valid_from
valid_utf8 bytes = valid_from 0 0 0 bytes
