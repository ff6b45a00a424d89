-- ===== src/CopyRouter/Records.antt =====
-- `delimitedRecordEnd` and `trimRecordTerminator` of internal/copyrouter/copy.go.
pub mod Ends
use hamstergres.Base.{
  ℕ, zero, suc, ◌+◌, ◌==◌, Bool, true, false, ◌&&◌, ◌||◌, List, [], ◌∷◌, if◌then◌else◌, Option,
  none, some,
}
use hamstergres.CopyRouter.Plan.{Plan, Bytes, Format, text, csv, binary}

-- bytes.IndexByte(data, '\n'), plus one; 0 if there is none
unfoldable pub line_end : ℕ → Bytes → ℕ
line_end i [] = 0
line_end i (c ∷ rest) = let more = line_end (i + 1) rest in if c == 10 then i + 1 else more

-- The variables of the loop: `inQuotes`, and `fieldStart` where it is read. `skipped` is the byte
-- that `index++` passes over.
pub data Mode : Type 0 where
  unquoted : Bool → Mode
  quoted skipped : Mode

-- index+1 < len(data) && (data[index+1] == plan.Quote || data[index+1] == plan.Escape)
abbrev pub quotes_next : Plan → Bytes → Bool
quotes_next p [] = false
quotes_next p (d ∷ rest) = d == p.quote || d == p.escape

-- Where the loop is after a byte: past the record, or in a mode.
pub data After : Type 0 where
  ended : After
  go_on : Mode → After

unfoldable pub scan_byte : Plan → Mode → ℕ → Bytes → After
scan_byte p skipped c rest = go_on quoted
scan_byte p quoted c rest =
    if c == p.escape && quotes_next p rest
    then go_on skipped
    else if c == p.quote
    then go_on (unquoted false)
    else go_on quoted
scan_byte p (unquoted start) c rest =
    if start && c == p.quote
    then go_on quoted
    else if c == p.delimiter
    then go_on (unquoted true)
    else if c == 10
    then ended
    else if c == 13
    then go_on (unquoted start)
    else go_on (unquoted false)

abbrev pub in_quotes : Mode → Bool
in_quotes (unquoted start) = false
in_quotes quoted = true
in_quotes skipped = true

abbrev pub proceed : (Mode → ℕ × Bool) → ℕ → After → ℕ × Bool
proceed again i ended = (i + 1, false)
proceed again i (go_on m) = again m

-- The loop from index `i`: the end of the record (0 if it is not there yet), and `inQuotes`.
unfoldable pub scan : Plan → ℕ → Mode → Bytes → ℕ × Bool
scan p i m [] = (0, in_quotes m)
scan p i m (c ∷ rest) = proceed (λ m'. scan p (i + 1) m' rest) i (scan_byte p m c rest)

unfoldable pub end_in : Plan → Format → Bytes → ℕ × Bool
end_in p text d = (line_end 0 d, false)
end_in p csv d = scan p 0 (unquoted true) d
end_in p binary d = scan p 0 (unquoted true) d

unfoldable pub record_end : Plan → Bytes → ℕ × Bool
record_end p d = end_in p p.format d

-- Go's slices from the end: the bytes without a final '\n', and without a '\r' before it.
unfoldable pub trim_terminator : Bytes → Bytes
trim_terminator [] = []
trim_terminator (c ∷ []) = if c == 10 then [] else c ∷ []
trim_terminator (c ∷ d ∷ []) = if d == 10 then (if c == 13 then [] else c ∷ []) else c ∷ d ∷ []
trim_terminator (c ∷ d ∷ e ∷ rest) = c ∷ trim_terminator (d ∷ e ∷ rest)
