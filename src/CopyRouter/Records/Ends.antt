-- ===== src/CopyRouter/Records/Ends.antt =====
-- The end of a record: within the data, and not moved by what follows.
use hamstergres.Base.{
  ℕ, ◌+◌, ◌<◌, ◌≤◌, ◌≡◌, ◌≢◌, refl, ◌⊎◌, inl, inr, true, [], ◌∷◌, ◌++◌, arith, length,
}
use hamstergres.CopyRouter.Plan.{Plan, Bytes, Format, text, csv, binary}
use hamstergres.CopyRouter.Records.{
  line_end, Mode, unquoted, quoted, skipped, After, ended, go_on, scan_byte, scan, record_end,
  end_in,
}

line_end_bounds :
    (i : ℕ) (d : Bytes) → line_end i d ≢ 0 → (i < line_end i d) × (line_end i d ≤ i + length d)
unfolding line_end
line_end_bounds i [] h = absurd (h refl)
line_end_bounds i (c ∷ rest) h = ground (arith, line_end_bounds (i + 1) rest)

line_end-append :
    (i : ℕ) (d more : Bytes) → line_end i d ≢ 0 → line_end i (d ++ more) ≡ line_end i d
unfolding line_end
line_end-append i [] more h = absurd (h refl)
line_end-append i (c ∷ rest) more h = ground (arith, line_end-append (i + 1) rest more)

After-cases : (a : After) → (a ≡ ended) ⊎ ((m : Mode) × (a ≡ go_on m))
After-cases ended = inl refl
After-cases (go_on m) = inr (m, refl)

module _ (p : Plan) where
  scan_bounds :
      (i : ℕ) (m : Mode) (d : Bytes)
      → (scan p i m d).0 ≢ 0
      → (i < (scan p i m d).0) × ((scan p i m d).0 ≤ i + length d)
  unfolding scan
  scan_bounds i m [] h = absurd (h refl)
  scan_bounds i m (c ∷ rest) h = elim (After-cases (scan_byte p m c rest)) [
    | inl e ↦ rw e (omega arith)
    | inr (m', e) ↦ let (low, high) = scan_bounds (i + 1) m' rest (rw e at h) in rw e (omega arith)
  ]

  -- What ends a record at its last byte ends it there whatever follows.
  ended-append :
      (m : Mode) (c : ℕ) (more : Bytes) → scan_byte p m c [] ≡ ended → scan_byte p m c more ≡ ended
  unfolding scan_byte
  ended-append skipped c more h = cc
  ended-append quoted c more h = ground arith
  ended-append (unquoted start) c more h = h

  scan-append :
      (i : ℕ) (m : Mode) (d more : Bytes)
      → (scan p i m d).0 ≢ 0
      → scan p i m (d ++ more) ≡ scan p i m d
  unfolding scan scan_byte
  scan-append i m [] more h = absurd (h refl)
  scan-append i m (c ∷ []) more h = elim (After-cases (scan_byte p m c [])) [
    | inl e ↦ rw (e, ended-append m c more e)
    | inr (m', e) ↦ absurd ((rw e at h) refl)
  ]
  scan-append i m (c ∷ d ∷ rest) more h = elim (After-cases (scan_byte p m c (d ∷ rest))) [
    | inl e ↦ rw (same_byte m c d rest more, e)
    | inr (m', e) ↦
        rw (same_byte m c d rest more, e) (scan-append (i + 1) m' (d ∷ rest) more (rw e at h))
  ]
    where
      same_byte :
          (m : Mode) (c d : ℕ) (rest more : Bytes)
          → scan_byte p m c (d ∷ (rest ++ more)) ≡ scan_byte p m c (d ∷ rest)
      same_byte skipped c d rest more = refl
      same_byte quoted c d rest more = refl
      same_byte (unquoted start) c d rest more = refl

  end_in_bounds :
      (f : Format) (d : Bytes)
      → (end_in p f d).0 ≢ 0
      → (0 < (end_in p f d).0) × ((end_in p f d).0 ≤ length d)
  unfolding end_in
  end_in_bounds text d h = omega (arith, line_end_bounds 0 d h)
  end_in_bounds csv d h = omega (arith, scan_bounds 0 (unquoted true) d h)
  end_in_bounds binary d h = omega (arith, scan_bounds 0 (unquoted true) d h)

  end_in-append :
      (f : Format) (d more : Bytes) → (end_in p f d).0 ≢ 0 → end_in p f (d ++ more) ≡ end_in p f d
  unfolding end_in
  end_in-append text d more h = rw (line_end-append 0 d more h)
  end_in-append csv d more h = scan-append 0 (unquoted true) d more h
  end_in-append binary d more h = scan-append 0 (unquoted true) d more h

  -- An end that is found lies in the data, past their first byte.
  pub record_end_bounds :
      (d : Bytes)
      → (record_end p d).0 ≢ 0
      → (0 < (record_end p d).0) × ((record_end p d).0 ≤ length d)
  unfolding record_end
  record_end_bounds d h = end_in_bounds p.format d h

  -- An end that is found stays where it is when more data arrive.
  pub record_end-append :
      (d more : Bytes) → (record_end p d).0 ≢ 0 → record_end p (d ++ more) ≡ record_end p d
  unfolding record_end
  record_end-append d more h = end_in-append p.format d more h
