-- ===== src/CopyRouter/Output/Header.antt =====
-- The output of one Burrow in text or CSV format, through `OutputStream` of
-- internal/copyrouter/copy.go.
use hamstergres.Base.{
  ℕ, zero, suc, ◌≡◌, ◌≢◌, refl, sym, ap, ◌∙◌, subst, inl, inr, Bool, true, false, not, List, [],
  ◌∷◌, ◌++◌, ok, err, length, drop, drop-append, arith, Bool-cases, if◌then◌else◌, ltb, ◌&&◌,
}
use mathlib.Core.List.{append-nil, append_assoc, flatten}
use hamstergres.CopyRouter.Plan.{Plan, Bytes, Format, text, csv, binary, max_row_bytes, no_header}
use hamstergres.CopyRouter.Records.{record_end}
use hamstergres.CopyRouter.Records.Ends.{record_end_bounds, record_end-append}
use hamstergres.CopyRouter.Stream.Conserved.{IsDelimited}
use hamstergres.CopyRouter.Output.{
  OutputStream, Passed, pass_first, unless_empty, skip_header, write_as, output_write, finish_as,
  output_finish,
}

-- Writes, one after the other, and `Finish`; an error ends the output.
abbrev pub continue : (OutputStream → Passed) → Passed → Passed
continue next (err e, s) = (err e, s)
continue next (ok parts, s) = pass_first parts (next s)

abbrev pub output : List Bytes → OutputStream → Passed
output [] s = output_finish s
output (d ∷ ds) s = continue (output ds) (output_write d s)

-- What is to pass of the bytes: with a header pending, those behind the first record.
abbrev pub behind_header : Bool → Plan → Bytes → Bytes
behind_header true p b = drop (record_end p b).0 b
behind_header false p b = b

-- What a stream holds back while its header is pending.
abbrev pub held : OutputStream → Bytes
held s = if s.header_pending then s.buffer else []

continue-ok :
    (next : OutputStream → Passed) (r : Passed) (parts : List Bytes) (u : OutputStream)
    → continue next r ≡ (ok parts, u)
    → (ps : List Bytes) × (t : OutputStream) × (qs : List Bytes) × (r ≡ (ok ps, t))
      × (next t ≡ (ok qs, u))
      × (ps ++ qs ≡ parts)
continue-ok next (err e, s) parts u h = cc
continue-ok next (ok ps, s) parts u h =
    let (qs, rest, joined) = pass_first-ok (next s) h in (ps, s, qs, refl, rest, joined)
  where
    pass_first-ok :
        (r : Passed)
        → pass_first ps r ≡ (ok parts, u)
        → (qs : List Bytes) × (r ≡ (ok qs, u)) × (ps ++ qs ≡ parts)
    pass_first-ok (err e, v) j = cc
    pass_first-ok (ok qs, v) j = (qs, ap (λ w. (ok qs, w)) (ap (λ p. p.1) j), cc)

flatten-append : (ps qs : List Bytes) → flatten (ps ++ qs) ≡ flatten ps ++ flatten qs
unfolding flatten
flatten-append [] qs = refl
flatten-append (p ∷ ps) qs =
    rw (flatten-append ps qs) (sym (append_assoc p (flatten ps) (flatten qs)))

flatten-unless_empty : (b : Bytes) → flatten (unless_empty b) ≡ b
unfolding flatten
flatten-unless_empty [] = refl
flatten-unless_empty (c ∷ b) = append-nil (c ∷ b)

-- One write: what it passes on, and what is still to pass of the later bytes, is what was to pass.
record Passes (s : OutputStream) (d : Bytes) (ps : List Bytes) (t : OutputStream) : Type 0 where
  pub same_plan : t.plan ≡ s.plan
  pub splits :
      (b : Bytes)
      → flatten ps ++ behind_header t.header_pending t.plan (held t ++ b)
        ≡ behind_header s.header_pending s.plan (held s ++ (d ++ b))

-- A header that is found is cut off, whatever follows.
header_cut :
    (p : Plan) (a b : Bytes) (n : ℕ)
    → (record_end p a).0 ≡ suc n
    → drop (record_end p (a ++ b)).0 (a ++ b) ≡ drop (suc n) a ++ b
header_cut p a b n e =
    let found : (record_end p a).0 ≢ 0 = rw e (λ z. absurd (omega arith)) in
    let (low, high) = record_end_bounds p a found in
    rw (record_end-append p a b found, e) (drop-append (suc n) a b (rw e at high))

Passes-more :
    (s : OutputStream) (d : Bytes)
    → s.header_pending ≡ true
    → Passes s d [] (record s { buffer = s.buffer ++ d })
unfolding flatten
Passes-more s d pending = record {
  same_plan = refl;
  splits = λ b. rw pending (ap (λ x. drop (record_end s.plan x).0 x) (append_assoc s.buffer d b));
}

Passes-cut :
    (s : OutputStream) (d : Bytes) (n : ℕ)
    → s.header_pending ≡ true
    → (record_end s.plan (s.buffer ++ d)).0 ≡ suc n
    → Passes s d
        (unless_empty (drop (suc n) (s.buffer ++ d)))
        (record s { header_pending = false; buffer = [] })
Passes-cut s d n pending e = record {
  same_plan = refl;
  splits = λ b.
      rw (pending, flatten-unless_empty (drop (suc n) (s.buffer ++ d)))
        (sym (header_cut s.plan (s.buffer ++ d) b n e)
          ∙ ap (λ x. drop (record_end s.plan x).0 x) (append_assoc s.buffer d b));
}

Passes-whole : (s : OutputStream) (d : Bytes) → s.header_pending ≡ false → Passes s d (d ∷ []) s
unfolding flatten
Passes-whole s d seen = record { same_plan = refl; splits = λ b. rw (seen, append-nil d) }

Passes-nothing : (s : OutputStream) → Passes s [] [] s
unfolding flatten
Passes-nothing s = record { same_plan = refl; splits = λ b. refl }

-- The result of a write, from the stream that it is known to leave.
Passes-eq :
    (s : OutputStream) (d : Bytes) (ps qs : List Bytes) (t u : OutputStream)
    → Passes s d ps t
    → ◌≡◌ {A = Passed} (ok ps, t) (ok qs, u)
    → Passes s d qs u
Passes-eq s d ps qs t u p e =
    let parts : ps ≡ qs = cc in
    subst (λ x. Passes s d x u) parts (subst (λ v. Passes s d ps v) (ap (λ r. r.1) e) p)

skip_header-Passes :
    (e : ℕ × Bool) (s : OutputStream) (d : Bytes) (ps : List Bytes) (t : OutputStream)
    → record_end s.plan (s.buffer ++ d) ≡ e
    → s.header_pending ≡ true
    → skip_header e (record s { buffer = s.buffer ++ d }) ≡ (ok ps, t)
    → Passes s d ps t
skip_header-Passes (zero, q) s d ps t e pending h =
    elim (Bool-cases (q && ltb max_row_bytes (length (s.buffer ++ d)))) [
      | inl over ↦ cc (rw over at h)
      | inr fits ↦
          Passes-eq s d [] ps (record s { buffer = s.buffer ++ d }) t (Passes-more s d pending)
            (rw fits at h)
    ]
skip_header-Passes (suc n, q) s d ps t e pending h =
    Passes-eq s d (unless_empty (drop (suc n) (s.buffer ++ d))) ps
      (record s { header_pending = false; buffer = [] }) t
      (Passes-cut s d n pending (ap (λ x. x.0) e)) h

write_delimited-Passes :
    (pending : Bool) (s : OutputStream) (d : Bytes) (ps : List Bytes) (t : OutputStream)
    → s.header_pending ≡ pending
    → ◌≡◌ {A = Passed}
        (if not pending
          then (ok (d ∷ []), s)
          else skip_header
              (record_end s.plan (s.buffer ++ d))
              (record s { buffer = s.buffer ++ d }))
        (ok ps, t)
    → Passes s d ps t
write_delimited-Passes true s d ps t e h =
    skip_header-Passes (record_end s.plan (s.buffer ++ d)) s d ps t refl e h
write_delimited-Passes false s d ps t e h = Passes-eq s d (d ∷ []) ps s t (Passes-whole s d e) h

write_as-Passes :
    (f : Format) (s : OutputStream) (d : Bytes) (ps : List Bytes) (t : OutputStream)
    → IsDelimited f
    → write_as f d s ≡ (ok ps, t)
    → Passes s d ps t
write_as-Passes text s d ps t f h = write_delimited-Passes s.header_pending s d ps t refl h
write_as-Passes csv s d ps t f h = write_delimited-Passes s.header_pending s d ps t refl h
write_as-Passes binary s d ps t f h = absurd f

output_write-Passes :
    (s : OutputStream) (d : Bytes) (ps : List Bytes) (t : OutputStream)
    → IsDelimited s.plan.format
    → output_write d s ≡ (ok ps, t)
    → Passes s d ps t
unfolding output_write
output_write-Passes s [] ps t f h = Passes-eq s [] [] ps s t (Passes-nothing s) h
output_write-Passes s (c ∷ d) ps t f h = write_as-Passes s.plan.format s (c ∷ d) ps t f h

header_seen-ok :
    (pending : Bool) (s : OutputStream) (ps : List Bytes) (u : OutputStream)
    → s.header_pending ≡ pending
    → ◌≡◌ {A = Passed} (if pending then (err no_header, s) else (ok [], s)) (ok ps, u)
    → flatten ps ≡ behind_header s.header_pending s.plan (held s ++ [])
unfolding flatten
header_seen-ok true s ps u e h = cc
header_seen-ok false s ps u e h = let none : [] ≡ ps = cc in rw (← none, e)

finish_as-ok :
    (f : Format) (s : OutputStream) (ps : List Bytes) (u : OutputStream)
    → IsDelimited f
    → finish_as f s ≡ (ok ps, u)
    → flatten ps ≡ behind_header s.header_pending s.plan (held s ++ [])
finish_as-ok text s ps u f h = header_seen-ok s.header_pending s ps u refl h
finish_as-ok csv s ps u f h = header_seen-ok s.header_pending s ps u refl h
finish_as-ok binary s ps u f h = absurd f

-- In text or CSV format, the output of one Burrow that succeeds passes on all bytes, in their
-- order, but those of the first record if a header is pending, however the bytes are divided into
-- writes.
pub output_passes :
    (ds : List Bytes) (s : OutputStream) (parts : List Bytes) (u : OutputStream)
    → IsDelimited s.plan.format
    → output ds s ≡ (ok parts, u)
    → flatten parts ≡ behind_header s.header_pending s.plan (held s ++ flatten ds)
unfolding output_finish flatten
output_passes [] s parts u f h = finish_as-ok s.plan.format s parts u f h
output_passes (d ∷ ds) s parts u f h =
    let (ps, t, qs, first, rest, joined) = continue-ok (output ds) (output_write d s) parts u h in
    let passes = output_write-Passes s d ps t f first in
    let others = output_passes ds t qs u (rw passes.same_plan f) rest in
    rw (← joined, flatten-append ps qs, others) (passes.splits (flatten ds))
