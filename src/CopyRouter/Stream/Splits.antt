-- ===== src/CopyRouter/Stream/Splits.antt =====
-- How a COPY input is divided into writes does not matter.
use hamstergres.Base.{
  ℕ, zero, suc, ◌≤◌, ◌≡◌, ◌≢◌, refl, ap, ◌∙◌, subst, String, Bool, false, List, [], ◌∷◌, ◌++◌,
  Option, Result, ok, err, length, take, drop, take-append, drop-append, arith, Bool-cases, inl,
  inr, ltb,
}
use mathlib.Core.List.{append-nil, append_assoc}
use hamstergres.CopyRouter.Plan.{Plan, Bytes, CopyError, max_row_bytes}
use hamstergres.CopyRouter.Records.{record_end, trim_terminator}
use hamstergres.CopyRouter.Records.Ends.{record_end_bounds, record_end-append}
use hamstergres.CopyRouter.Stream.{
  Chunk, Stream, Next, stop, fail, emit, target_for_record, send_row, send, cut, at_end, is_nil,
  turn, consume_delimited, by_format, write,
}
use hamstergres.CopyRouter.Stream.Runs.{Runs, done, again, Runs-consume}
use hamstergres.CopyRouter.Stream.Conserved.{
  IsDelimited, by_format-IsDelimited, limited-ok, write-Runs, write-nil, write_conserves,
}

-- More bytes behind those that wait.
abbrev pub extend : Stream → Bytes → Stream
extend s more = record s { buffer = s.buffer ++ more }

-- A turn's outcome, with more bytes behind.
abbrev extend_next : Next → Bytes → Next
extend_next stop more = stop
extend_next (fail e s) more = fail e (extend s more)
extend_next (emit c s) more = emit c (extend s more)

module _ (route : Plan → List Bytes → Option String) (float_text : ℕ → ℕ → Bytes) where
  send_row-extend :
      (s : Stream) (r more : Bytes) (to : Result CopyError String)
      → send_row route float_text (extend s more) r to
        ≡ extend_next (send_row route float_text s r to) more
  send_row-extend s r more (ok t) = refl
  send_row-extend s r more (err e) = refl

  send-extend :
      (s : Stream) (r more : Bytes)
      → send route float_text (extend s more) r ≡ extend_next (send route float_text s r) more
  unfolding send
  send-extend s r more = ground (
    arith,
    send_row-extend s r more (target_for_record route float_text s.plan (trim_terminator r)),
  )

  cut-extend :
      (n : ℕ) (s : Stream) (more : Bytes)
      → n ≤ length s.buffer
      → cut route float_text n (extend s more) ≡ extend_next (cut route float_text n s) more
  unfolding cut
  cut-extend n s more h =
      rw (take-append n s.buffer more h, drop-append n s.buffer more h)
        (send-extend (record s { buffer = drop n s.buffer }) (take n s.buffer) more)

  at_end-extend :
      (e : ℕ × Bool) (s : Stream) (more : Bytes) (c : Chunk) (t : Stream)
      → record_end s.plan s.buffer ≡ e
      → at_end route float_text false e s ≡ emit c t
      → at_end route float_text false (record_end s.plan (s.buffer ++ more)) (extend s more)
        ≡ emit c (extend t more)
  at_end-extend (zero, q) s more c t e h = cc
  at_end-extend (suc n, q) s more c t e h =
      let found : (record_end s.plan s.buffer).0 ≢ 0 = rw e (λ z. absurd (omega arith)) in
      let (_, high) = record_end_bounds s.plan s.buffer found in
      rw (record_end-append s.plan s.buffer more found, e)
        (cut-extend (suc n) s more (rw e at high) ∙ ap (λ x. extend_next x more) h)

  is_nil-append :
      (b more : Bytes)
      → is_nil route float_text b ≡ false
      → is_nil route float_text (b ++ more) ≡ false
  is_nil-append [] more h = cc
  is_nil-append (x ∷ b) more h = refl

  -- A turn in the middle of the input that sends does the same when more bytes wait.
  turn-extend :
      (s : Stream) (more : Bytes) (c : Chunk) (t : Stream)
      → turn route float_text false s ≡ emit c t
      → turn route float_text false (extend s more) ≡ emit c (extend t more)
  unfolding turn
  turn-extend s more c t h = elim (Bool-cases (is_nil route float_text s.buffer)) [
    | inl empty ↦ cc (rw empty at h)
    | inr some_left ↦
        rw (is_nil-append s.buffer more some_left)
          (at_end-extend (record_end s.plan s.buffer) s more c t refl (rw some_left at h))
  ]

  Runs-extend :
      {s u v : Stream} {cs ds : List Chunk} (more : Bytes)
      → Runs route float_text false s cs u
      → Runs route float_text false (extend u more) ds v
      → Runs route float_text false (extend s more) (cs ++ ds) v
  Runs-extend more (done e) later = later
  Runs-extend more (again {s} {t} {u} {c} {cs} e r) later =
      again (turn-extend s more c t e) (Runs-extend more r later)

  Runs-write :
      (d : Bytes) (s : Stream) (cs : List Chunk) (u : Stream)
      → IsDelimited s.plan.format
      → d ≢ []
      → Runs route float_text false (extend s d) cs u
      → length u.buffer ≤ max_row_bytes
      → write route float_text d s ≡ (ok cs, u)
  unfolding write consume_delimited
  Runs-write [] s cs u f nonempty r fits = absurd (nonempty refl)
  Runs-write (x ∷ d) s cs u f nonempty r fits =
      let s' = extend s (x ∷ d) in
      let small : ltb max_row_bytes (length u.buffer) ≡ false = ground (arith, fits) in
      rw (
        by_format-IsDelimited route float_text false s.plan.format s' f,
        Runs-consume route float_text (suc (length s'.buffer)) false (omega arith) r,
        small,
      )

  write_fits :
      (x : ℕ) (d : Bytes) (s : Stream) (cs : List Chunk) (u : Stream)
      → write route float_text (x ∷ d) s ≡ (ok cs, u)
      → length u.buffer ≤ max_row_bytes
  unfolding write
  write_fits x d s cs u h =
      (limited-ok route float_text
        (by_format route float_text false s.plan.format (extend s (x ∷ d))) cs u h).1

  -- In text or CSV format, two writes that succeed send what one write of their bytes sends, and
  -- leave the stream that it leaves.
  pub write-append :
      (d e : Bytes) (s t u : Stream) (cs ds : List Chunk)
      → IsDelimited s.plan.format
      → write route float_text d s ≡ (ok cs, t)
      → write route float_text e t ≡ (ok ds, u)
      → write route float_text (d ++ e) s ≡ (ok (cs ++ ds), u)
  write-append [] e s t u cs ds f h g =
      let (no_chunk, same) = write-nil route float_text s cs t h in rw (← no_chunk, same) g
  write-append (x ∷ d) [] s t u cs ds f h g =
      let (no_chunk, same) = write-nil route float_text t ds u g in
      rw (append-nil, ← no_chunk, append-nil, ← same) h
  write-append (x ∷ d) (y ∷ e) s t u cs ds f h g =
      let plan = (write_conserves route float_text (x ∷ d) s cs t h).same_plan in
      let f' : IsDelimited t.plan.format = rw plan f in
      let first = write-Runs route float_text (x ∷ d) s cs t f (λ z. cc) h in
      let second = write-Runs route float_text (y ∷ e) t ds u f' (λ z. cc) g in
      Runs-write (x ∷ d ++ y ∷ e) s (cs ++ ds) u f (λ z. cc)
        (subst (λ b. Runs route float_text false (record s { buffer = b }) (cs ++ ds) u)
          (append_assoc s.buffer (x ∷ d) (y ∷ e)) (Runs-extend (y ∷ e) first second))
        (write_fits y e t ds u g)
