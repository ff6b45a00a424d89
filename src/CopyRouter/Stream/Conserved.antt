-- ===== src/CopyRouter/Stream/Conserved.antt =====
-- A COPY stream loses, repeats and reorders no byte.
use hamstergres.Base.{
  ℕ, zero, suc, ◌≤◌, ◌≡◌, ◌≢◌, refl, sym, ap, ◌∙◌, subst, String, Bool, true, false, List, [], ◌∷◌,
  ◌++◌, Option, Result, ok, err, length, take-append-drop, arith, Bool-cases, inl, inr, ltb, not,
  ◌||◌,
}
use mathlib.Core.List.{append-nil, append_assoc}
use hamstergres.CopyRouter.Plan.{Plan, Bytes, Format, text, csv, binary, CopyError, max_row_bytes}
use hamstergres.CopyRouter.Records.{record_end, trim_terminator}
use hamstergres.CopyRouter.Stream.{
  Chunk, Stream, stop, target_for_record, send_row, send, cut, at_end, is_nil, turn,
  consume_delimited, limited, by_format, write, ended, ended_binary, finish_format, finish,
}
pub use hamstergres.CopyRouter.Binary.Conserved.{payloads}
use hamstergres.CopyRouter.Binary.{consume_binary}
use hamstergres.CopyRouter.Binary.Conserved.{Keeps, Keeps-consume_binary}
use hamstergres.CopyRouter.Stream.Runs.{turn-Sends, Runs, done, again, consume-Runs}

-- The formats that are cut at line ends.
abbrev pub IsDelimited : Format → Type 0
IsDelimited text = Unit
IsDelimited csv = Unit
IsDelimited binary = ⊥

pub payloads-append : (cs ds : List Chunk) → payloads (cs ++ ds) ≡ payloads cs ++ payloads ds
payloads-append [] ds = refl
payloads-append (c ∷ cs) ds = rw (payloads-append cs ds, append_assoc)

module _ (route : Plan → List Bytes → Option String) (float_text : ℕ → ℕ → Bytes) where
  pub Runs-payloads :
      {final : Bool} {s u : Stream} {cs : List Chunk}
      → Runs route float_text final s cs u
      → (payloads cs ++ u.buffer ≡ s.buffer) × (u.plan ≡ s.plan)
  Runs-payloads (done e) = (refl, refl)
  Runs-payloads {final} (again {s} {t} {u} {c} {cs} e r) =
      let (k, sends) = turn-Sends route float_text final s c t e in
      let (bytes, plan) = Runs-payloads r in
      (
        append_assoc c.payload (payloads cs) u.buffer
            ∙ rw (bytes, sends.taken, sends.left) (take-append-drop k s.buffer),
        plan ∙ sends.same_plan,
      )

  pub by_format-IsDelimited :
      (final : Bool) (f : Format) (s : Stream)
      → IsDelimited f
      → by_format route float_text final f s ≡ consume_delimited route float_text final s
  by_format-IsDelimited final text s h = refl
  by_format-IsDelimited final csv s h = refl
  by_format-IsDelimited final binary s h = absurd h

  pub limited-ok :
      (r : Result CopyError (List Chunk) × Stream) (cs : List Chunk) (u : Stream)
      → limited route float_text r ≡ (ok cs, u)
      → (r ≡ (ok cs, u)) × (length u.buffer ≤ max_row_bytes)
  limited-ok (err e, s) cs u h = cc
  limited-ok (ok ds, s) cs u h = elim (Bool-cases (ltb max_row_bytes (length s.buffer))) [
    | inl over ↦ cc (rw over at h)
    | inr fits ↦
        let e : ◌≡◌ {A = Result CopyError (List Chunk) × Stream} (ok ds, s) (ok cs, u) =
          rw fits at h in
        let s≡u : s ≡ u = ap (λ p. p.1) e in
        (e, subst (λ v. length v.buffer ≤ max_row_bytes) s≡u (ground (arith, fits)))
  ]

  pub write-Runs :
      (d : Bytes) (s : Stream) (cs : List Chunk) (u : Stream)
      → IsDelimited s.plan.format
      → d ≢ []
      → write route float_text d s ≡ (ok cs, u)
      → Runs route float_text false (record s { buffer = s.buffer ++ d }) cs u
  unfolding write consume_delimited
  write-Runs [] s cs u f nonempty h = absurd (nonempty refl)
  write-Runs (x ∷ d) s cs u f nonempty h =
      let s' : Stream = record s { buffer = s.buffer ++ x ∷ d } in
      let (r, _) = limited-ok (by_format route float_text false s.plan.format s') cs u h in
      consume-Runs route float_text (suc (length s'.buffer)) false s' cs u (omega arith)
        (sym (by_format-IsDelimited false s.plan.format s' f) ∙ r)

  pub write-nil :
      (s : Stream) (cs : List Chunk) (u : Stream)
      → write route float_text [] s ≡ (ok cs, u)
      → ([] ≡ cs) × (s ≡ u)
  unfolding write
  write-nil s cs u h = (cc, ap (λ p. p.1) h)

  consume_delimited-Keeps :
      (final : Bool) (s : Stream) (cs : List Chunk) (u : Stream)
      → consume_delimited route float_text final s ≡ (ok cs, u)
      → Keeps s (payloads cs) u
  unfolding consume_delimited
  consume_delimited-Keeps final s cs u h =
      let (bytes, plan) =
        Runs-payloads
          (consume-Runs route float_text (suc (length s.buffer)) final s cs u (omega arith) h) in
      record { bytes = bytes; same_plan = plan }

  by_format-Keeps :
      (final : Bool) (f : Format) (s : Stream) (cs : List Chunk) (u : Stream)
      → by_format route float_text final f s ≡ (ok cs, u)
      → Keeps s (payloads cs) u
  by_format-Keeps final text s cs u h = consume_delimited-Keeps final s cs u h
  by_format-Keeps final csv s cs u h = consume_delimited-Keeps final s cs u h
  by_format-Keeps final binary s cs u h = Keeps-consume_binary route float_text s cs u h

  -- What `Write` sends, followed by what it keeps, is what it had, followed by what it is given.
  pub write_conserves :
      (d : Bytes) (s : Stream) (cs : List Chunk) (u : Stream)
      → write route float_text d s ≡ (ok cs, u)
      → Keeps (record s { buffer = s.buffer ++ d }) (payloads cs) u
  unfolding write
  write_conserves [] s cs u h =
      let (no_chunk, same) = write-nil s cs u h in
      record {
        bytes = rw (← no_chunk, ← same) (sym (append-nil s.buffer));
        same_plan = rw (← same);
      }
  write_conserves (x ∷ d) s cs u h =
      let s' : Stream = record s { buffer = s.buffer ++ x ∷ d } in
      by_format-Keeps false s.plan.format s' cs u
        (limited-ok (by_format route float_text false s.plan.format s') cs u h).0

  send_row-ne-stop :
      (s : Stream) (r : Bytes) (to : Result CopyError String)
      → send_row route float_text s r to ≢ stop
  send_row-ne-stop s r (ok t) h = cc
  send_row-ne-stop s r (err e) h = cc

  send-ne-stop : (s : Stream) (r : Bytes) → send route float_text s r ≢ stop
  unfolding send
  send-ne-stop s r h =
      ground (
        arith,
        send_row-ne-stop s r (target_for_record route float_text s.plan (trim_terminator r)),
      )

  -- The loop at the end of the input stops only with an empty buffer.
  stop_at_end : (s : Stream) (e : ℕ × Bool) → at_end route float_text true e s ≡ stop → ⊥
  unfolding cut
  stop_at_end s (suc n, q) h = send-ne-stop _ _ h
  stop_at_end s (zero, true) h = cc
  stop_at_end s (zero, false) h = send-ne-stop _ _ h

  is_nil-eq : (b : Bytes) → is_nil route float_text b ≡ true → b ≡ []
  is_nil-eq [] h = refl
  is_nil-eq (c ∷ b) h = cc

  turn-stop : (s : Stream) → turn route float_text true s ≡ stop → s.buffer ≡ []
  unfolding turn
  turn-stop s h = elim (Bool-cases (is_nil route float_text s.buffer)) [
    | inl empty ↦ is_nil-eq s.buffer empty
    | inr more ↦ absurd (stop_at_end s (record_end s.plan s.buffer) (rw more at h))
  ]

  Runs-empty : {s u : Stream} {cs : List Chunk} → Runs route float_text true s cs u → u.buffer ≡ []
  Runs-empty (done {s} e) = turn-stop s e
  Runs-empty (again e r) = Runs-empty r

  ended-ok :
      (r : Result CopyError (List Chunk) × Stream) (cs : List Chunk) (u : Stream)
      → ended route float_text r ≡ (ok cs, u)
      → (r ≡ (ok cs, u)) × (u.header_pending ≡ false)
  ended-ok (err e, s) cs u h = cc
  ended-ok (ok ds, s) cs u h = elim (Bool-cases s.header_pending) [
    | inl waits ↦ cc (rw waits at h)
    | inr fits ↦
        let e : ◌≡◌ {A = Result CopyError (List Chunk) × Stream} (ok ds, s) (ok cs, u) =
          simp fits at h in
        (e, subst (λ v. v.header_pending ≡ false) (ap (λ p. p.1) e) fits)
  ]

  -- `Finish` in text and CSV format sends all that is kept, and has seen the header.
  ended_sends :
      (s : Stream) (cs : List Chunk) (u : Stream)
      → ended route float_text (consume_delimited route float_text true s) ≡ (ok cs, u)
      → (payloads cs ≡ s.buffer) × (u.buffer ≡ []) × (u.header_pending ≡ false)
  unfolding consume_delimited
  ended_sends s cs u h =
      let (r, seen) = ended-ok (consume_delimited route float_text true s) cs u h in
      let runs =
        consume-Runs route float_text (suc (length s.buffer)) true s cs u (omega arith) r in
      let empty = Runs-empty runs in
      let (bytes, _) = Runs-payloads runs in
      (sym (append-nil (payloads cs)) ∙ rw empty at bytes, empty, seen)

  ended_binary-ok :
      (r : Result CopyError (List Chunk) × Stream) (cs : List Chunk) (u : Stream)
      → ended_binary route float_text r ≡ (ok cs, u)
      → (r ≡ (ok cs, u)) × (u.buffer ≡ [])
  ended_binary-ok (err e, s) cs u h = cc
  ended_binary-ok (ok ds, s) cs u h =
      elim (Bool-cases
        (not (is_nil route float_text s.buffer) || not s.binary_header || not s.binary_trailer)) [
          | inl more ↦ cc (rw more at h)
          | inr over ↦
              let e : ◌≡◌ {A = Result CopyError (List Chunk) × Stream} (ok ds, s) (ok cs, u) =
                rw over at h in
              (
                e,
                subst (λ v. v.buffer ≡ []) (ap (λ p. p.1) e)
                    (is_nil-eq s.buffer (ground (arith, over))),
              )
        ]

  finish_binary_sends :
      (s : Stream) (cs : List Chunk) (u : Stream)
      → ended_binary route float_text (consume_binary route float_text s) ≡ (ok cs, u)
      → payloads cs ≡ s.buffer
  finish_binary_sends s cs u h =
      let (r, empty) = ended_binary-ok (consume_binary route float_text s) cs u h in
      let kept = (Keeps-consume_binary route float_text s cs u r).bytes in
      sym (append-nil (payloads cs)) ∙ rw empty at kept

  finish_format_sends :
      (f : Format) (s : Stream) (cs : List Chunk) (u : Stream)
      → finish_format route float_text f s ≡ (ok cs, u)
      → payloads cs ≡ s.buffer
  finish_format_sends text s cs u h = (ended_sends s cs u h).0
  finish_format_sends csv s cs u h = (ended_sends s cs u h).0
  finish_format_sends binary s cs u h = finish_binary_sends s cs u h

  -- `Finish` sends all that is kept, in each format.
  pub finish_sends :
      (s : Stream) (cs : List Chunk) (u : Stream)
      → finish route float_text s ≡ (ok cs, u)
      → payloads cs ≡ s.buffer
  unfolding finish
  finish_sends s cs u h = finish_format_sends s.plan.format s cs u h
