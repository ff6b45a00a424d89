-- ===== src/CopyRouter/Binary/Conserved.antt =====
-- Binary COPY input loses, repeats and reorders no byte.
use hamstergres.Base.{
  ℕ, zero, suc, ◌+◌, ◌-◌, ◌^◌, ◌≡◌, refl, ap, ◌∙◌, inl, inr, String, Bool, true, false, List, [],
  ◌∷◌, ◌++◌, Option, Result, ok, err, length, take, drop, take-append-drop, arith, Bool-cases, ltb,
  not, ◌&&◌, ◌||◌, ◌==◌, leb, if◌then◌else◌,
}
use mathlib.Core.List.{append_assoc}
use hamstergres.CopyRouter.Plan.{Plan, Bytes, CopyError}
use hamstergres.CopyRouter.State.{Chunk, Stream, Next, stop, fail, emit, and_then, after}
use hamstergres.CopyRouter.Keys.{big_endian}
use hamstergres.CopyRouter.Binary.{
  to_all, extension, binary_start, row_at, RowAt, incomplete, too_long, whole, binary_target,
  send_binary, send_row_at, row_turn, binary_turn, binary_rows, nothing_behind, all_rows,
  consume_binary,
}

-- The bytes of the chunks, in the order in which they are sent.
abbrev pub payloads : List Chunk → Bytes
payloads [] = []
payloads (c ∷ cs) = c.payload ++ payloads cs

-- What is sent, and what is kept, is what there was; the plan stays.
pub record Keeps (s : Stream) (sent : Bytes) (t : Stream) : Type 0 where
  pub bytes : sent ++ t.buffer ≡ s.buffer
  pub same_plan : t.plan ≡ s.plan

Keeps-to_all :
    (n : ℕ) (s t : Stream) (c : Chunk) (u : Stream)
    → t.plan ≡ s.plan
    → to_all n s t ≡ emit c u
    → Keeps s c.payload u
Keeps-to_all n s t c u p h = record {
  bytes =
      let a : c.payload ≡ take n s.buffer = ground arith in
      let b : u.buffer ≡ drop n s.buffer = ground arith in rw (a, b) (take-append-drop n s.buffer);
  same_plan = ground arith;
}

Keeps-binary_start :
    (s : Stream) (c : Chunk) (u : Stream) → binary_start s ≡ emit c u → Keeps s c.payload u
unfolding binary_start
Keeps-binary_start s c u h =
    Keeps-to_all (19 + extension s.buffer) s (record s { binary_header = true }) c u refl
      (ground arith)

module _ (route : Plan → List Bytes → Option String) (float_text : ℕ → ℕ → Bytes) where
  Keeps-send_binary :
      (n : ℕ) (s : Stream) (to : Result CopyError String) (c : Chunk) (u : Stream)
      → send_binary route float_text n s to ≡ emit c u
      → Keeps s c.payload u
  Keeps-send_binary n s (err e) c u h = cc
  Keeps-send_binary n s (ok t) c u h = record {
    bytes =
        let a : c.payload ≡ take n s.buffer = ground arith in
        let b : u.buffer ≡ drop n s.buffer = ground arith in
        rw (a, b) (take-append-drop n s.buffer);
    same_plan = ground arith;
  }

  Keeps-send_row_at :
      (r : RowAt) (s : Stream) (c : Chunk) (u : Stream)
      → send_row_at route float_text r s ≡ emit c u
      → Keeps s c.payload u
  Keeps-send_row_at incomplete s c u h = cc
  Keeps-send_row_at too_long s c u h = cc
  Keeps-send_row_at (whole fields n) s c u h =
      Keeps-send_binary n s (binary_target route float_text s.plan fields) c u h

  Keeps-row_turn :
      (columns : ℕ) (s : Stream) (c : Chunk) (u : Stream)
      → row_turn route float_text columns s ≡ emit c u
      → Keeps s c.payload u
  Keeps-row_turn columns s c u h = elim (Bool-cases (columns == 2 ^ 16 - 1)) [
    | inl trailer ↦ Keeps-to_all 2 s (record s { binary_trailer = true }) c u refl (rw trailer at h)
    | inr row ↦ elim (Bool-cases (leb (2 ^ 15) columns || not (columns == length s.plan.columns))) [
      | inl wrong ↦ cc (rw (row, wrong) at h)
      | inr right ↦ Keeps-send_row_at (row_at columns 2 s.buffer) s c u (rw (row, right) at h)
    ]
  ]

  Keeps-binary_turn :
      (s : Stream) (c : Chunk) (u : Stream)
      → binary_turn route float_text s ≡ emit c u
      → Keeps s c.payload u
  unfolding binary_turn
  Keeps-binary_turn s c u h = elim (Bool-cases (ltb (length s.buffer) 2 || s.binary_trailer)) [
    | inl over ↦ cc (rw over at h)
    | inr more ↦ Keeps-row_turn (big_endian (take 2 s.buffer)) s c u (rw more at h)
  ]

  -- A loop whose turns and rest keep the bytes keeps them.
  Keeps-after :
      (again : Stream → Result CopyError (List Chunk) × Stream) (s : Stream) (x : Next)
      (cs : List Chunk) (u : Stream)
      → ((c : Chunk) (t : Stream) → x ≡ emit c t → Keeps s c.payload t)
      → ((t : Stream) (ds : List Chunk) → again t ≡ (ok ds, u) → Keeps t (payloads ds) u)
      → after again s x ≡ (ok cs, u)
      → Keeps s (payloads cs) u
  Keeps-after again s stop cs u turn rest h =
      let none_sent : [] ≡ cs = cc in
      let same : s ≡ u = ap (λ p. p.1) h in
      record { bytes = rw (← none_sent, ← same); same_plan = rw (← same) }
  Keeps-after again s (fail e t) cs u turn rest h = cc
  Keeps-after again s (emit c t) cs u turn rest h = joined (again t) refl h
    where
      joined :
          (r : Result CopyError (List Chunk) × Stream)
          → again t ≡ r
          → and_then c r ≡ (ok cs, u)
          → Keeps s (payloads cs) u
      joined (err e, v) same j = cc
      joined (ok ds, v) same j =
          let chunks : c ∷ ds ≡ cs = cc in
          let last : v ≡ u = ap (λ p. p.1) j in
          let one = turn c t refl in
          let others = rest t ds (rw same (ap (λ w. (ok ds, w)) last)) in
          record {
            bytes =
                rw (← chunks)
                  (append_assoc c.payload (payloads ds) u.buffer ∙ rw others.bytes one.bytes);
            same_plan = others.same_plan ∙ one.same_plan;
          }

  Keeps-binary_rows :
      (n : ℕ) (s : Stream) (cs : List Chunk) (u : Stream)
      → binary_rows route float_text n s ≡ (ok cs, u)
      → Keeps s (payloads cs) u
  unfolding binary_rows
  Keeps-binary_rows zero s cs u h =
      let none_sent : [] ≡ cs = cc in
      let same : s ≡ u = ap (λ p. p.1) h in
      record { bytes = rw (← none_sent, ← same); same_plan = rw (← same) }
  Keeps-binary_rows (suc n) s cs u h =
      Keeps-after (binary_rows route float_text n) s (binary_turn route float_text s) cs u
        (Keeps-binary_turn s) (λ t ds e. Keeps-binary_rows n t ds u e) h

  nothing_behind-ok :
      (r : Result CopyError (List Chunk) × Stream) (cs : List Chunk) (u : Stream)
      → nothing_behind route float_text r ≡ (ok cs, u)
      → r ≡ (ok cs, u)
  nothing_behind-ok (err e, s) cs u h = cc
  nothing_behind-ok (ok ds, s) cs u h =
      elim (Bool-cases (s.binary_trailer && not (length s.buffer == 0))) [
        | inl behind ↦ cc (rw behind at h)
        | inr fits ↦ rw fits at h
      ]

  Keeps-all_rows :
      (s : Stream) (cs : List Chunk) (u : Stream)
      → all_rows route float_text s ≡ (ok cs, u)
      → Keeps s (payloads cs) u
  Keeps-all_rows s cs u h =
      Keeps-binary_rows (suc (length s.buffer)) s cs u
        (nothing_behind-ok (binary_rows route float_text (suc (length s.buffer)) s) cs u h)

  Keeps-from :
      (read : Bool) (s : Stream) (cs : List Chunk) (u : Stream)
      → (if read
          then all_rows route float_text s
          else after (all_rows route float_text) s (binary_start s))
        ≡ (ok cs, u)
      → Keeps s (payloads cs) u
  Keeps-from true s cs u h = Keeps-all_rows s cs u h
  Keeps-from false s cs u h =
      Keeps-after (all_rows route float_text) s (binary_start s) cs u (Keeps-binary_start s)
        (λ t ds e. Keeps-all_rows t ds u e) h

  pub Keeps-consume_binary :
      (s : Stream) (cs : List Chunk) (u : Stream)
      → consume_binary route float_text s ≡ (ok cs, u)
      → Keeps s (payloads cs) u
  unfolding consume_binary
  Keeps-consume_binary s cs u h = Keeps-from s.binary_header s cs u h
