-- ===== src/CopyRouter/Stream/Routed.antt =====
-- Each record of a COPY input goes to the owner of its shard key.
use hamstergres.Base.{
  ℕ, zero, suc, ◌+◌, ◌≡◌, refl, subst, ◌⊎◌, inl, inr, String, Bool, true, false, ◌&&◌, List, [],
  ◌∷◌, Option, none, some, Result, ok, err, length, arith, Bool-cases, if◌then◌else◌, not, ◌==◌,
  refuse, >>=-eq-ok, >>-eq-ok, str_eq, drop, take,
}
use hamstergres.CopyRouter.Plan.{Plan, Bytes, CopyError, bytes_eq, wrong_columns}
use hamstergres.CopyRouter.Records.{record_end, trim_terminator}
use hamstergres.CopyRouter.Stream.{
  Chunk, Stream, emit, target_for_record, send_row, send, cut, at_end, is_nil, is_text, terminator,
  turn, write, routed, parse_record, key_values,
}
use hamstergres.CopyRouter.Stream.Runs.{Runs, done, again}
use hamstergres.CopyRouter.Stream.Conserved.{IsDelimited, write-nil, write-Runs}

module _ (route : Plan → List Bytes → Option String) (float_text : ℕ → ℕ → Bytes) where
  -- A terminator of text format, for every Burrow, or a row for the one that the router names for
  -- its shard key.
  abbrev pub IsRow : Plan → Chunk → Type 0
  IsRow p c =
      (c.target ≡ "")
        × ((is_text p.format && bytes_eq (trim_terminator c.payload) terminator) ≡ true)
      ⊎ (target_for_record route float_text p (trim_terminator c.payload) ≡ ok c.target)

  -- The first chunk is the header, for every Burrow, if one is pending; all others are rows.
  abbrev pub AreRouted : Plan → Bool → List Chunk → Type 0
  AreRouted p pending [] = Unit
  AreRouted p true (c ∷ cs) = (c.target ≡ "") × AreRouted p false cs
  AreRouted p false (c ∷ cs) = IsRow p c × AreRouted p false cs

  AreRouted-cons :
      (p : Plan) (pending : Bool) (c : Chunk) (cs : List Chunk)
      → (pending ≡ true → c.target ≡ "")
      → (pending ≡ false → IsRow p c)
      → AreRouted p false cs
      → AreRouted p pending (c ∷ cs)
  AreRouted-cons p true c cs header row rest = (header refl, rest)
  AreRouted-cons p false c cs header row rest = (row refl, rest)

  abbrev pub count_rows : List Chunk → ℕ
  count_rows [] = 0
  count_rows (c ∷ cs) = if str_eq c.target "" then count_rows cs else suc (count_rows cs)

  -- What one turn sends.
  record IsSent (s : Stream) (c : Chunk) (t : Stream) : Type 0 where
    row : s.header_pending ≡ false → IsRow s.plan c
    same_plan : t.plan ≡ s.plan
    counted : t.rows ≡ (if str_eq c.target "" then s.rows else suc s.rows)
    header_first : s.header_pending ≡ true → (c.target ≡ "")
    header_done : t.header_pending ≡ false

  routed-ne-nil : (o : Option String) (t : String) → routed o ≡ ok t → str_eq t "" ≡ false
  routed-ne-nil none t h = cc
  routed-ne-nil (some x) t h = elim (Bool-cases (str_eq x "")) [
    | inl empty ↦ cc (rw empty at h)
    | inr given ↦
        let same : x ≡ t = cc (rw given at h) in subst (λ y. str_eq y "" ≡ false) same given
  ]

  target-ne-nil :
      (p : Plan) (r : Bytes) (t : String)
      → target_for_record route float_text p r ≡ ok t
      → str_eq t "" ≡ false
  unfolding target_for_record
  target-ne-nil p r t h =
      let (fields, _, h₁) = >>=-eq-ok (parse_record p p.format r) _ h in
      let (_, h₂) =
        >>-eq-ok (refuse (not (length fields == length p.columns)) wrong_columns) _ h₁ in
      let (values, _, h₃) = >>=-eq-ok (key_values fields p.key_indexes) _ h₂ in
      routed-ne-nil (route p values) t h₃

  send_row-IsSent :
      (s : Stream) (r : Bytes) (to : Result CopyError String) (c : Chunk) (t : Stream)
      → target_for_record route float_text s.plan (trim_terminator r) ≡ to
      → s.header_pending ≡ false
      → send_row route float_text s r to ≡ emit c t
      → IsSent s c t
  send_row-IsSent s r (err e) c t to waits h = cc
  send_row-IsSent s r (ok x) c t to waits h =
      let given = target-ne-nil s.plan (trim_terminator r) x to in
      let same : ◌≡◌ {A = Chunk} (record { target = x; payload = r }) c = cc in
      let left : record s { rows = s.rows + 1 } ≡ t = cc in
      subst (λ c. IsSent s c t) same
        (subst (λ t. IsSent s (record { target = x; payload = r }) t) left
          (record {
            row = λ _. inr to;
            same_plan = refl;
            counted = rw given (omega arith);
            header_first = λ first. cc;
            header_done = waits;
          }))

  emit-IsSent :
      (s : Stream) (c c' : Chunk) (t t' : Stream)
      → emit c t ≡ emit c' t'
      → IsSent s c t
      → IsSent s c' t'
  emit-IsSent s c c' t t' e sent =
      let same : c ≡ c' = cc in
      let left : t ≡ t' = cc in
      subst (λ x. IsSent s x t') same (subst (λ x. IsSent s c x) left sent)

  to_all :
      (s t : Stream) (r : Bytes)
      → (s.header_pending ≡ false
          → (is_text s.plan.format && bytes_eq (trim_terminator r) terminator) ≡ true)
      → t.plan ≡ s.plan
      → t.rows ≡ s.rows
      → t.header_pending ≡ false
      → IsSent s (record { target = ""; payload = r }) t
  to_all s t r ends plan rows seen = record {
    row = λ waits. inl (refl, ends waits);
    same_plan = plan;
    counted = rows;
    header_first = λ _. refl;
    header_done = seen;
  }

  send-IsSent :
      (s : Stream) (r : Bytes) (c : Chunk) (t : Stream)
      → send route float_text s r ≡ emit c t
      → IsSent s c t
  unfolding send
  send-IsSent s r c t h = elim (Bool-cases s.header_pending) [
    | inl first ↦
        emit-IsSent s (record { target = ""; payload = r }) c (record s { header_pending = false })
          t (simp first at h)
          (to_all s (record s { header_pending = false }) r (λ seen. cc) refl refl refl)
    | inr seen ↦
        elim (Bool-cases (is_text s.plan.format && bytes_eq (trim_terminator r) terminator)) [
          | inl last ↦
              emit-IsSent s (record { target = ""; payload = r }) c s t (simp (seen, last) at h)
                (to_all s s r (λ _. last) refl refl seen)
          | inr row ↦
              send_row-IsSent s r (target_for_record route float_text s.plan (trim_terminator r)) c
                t refl seen (simp (seen, row) at h)
        ]
  ]

  -- What holds of a sent chunk does not turn on the bytes that wait.
  IsSent-buffer :
      (s t : Stream) (c : Chunk) (b : Bytes) → IsSent (record s { buffer = b }) c t → IsSent s c t
  IsSent-buffer s t c b i = record {
    row = i.row;
    same_plan = i.same_plan;
    counted = i.counted;
    header_first = i.header_first;
    header_done = i.header_done;
  }

  cut-IsSent :
      (n : ℕ) (s : Stream) (c : Chunk) (t : Stream)
      → cut route float_text n s ≡ emit c t
      → IsSent s c t
  unfolding cut
  cut-IsSent n s c t h =
      IsSent-buffer s t c (drop n s.buffer)
        (send-IsSent (record s { buffer = drop n s.buffer }) (take n s.buffer) c t h)

  at_end-IsSent :
      (final : Bool) (e : ℕ × Bool) (s : Stream) (c : Chunk) (t : Stream)
      → at_end route float_text final e s ≡ emit c t
      → IsSent s c t
  at_end-IsSent final (suc n, q) s c t h = cut-IsSent (suc n) s c t h
  at_end-IsSent false (zero, q) s c t h = cc
  at_end-IsSent true (zero, true) s c t h = cc
  at_end-IsSent true (zero, false) s c t h = cut-IsSent (length s.buffer) s c t h

  turn-IsSent :
      (final : Bool) (s : Stream) (c : Chunk) (t : Stream)
      → turn route float_text final s ≡ emit c t
      → IsSent s c t
  unfolding turn
  turn-IsSent final s c t h = elim (Bool-cases (is_nil route float_text s.buffer)) [
    | inl empty ↦ cc (rw empty at h)
    | inr more ↦ at_end-IsSent final (record_end s.plan s.buffer) s c t (rw more at h)
  ]

  Runs-AreRouted :
      {final : Bool} {s u : Stream} {cs : List Chunk}
      → Runs route float_text final s cs u
      → AreRouted s.plan s.header_pending cs × (u.rows ≡ s.rows + count_rows cs)
  Runs-AreRouted (done {s} e) = (tt, omega arith)
  Runs-AreRouted {final} (again {s} {t} {u} {c} {cs} e r) =
      let sent = turn-IsSent final s c t e in
      let (each, counted) = Runs-AreRouted r in
      (
        AreRouted-cons s.plan s.header_pending c cs sent.header_first sent.row (
            subst (λ p. AreRouted p false cs) sent.same_plan
              (subst (λ b. AreRouted t.plan b cs) sent.header_done each)),
        ground (arith, sent.counted, counted),
      )

  -- In text or CSV format: if a header is pending, the first chunk that a write sends is the header
  -- and has no target. A chunk behind it has no target and is the terminator of text format, or has as its target the
  -- Burrow that the router names for the shard key of its record. `rows` grows by the number of
  -- chunks with a target.
  pub write-AreRouted :
      (d : Bytes) (s : Stream) (cs : List Chunk) (u : Stream)
      → IsDelimited s.plan.format
      → write route float_text d s ≡ (ok cs, u)
      → AreRouted s.plan s.header_pending cs × (u.rows ≡ s.rows + count_rows cs)
  write-AreRouted [] s cs u f h =
      let (no_chunk, same) = write-nil route float_text s cs u h in
      (
        subst (λ l. AreRouted s.plan s.header_pending l) no_chunk tt,
        rw (← no_chunk, ← same) (omega arith),
      )
  write-AreRouted (x ∷ d) s cs u f h =
      Runs-AreRouted (write-Runs route float_text (x ∷ d) s cs u f (λ e. cc) h)
