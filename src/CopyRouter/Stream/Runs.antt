-- ===== src/CopyRouter/Stream/Runs.antt =====
-- The turns of the loop of `consumeDelimited`, and runs of them.
use hamstergres.Base.{
  ℕ, zero, suc, ◌<◌, ◌≤◌, ◌≡◌, ◌≢◌, refl, sym, ap, subst, inl, inr, String, Bool, true, false, List,
  [], ◌∷◌, Option, Result, ok, err, length, take, drop, length-drop, arith, Bool-cases,
}
use hamstergres.CopyRouter.Plan.{Plan, Bytes, CopyError}
use hamstergres.CopyRouter.Records.{record_end, trim_terminator}
use hamstergres.CopyRouter.Records.Ends.{record_end_bounds}
use hamstergres.CopyRouter.Stream.{
  Chunk, Stream, Next, stop, fail, emit, target_for_record, send_row, send, cut, at_end, is_nil,
  turn, and_then, after, consume,
}

-- What a chunk that is sent does to the stream.
pub record Sends (s : Stream) (n : ℕ) (c : Chunk) (t : Stream) : Type 0 where
  pub within : n ≤ length s.buffer
  pub some_bytes : 0 < n
  pub taken : c.payload ≡ take n s.buffer
  pub left : t.buffer ≡ drop n s.buffer
  pub same_plan : t.plan ≡ s.plan

module _ (route : Plan → List Bytes → Option String) (float_text : ℕ → ℕ → Bytes) where
  send_row-Sends :
      (s : Stream) (r : Bytes) (to : Result CopyError String) (c : Chunk) (t : Stream)
      → send_row route float_text s r to ≡ emit c t
      → (c.payload ≡ r) × (t.buffer ≡ s.buffer) × (t.plan ≡ s.plan)
  send_row-Sends s r (err e) c t h = cc
  send_row-Sends s r (ok to) c t h = ground arith

  send-Sends :
      (s : Stream) (r : Bytes) (c : Chunk) (t : Stream)
      → send route float_text s r ≡ emit c t
      → (c.payload ≡ r) × (t.buffer ≡ s.buffer) × (t.plan ≡ s.plan)
  unfolding send
  send-Sends s r c t h = ground (
    arith,
    send_row-Sends s r (target_for_record route float_text s.plan (trim_terminator r)) c t,
  )

  cut-Sends :
      (n : ℕ) (s : Stream) (c : Chunk) (t : Stream)
      → 0 < n
      → n ≤ length s.buffer
      → cut route float_text n s ≡ emit c t
      → Sends s n c t
  unfolding cut
  cut-Sends n s c t low high h =
      let (a, b, d) = send-Sends (record s { buffer = drop n s.buffer }) (take n s.buffer) c t h in
      record { within = high; some_bytes = low; taken = a; left = b; same_plan = d }

  at_end-Sends :
      (final : Bool) (e : ℕ × Bool) (s : Stream) (c : Chunk) (t : Stream)
      → record_end s.plan s.buffer ≡ e
      → is_nil route float_text s.buffer ≡ false
      → at_end route float_text final e s ≡ emit c t
      → (n : ℕ) × Sends s n c t
  at_end-Sends final (suc n, q) s c t e more h =
      let found : (record_end s.plan s.buffer).0 ≢ 0 = rw e (λ z. absurd (omega arith)) in
      let (low, high) = record_end_bounds s.plan s.buffer found in
      let top : suc n ≤ length s.buffer = rw e at high in
      (suc n, cut-Sends (suc n) s c t (omega arith) top h)
  at_end-Sends false (zero, q) s c t e more h = cc
  at_end-Sends true (zero, true) s c t e more h = cc
  at_end-Sends true (zero, false) s c t e more h =
      (length s.buffer, cut-Sends (length s.buffer) s c t (nonempty s.buffer more) (omega arith) h)
    where
      nonempty : (b : Bytes) → is_nil route float_text b ≡ false → 0 < length b
      nonempty [] m = cc
      nonempty (x ∷ b) m = omega arith

  -- A turn that sends takes some bytes off the front of the buffer.
  pub turn-Sends :
      (final : Bool) (s : Stream) (c : Chunk) (t : Stream)
      → turn route float_text final s ≡ emit c t
      → (n : ℕ) × Sends s n c t
  unfolding turn
  turn-Sends final s c t h = elim (Bool-cases (is_nil route float_text s.buffer)) [
    | inl empty ↦ cc (rw empty at h)
    | inr more ↦ at_end-Sends final (record_end s.plan s.buffer) s c t refl more (rw more at h)
  ]

  -- Turns up to one that stops.
  pub data Runs (final : Bool) : Stream → List Chunk → Stream → Type 0 where
    done : {s : Stream} → turn route float_text final s ≡ stop → Runs final s [] s
    again :
        {s t u : Stream} {c : Chunk} {cs : List Chunk}
        → turn route float_text final s ≡ emit c t
        → Runs final t cs u
        → Runs final s (c ∷ cs) u

  and_then-ok :
      (c : Chunk) (r : Result CopyError (List Chunk) × Stream) (cs : List Chunk) (u : Stream)
      → and_then c r ≡ (ok cs, u)
      → (ds : List Chunk) × (r ≡ (ok ds, u)) × (cs ≡ c ∷ ds)
  and_then-ok c (err e, s) cs u h = cc
  and_then-ok c (ok ds, s) cs u h = (ds, cc, cc)

  shorter :
      (s t : Stream) (n : ℕ) (c : Chunk) (m : ℕ)
      → Sends s n c t
      → length s.buffer < suc m
      → length t.buffer < m
  shorter s t n c m sends room =
      let high = sends.within in
      let low = sends.some_bytes in rw sends.left (omega (arith, length-drop n s.buffer))

  consume-turn :
      (n : ℕ) (final : Bool) (s : Stream) (x : Next) (cs : List Chunk) (u : Stream)
      → ((t : Stream) (ds : List Chunk)
          → length t.buffer < n
          → consume route float_text n final t ≡ (ok ds, u)
          → Runs final t ds u)
      → length s.buffer < suc n
      → turn route float_text final s ≡ x
      → after (consume route float_text n final) s x ≡ (ok cs, u)
      → Runs final s cs u
  consume-turn n final s stop cs u later room e h =
      subst (λ ds. Runs final s ds u) (cc)
        (subst (λ v. Runs final s [] v) (ap (λ p. p.1) h) (done e))
  consume-turn n final s (fail x t) cs u later room e h = cc
  consume-turn n final s (emit c t) cs u later room e h =
      let (ds, rest, same) = and_then-ok c (consume route float_text n final t) cs u h in
      let (k, sends) = turn-Sends final s c t e in
      subst (λ l. Runs final s l u) (sym same)
        (again e (later t ds (shorter s t k c n sends room) rest))

  -- With more fuel than bytes in the buffer, chunks that the loop returns come from turns up to one
  -- where it stops.
  pub consume-Runs :
      (n : ℕ) (final : Bool) (s : Stream) (cs : List Chunk) (u : Stream)
      → length s.buffer < n
      → consume route float_text n final s ≡ (ok cs, u)
      → Runs final s cs u
  unfolding consume
  consume-Runs zero final s cs u room h = absurd (omega arith)
  consume-Runs (suc n) final s cs u room h =
      consume-turn n final s (turn route float_text final s) cs u
        (λ t ds. consume-Runs n final t ds u) room refl h

  pub Runs-consume :
      (n : ℕ) (final : Bool) {s u : Stream} {cs : List Chunk}
      → length s.buffer < n
      → Runs final s cs u
      → consume route float_text n final s ≡ (ok cs, u)
  unfolding consume
  Runs-consume zero final room r = absurd (omega arith)
  Runs-consume (suc n) final room (done e) = rw e
  Runs-consume (suc n) final room (again {s} {t} {u} {c} {cs} e r) =
      let (k, sends) = turn-Sends final s c t e in
      rw (e, Runs-consume n final (shorter s t k c n sends room) r)
