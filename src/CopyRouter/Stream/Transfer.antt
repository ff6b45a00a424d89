-- ===== src/CopyRouter/Stream/Transfer.antt =====
-- A whole COPY input, as the proxy feeds it to a `Stream` of internal/copyrouter/copy.go.
use hamstergres.Base.{ℕ, ◌≡◌, refl, sym, ◌∙◌, String, List, [], ◌∷◌, ◌++◌, Option, Result, ok, err}
use mathlib.Core.List.{append-nil, append_assoc, flatten}
use hamstergres.CopyRouter.Plan.{Plan, Bytes, CopyError}
use hamstergres.CopyRouter.Stream.{Chunk, Stream, write, finish}
use hamstergres.CopyRouter.Stream.Conserved.{
  payloads, payloads-append, write_conserves, finish_sends,
}

abbrev pub prefix :
    List Chunk → Result CopyError (List Chunk) × Stream → Result CopyError (List Chunk) × Stream
prefix cs (ok ds, u) = (ok (cs ++ ds), u)
prefix cs (err e, u) = (err e, u)

abbrev pub next_write :
    (Stream → Result CopyError (List Chunk) × Stream)
    → Result CopyError (List Chunk) × Stream
    → Result CopyError (List Chunk) × Stream
next_write rest (ok cs, s) = prefix cs (rest s)
next_write rest (err e, s) = (err e, s)

prefix-ok :
    (cs : List Chunk) (r : Result CopyError (List Chunk) × Stream) (es : List Chunk) (u : Stream)
    → prefix cs r ≡ (ok es, u)
    → (ds : List Chunk) × (r ≡ (ok ds, u)) × (es ≡ cs ++ ds)
prefix-ok cs (ok ds, s) es u h = (ds, cc, cc)
prefix-ok cs (err e, s) es u h = cc

next_write-ok :
    (rest : Stream → Result CopyError (List Chunk) × Stream)
    (r : Result CopyError (List Chunk) × Stream) (es : List Chunk) (u : Stream)
    → next_write rest r ≡ (ok es, u)
    → (cs : List Chunk) × (ds : List Chunk) × (t : Stream) × (r ≡ (ok cs, t))
      × (rest t ≡ (ok ds, u))
      × (es ≡ cs ++ ds)
next_write-ok rest (ok cs, t) es u h =
    let (ds, e, same) = prefix-ok cs (rest t) es u h in (cs, ds, t, refl, e, same)
next_write-ok rest (err e, t) es u h = cc

module _ (route : Plan → List Bytes → Option String) (float_text : ℕ → ℕ → Bytes) where
  -- A whole input: the writes in order, up to the first error, and then `Finish`.
  abbrev pub transfer : List Bytes → Stream → Result CopyError (List Chunk) × Stream
  transfer [] s = finish route float_text s
  transfer (d ∷ ds) s = next_write (transfer ds) (write route float_text d s)

  -- A transfer in any of the three formats that succeeds sends exactly the bytes that the stream
  -- has kept and those of its writes, in their order, however they are divided into writes.
  pub transfer_conserves :
      (ds : List Bytes) (s : Stream) (cs : List Chunk) (u : Stream)
      → transfer ds s ≡ (ok cs, u)
      → payloads cs ≡ s.buffer ++ flatten ds
  unfolding flatten
  transfer_conserves [] s cs u h =
      finish_sends route float_text s cs u h ∙ sym (append-nil s.buffer)
  transfer_conserves (d ∷ ds) s cs u h =
      let (cs₁, cs₂, t, first, rest, same) =
        next_write-ok (transfer ds) (write route float_text d s) cs u h in
      let kept = (write_conserves route float_text d s cs₁ t first).bytes in
      rw (same, payloads-append, transfer_conserves ds t cs₂ u rest)
        (sym (append_assoc (payloads cs₁) t.buffer (flatten ds))
          ∙ rw kept (append_assoc s.buffer d (flatten ds)))
