-- ===== src/CopyRouter/State.antt =====
-- The state of a COPY stream, of internal/copyrouter/copy.go, and what one turn of its loops does.
use hamstergres.Base.{
  ℕ, String, str_eq, Bool, List, [], ◌∷◌, Option, none, some, Result, ok, err, if◌then◌else◌,
}
use hamstergres.CopyRouter.Plan.{Plan, Bytes, CopyError, unroutable}

-- An empty target stands for every participating Burrow.
pub record Chunk : Type 0 where
  pub target : String
  pub payload : Bytes

-- The registry and the Burrows of the source's `Stream` are part of the parameter `route` of its
-- operations.
pub record Stream : Type 0 where
  pub plan : Plan
  pub buffer : Bytes
  pub header_pending : Bool
  pub binary_header : Bool
  pub binary_trailer : Bool
  pub rows : ℕ

-- What a loop does next: leave the loop, return an error, or send a chunk.
pub data Next : Type 0 where
  stop : Next
  fail : CopyError → Stream → Next
  emit : Chunk → Stream → Next

-- `!ok || target == ""`
abbrev pub routed : Option String → Result CopyError String
routed none = err unroutable
routed (some t) = if str_eq t "" then err unroutable else ok t

abbrev pub and_then :
    Chunk → Result CopyError (List Chunk) × Stream → Result CopyError (List Chunk) × Stream
and_then c (ok cs, s) = (ok (c ∷ cs), s)
and_then c (err e, s) = (err e, s)

abbrev pub after :
    (Stream → Result CopyError (List Chunk) × Stream)
    → Stream
    → Next
    → Result CopyError (List Chunk) × Stream
after again s stop = (ok [], s)
after again s (fail e s') = (err e, s')
after again s (emit c s') = and_then c (again s')
