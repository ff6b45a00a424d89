-- ===== src/Nest/Sequence.antt =====
-- `SequenceStore` of internal/nest/sequence.go: fleet-wide identifiers by compare-and-swap.
pub mod Unique
pub mod Fresh
pub mod Rounds
use hamstergres.Base.{
  ℕ, zero, suc, ◌+◌, ◌-◌, ◌^◌, ◌==◌, Bool, true, false, Option, none, some, ℤ, pos, negsuc, Result,
  ok, err, ◌>>=◌, ◌>>◌, refuse,
}
use hamstergres.Nest.Etcd.{Entry}

pub data SequenceError : Type 0 where
  unreachable invalid_value exhausted contention : SequenceError

-- int64(^uint64(0)>>1)
abbrev pub max_id : ℕ
max_id = 2 ^ 63 - 1

-- The value of the key: an integer, or `none` for what is no decimal 64-bit integer.
abbrev pub Stored : Type 0
Stored = Option ℤ

pub record Current : Type 0 where
  pub current : ℕ
  pub revision : ℕ
  pub found : Bool

-- What `read` makes of the server's reply.
unfoldable pub read_reply : Option (Entry Stored) → Result SequenceError Current
read_reply none = ok (record { current = 0; revision = 0; found = false })
read_reply (some e) = elim e.value [
  | none ↦ err invalid_value
  | some v ↦ elim v [
    | negsuc n ↦ err invalid_value
    | pos n ↦ ok (record { current = n; revision = e.mod_revision; found = true })
  ]
]

-- The transaction that `swap` sends: `expected` is the compared MOD revision, or `none` for
-- VERSION 0.
pub record Attempt : Type 0 where
  pub expected : Option ℕ
  pub id : ℕ

abbrev pub expected_revision : Current → Option ℕ
expected_revision c = elim c.found [ true ↦ some c.revision | false ↦ none ]

-- One round of `Next`, up to the call of `swap`.
unfoldable pub prepare : Option (Entry Stored) → Result SequenceError Attempt
unfolding read_reply
prepare reply = do
  c ← read_reply reply
  refuse (c.current == max_id) exhausted
  ok (record { expected = expected_revision c; id = c.current + 1 })

-- What a request returns: a failure to reach the server, or its reply.
abbrev pub Reply : Type 0 → Type 0
Reply A = Option A

-- The proxy's side of the connection: each request changes the world, which holds the server and
-- all that other proxies do between two requests of this one.
pub record Connection : Type 1 where
  pub World : Type 0
  pub range : World → Reply (Option (Entry Stored)) × World
  pub swap : Attempt → World → Reply Bool × World

module _ (connection : Connection) where
  open connection use {World, range, swap}

  -- The reply to `swap`: the identifier, or `none` for a lost compare-and-swap.
  unfoldable pub conclude : Attempt → Reply Bool × World → Result SequenceError (Option ℕ) × World
  conclude a (none, w) = (err unreachable, w)
  conclude a (some true, w) = (ok (some a.id), w)
  conclude a (some false, w) = (ok none, w)

  unfoldable pub try_swap :
      Result SequenceError Attempt → World → Result SequenceError (Option ℕ) × World
  try_swap (err e) w = (err e, w)
  try_swap (ok a) w = conclude a (swap a w)

  unfoldable pub after_range :
      Reply (Option (Entry Stored)) × World → Result SequenceError (Option ℕ) × World
  after_range (none, w) = (err unreachable, w)
  after_range (some entry, w) = try_swap (prepare entry) w

  -- One round of the loop of `Next`.
  unfoldable pub round : World → Result SequenceError (Option ℕ) × World
  round w = after_range (range w)

  unfoldable pub retry :
      (World → Result SequenceError ℕ × World)
      → Result SequenceError (Option ℕ) × World
      → Result SequenceError ℕ × World
  retry again (err e, w) = (err e, w)
  retry again (ok (some id), w) = (ok id, w)
  retry again (ok none, w) = again w

  -- for attempts := 0; attempts < 64; attempts++
  unfoldable pub next_loop : ℕ → World → Result SequenceError ℕ × World
  next_loop zero w = (err contention, w)
  next_loop (suc n) w = retry (next_loop n) (round w)

  abbrev pub next : World → Result SequenceError ℕ × World
  next = next_loop 64
