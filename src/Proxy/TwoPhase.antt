-- ===== src/Proxy/TwoPhase.antt =====
-- Transactions over several Burrows: `commitTwoPhase`, `beginAtomicFleetDDL` and
-- `rollbackAtomicFleetDDL` of internal/proxy/server.go.
pub mod Postgres
pub mod Phases
pub mod Atomic
use hamstergres.Base.{
  ℕ, String, str_eq, Bool, true, false, not, List, [], ◌∷◌, ◌++◌, Option, none, some, contains,
  if◌then◌else◌,
}

-- The statements that `runTransactionCommand` sends.
pub data Command : Type 0 where
  begin rollback prepare commit_prepared rollback_prepared : Command

-- PostgreSQL's error, or that of a broken connection, by its code.
abbrev pub Failure : Type 0
Failure = String

-- The connections of a session: a command changes the world, which holds the servers.
pub record Fleet : Type 1 where
  pub World : Type 0
  pub run : String → Command → World → Option Failure × World

pub data CommitError : Type 0 where
  rollback_failed prepare_failed : Failure → CommitError
  in_doubt : String → Failure → CommitError

module _ (fleet : Fleet) where
  open fleet use {World, run}

  -- Commands whose failure is only logged.
  unfoldable pub run_each : Command → List String → World → World
  run_each c [] w = w
  run_each c (b ∷ bs) w = run_each c bs (run b c w).1

  -- `if response != nil { return response }`
  abbrev pub unless_failed :
      (World → Option Failure × World) → Option Failure × World → Option Failure × World
  unless_failed next (some e, w) = (some e, w)
  unless_failed next (none, w) = next w

  -- The Burrows that do not take part.
  abbrev pub others : List String → List String → List String
  others burrows [] = []
  others burrows (b ∷ bs) =
      let rest = others burrows bs in if contains b burrows then rest else b ∷ rest

  -- for _, name := range s.backends.ShardNames()
  unfoldable pub rollback_all : List String → World → Option Failure × World
  rollback_all [] w = (none, w)
  rollback_all (b ∷ bs) w = unless_failed (rollback_all bs) (run b rollback w)

  -- A failed PREPARE: `prepared` is rolled back, and so is the rest from the one that failed on.
  abbrev pub or_abort :
      (World → Option Failure × World)
      → List String
      → List String
      → Option Failure × World
      → Option Failure × World
  or_abort next prepared rest (some e, w) =
      (some e, run_each rollback rest (run_each rollback_prepared prepared w))
  or_abort next prepared rest (none, w) = next w

  -- The first phase: `prepared` has been prepared, the list is still to be.
  unfoldable pub prepare_all : List String → List String → World → Option Failure × World
  prepare_all prepared [] w = (none, w)
  prepare_all prepared (b ∷ bs) w =
      or_abort (prepare_all (prepared ++ b ∷ []) bs) prepared (b ∷ bs) (run b prepare w)

  abbrev pub or_doubt :
      String
      → (World → Option CommitError × World)
      → Option Failure × World
      → Option CommitError × World
  or_doubt b next (some e, w) = (some (in_doubt b e), w)
  or_doubt b next (none, w) = next w

  -- The second phase.
  unfoldable pub commit_all : List String → World → Option CommitError × World
  commit_all [] w = (none, w)
  commit_all (b ∷ bs) w = or_doubt b (commit_all bs) (run b commit_prepared w)

  abbrev pub or_error :
      (Failure → CommitError)
      → (World → Option CommitError × World)
      → Option Failure × World
      → Option CommitError × World
  or_error f next (some e, w) = (some (f e), w)
  or_error f next (none, w) = next w

  abbrev pub two_phases : List String → World → Option CommitError × World
  two_phases burrows w = or_error prepare_failed (commit_all burrows) (prepare_all [] burrows w)

  unfoldable pub commit_two_phase : List String → List String → World → Option CommitError × World
  commit_two_phase shard_names burrows w =
      or_error rollback_failed (two_phases burrows) (rollback_all (others burrows shard_names) w)

  -- A failed BEGIN: what has begun is rolled back.
  abbrev pub or_undo :
      (World → Option Failure × World)
      → List String
      → Option Failure × World
      → Option Failure × World
  or_undo next begun (some e, w) = (some e, run_each rollback begun w)
  or_undo next begun (none, w) = next w

  unfoldable pub begin_all : List String → List String → World → Option Failure × World
  begin_all begun [] w = (none, w)
  begin_all begun (b ∷ bs) w = or_undo (begin_all (begun ++ b ∷ []) bs) begun (run b begin w)

  abbrev pub begin_atomic_fleet_ddl : List String → World → Option Failure × World
  begin_atomic_fleet_ddl burrows w = begin_all [] burrows w

  abbrev pub rollback_atomic_fleet_ddl : List String → World → World
  rollback_atomic_fleet_ddl burrows w = run_each rollback burrows w
