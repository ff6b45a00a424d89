-- ===== src/Proxy/TwoPhase/Atomic.antt =====
-- `commitTwoPhase` of internal/proxy/server.go commits on all Burrows or on none, or says that the
-- outcome is in doubt.
use hamstergres.Base.{
  ◌≡◌, refl, String, List, [], ◌∷◌, Option, none, some, All, Distinct, contains, false, if-cases,
}
use hamstergres.Proxy.TwoPhase.{
  commit_prepared, rollback, Failure, Fleet, unless_failed, CommitError, rollback_failed,
  prepare_failed, in_doubt, others, rollback_all, prepare_all, or_doubt, commit_all, or_error,
  two_phases, commit_two_phase,
}
use hamstergres.Proxy.TwoPhase.Postgres.{
  IsPostgres, CommitsNothing, CommitsNothing-rollback_all, CommitsNothing-prepare_all,
}
use hamstergres.Proxy.TwoPhase.Phases.{
  IsPrepared, IsActive, All-IsActive, HasVoted, IsCommitted, prepare_all_prepares, commit_all_votes,
  commit_all_commits,
}

module _ (fleet : Fleet) (postgres : IsPostgres fleet) where
  open fleet use {World, run}
  open postgres use {
    state, elsewhere, prepares, commits, commits_or_not, lasts, only_commit_commits,
  }

  -- What a result of COMMIT says of the participants.
  abbrev pub CommitOutcome : List String → World → Option CommitError × World → Type 0
  CommitOutcome burrows w (none, w') = All (IsCommitted fleet postgres w') burrows
  CommitOutcome burrows w (some (in_doubt b e), w') = All (HasVoted fleet postgres w') burrows
  CommitOutcome burrows w (some (rollback_failed e), w') = CommitsNothing fleet postgres w w'
  CommitOutcome burrows w (some (prepare_failed e), w') = CommitsNothing fleet postgres w w'

  -- The second phase fails with no other error.
  abbrev MayDoubt : Option CommitError → Type 0
  MayDoubt none = Unit
  MayDoubt (some (in_doubt b e)) = Unit
  MayDoubt (some (rollback_failed e)) = ⊥
  MayDoubt (some (prepare_failed e)) = ⊥

  commit_all-MayDoubt : (bs : List String) (w : World) → MayDoubt (commit_all fleet bs w).0
  unfolding commit_all
  commit_all-MayDoubt [] w = tt
  commit_all-MayDoubt (b ∷ bs) w = step (run b commit_prepared w) (commit_all-MayDoubt bs)
    where
      step :
          (r : Option Failure × World)
          → ((v : World) → MayDoubt (commit_all fleet bs v).0)
          → MayDoubt (or_doubt fleet b (commit_all fleet bs) r).0
      step (some e, v) rec = tt
      step (none, v) rec = rec v

  commit_all-CommitOutcome :
      (burrows : List String) (w v : World)
      → All (IsPrepared fleet postgres v) burrows
      → CommitOutcome burrows w (commit_all fleet burrows v)
  commit_all-CommitOutcome burrows w v h =
      step (commit_all fleet burrows v) refl (commit_all_votes fleet postgres burrows burrows v h)
        (commit_all-MayDoubt burrows v)
    where
      step :
          (r : Option CommitError × World)
          → commit_all fleet burrows v ≡ r
          → All (HasVoted fleet postgres r.1) burrows
          → MayDoubt r.0
          → CommitOutcome burrows w r
      step (none, v') e voted may = commit_all_commits fleet postgres burrows v v' e
      step (some (in_doubt b x), v') e voted may = voted
      step (some (rollback_failed x), v') e voted may = elim may [ ]
      step (some (prepare_failed x), v') e voted may = elim may [ ]

  two_phases-CommitOutcome :
      (burrows : List String) (w v : World)
      → Distinct burrows
      → All (IsActive fleet postgres v) burrows
      → CommitsNothing fleet postgres w v
      → CommitOutcome burrows w (two_phases fleet burrows v)
  two_phases-CommitOutcome burrows w v distinct begun h =
      step (prepare_all fleet [] burrows v) refl
        (CommitsNothing-prepare_all fleet postgres [] burrows v)
    where
      step :
          (r : Option Failure × World)
          → prepare_all fleet [] burrows v ≡ r
          → CommitsNothing fleet postgres v r.1
          → CommitOutcome burrows w (or_error fleet prepare_failed (commit_all fleet burrows) r)
      step (some x, u) e kept = λ c j. h c (kept c j)
      step (none, u) e kept =
          commit_all-CommitOutcome burrows w u
            (prepare_all_prepares fleet postgres [] [] burrows v u distinct tt begun e)

  abbrev IsAway : List String → String → Type 0
  IsAway burrows o = contains o burrows ≡ false

  others-IsAway : (burrows bs : List String) → All (IsAway burrows) (others fleet burrows bs)
  others-IsAway burrows [] = tt
  others-IsAway burrows (b ∷ bs) =
      let rest = others-IsAway burrows bs in
      if-cases (All (IsAway burrows)) (contains b burrows) (λ takes_part. rest)
        (λ away. (away, rest))

  -- The rollbacks on servers that do not take part leave the transactions of those that do.
  rollback_all-IsActive :
      (burrows bs : List String) (w : World)
      → All (IsAway burrows) bs
      → All (IsActive fleet postgres w) burrows
      → All (IsActive fleet postgres (rollback_all fleet bs w).1) burrows
  unfolding rollback_all
  rollback_all-IsActive burrows [] w away h = h
  rollback_all-IsActive burrows (b ∷ bs) w away h =
      step (run b rollback w) (All-IsActive fleet postgres b rollback w burrows away.0 h)
        (λ v. rollback_all-IsActive burrows bs v away.1)
    where
      step :
          (r : Option Failure × World)
          → All (IsActive fleet postgres r.1) burrows
          → ((v : World)
              → All (IsActive fleet postgres v) burrows
              → All (IsActive fleet postgres (rollback_all fleet bs v).1) burrows)
          → All (IsActive fleet postgres (unless_failed fleet (rollback_all fleet bs) r).1) burrows
      step (some e, v) now rec = now
      step (none, v) now rec = rec v now

  -- Over several different Burrows, each with an active transaction that no error has aborted: a
  -- COMMIT that succeeds has committed on each of them. One that says that the outcome is in doubt
  -- leaves each of them prepared or committed. One that fails in any other way has committed on no
  -- server. This holds for servers that do what PostgreSQL documents, and for a command that fails
  -- at any step.
  pub commit_two_phase_atomic :
      (shard_names burrows : List String) (w : World)
      → Distinct burrows
      → All (IsActive fleet postgres w) burrows
      → CommitOutcome burrows w (commit_two_phase fleet shard_names burrows w)
  unfolding commit_two_phase
  commit_two_phase_atomic shard_names burrows w distinct begun =
      step (rollback_all fleet (others fleet burrows shard_names) w)
        (rollback_all-IsActive burrows (others fleet burrows shard_names) w
          (others-IsAway burrows shard_names) begun)
        (CommitsNothing-rollback_all fleet postgres (others fleet burrows shard_names) w)
    where
      step :
          (r : Option Failure × World)
          → All (IsActive fleet postgres r.1) burrows
          → CommitsNothing fleet postgres w r.1
          → CommitOutcome burrows w (or_error fleet rollback_failed (two_phases fleet burrows) r)
      step (some x, v) left h = h
      step (none, v) left h = two_phases-CommitOutcome burrows w v distinct left h
