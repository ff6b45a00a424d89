-- ===== src/Proxy/TwoPhase/Postgres.antt =====
-- What the servers that `commitTwoPhase` of internal/proxy/server.go talks to are documented to do,
-- and the commands that commit nothing there.
use hamstergres.Base.{
  ◌≡◌, ◌≢◌, sym, subst, ◌∙◌, ◌⊎◌, inl, inr, String, str_eq, eq_iff, false, List, [], ◌∷◌, ◌++◌,
  Option, none, some, Bool-cases,
}
use hamstergres.Proxy.TwoPhase.{
  Command, rollback, prepare, commit_prepared, rollback_prepared, Failure, Fleet, run_each,
  unless_failed, rollback_all, or_abort, prepare_all,
}

-- The session's transaction on one server; `failed` is a block that an error has aborted, in which
-- statements are refused until it ends.
pub data TxState : Type 0 where
  idle active failed prepared committed aborted : TxState

-- What the documentation of PostgreSQL says of two-phase commit. A command may fail with any
-- outcome that its documentation leaves open, a lost connection included. PREPARE TRANSACTION in
-- a transaction that has failed, or in none, returns no error and prepares nothing: the server
-- answers ROLLBACK.
pub record IsPostgres (fleet : Fleet) : Type 1 where
  pub state : fleet.World → String → TxState
  pub elsewhere :
      (b c : String) (k : Command) (w : fleet.World)
      → str_eq b c ≡ false
      → state (fleet.run b k w).1 c ≡ state w c
  pub prepares :
      (b : String) (w : fleet.World)
      → state w b ≡ active
      → (fleet.run b prepare w).0 ≡ none
      → state (fleet.run b prepare w).1 b ≡ prepared
  pub commits :
      (b : String) (w : fleet.World)
      → (fleet.run b commit_prepared w).0 ≡ none
      → state (fleet.run b commit_prepared w).1 b ≡ committed
  pub commits_or_not :
      (b : String) (w : fleet.World)
      → state w b ≡ prepared
      → (state (fleet.run b commit_prepared w).1 b ≡ prepared)
        ⊎ (state (fleet.run b commit_prepared w).1 b ≡ committed)
  pub lasts :
      (b : String) (k : Command) (w : fleet.World)
      → state w b ≡ committed
      → state (fleet.run b k w).1 b ≡ committed
  pub only_commit_commits :
      (b : String) (k : Command) (w : fleet.World)
      → k ≢ commit_prepared
      → state (fleet.run b k w).1 b ≡ committed
      → state w b ≡ committed

module _ (fleet : Fleet) (postgres : IsPostgres fleet) where
  open fleet use {World, run}
  open postgres use {
    state, elsewhere, prepares, commits, commits_or_not, lasts, only_commit_commits,
  }

  -- Nothing is committed that was not before.
  abbrev pub CommitsNothing : World → World → Type 0
  CommitsNothing w w' = (b : String) → state w' b ≡ committed → state w b ≡ committed

  pub CommitsNothing-run :
      (b : String) (k : Command) (w : World) → k ≢ commit_prepared → CommitsNothing w (run b k w).1
  CommitsNothing-run b k w other c h = elim (Bool-cases (str_eq b c)) [
    | inl here ↦
        let same = (eq_iff b c).0 here in
        subst (λ x. state w x ≡ committed) same
          (only_commit_commits b k w other
            (subst (λ x. state (run b k w).1 x ≡ committed) (sym same) h))
    | inr away ↦ sym (elsewhere b c k w away) ∙ h
  ]

  pub CommitsNothing-run_each :
      (k : Command) (bs : List String) (w : World)
      → k ≢ commit_prepared
      → CommitsNothing w (run_each fleet k bs w)
  unfolding run_each
  CommitsNothing-run_each k [] w other c h = h
  CommitsNothing-run_each k (b ∷ bs) w other c h =
      CommitsNothing-run b k w other c (CommitsNothing-run_each k bs (run b k w).1 other c h)

  rollback_is_not_commit : rollback ≢ commit_prepared
  rollback_is_not_commit e = cc

  prepare_is_not_commit : prepare ≢ commit_prepared
  prepare_is_not_commit e = cc

  undo_is_not_commit : rollback_prepared ≢ commit_prepared
  undo_is_not_commit e = cc

  pub CommitsNothing-unless_failed :
      (next : World → Option Failure × World) (w : World) (r : Option Failure × World)
      → CommitsNothing w r.1
      → ((v : World) → CommitsNothing v (next v).1)
      → CommitsNothing w (unless_failed fleet next r).1
  CommitsNothing-unless_failed next w (some e, v) first rest = first
  CommitsNothing-unless_failed next w (none, v) first rest = λ c h. first c (rest v c h)

  pub CommitsNothing-rollback_all :
      (bs : List String) (w : World) → CommitsNothing w (rollback_all fleet bs w).1
  unfolding rollback_all
  CommitsNothing-rollback_all [] w c h = h
  CommitsNothing-rollback_all (b ∷ bs) w c h =
      CommitsNothing-unless_failed (rollback_all fleet bs) w (run b rollback w)
        (CommitsNothing-run b rollback w rollback_is_not_commit) (CommitsNothing-rollback_all bs) c
        h

  pub CommitsNothing-or_abort :
      (next : World → Option Failure × World) (w : World) (ps bs : List String)
      (r : Option Failure × World)
      → CommitsNothing w r.1
      → ((v : World) → CommitsNothing v (next v).1)
      → CommitsNothing w (or_abort fleet next ps bs r).1
  CommitsNothing-or_abort next w ps bs (some e, v) first rest = λ c h. first c (
      CommitsNothing-run_each rollback_prepared ps v undo_is_not_commit c (
        CommitsNothing-run_each rollback bs (run_each fleet rollback_prepared ps v)
          rollback_is_not_commit c h))
  CommitsNothing-or_abort next w ps bs (none, v) first rest = λ c h. first c (rest v c h)

  pub CommitsNothing-prepare_all :
      (ps bs : List String) (w : World) → CommitsNothing w (prepare_all fleet ps bs w).1
  unfolding prepare_all
  CommitsNothing-prepare_all ps [] w c h = h
  CommitsNothing-prepare_all ps (b ∷ bs) w c h =
      CommitsNothing-or_abort (prepare_all fleet (ps ++ b ∷ []) bs) w ps (b ∷ bs) (run b prepare w)
        (CommitsNothing-run b prepare w prepare_is_not_commit)
        (CommitsNothing-prepare_all (ps ++ b ∷ []) bs) c h
