-- ===== src/Proxy/TwoPhase/Phases.antt =====
-- The two phases of `commitTwoPhase` of internal/proxy/server.go.
use hamstergres.Base.{
  ◌≡◌, refl, sym, ap, subst, ◌∙◌, ◌⊎◌, inl, inr, String, str_eq, eq_iff, List, [], ◌∷◌, ◌++◌,
  Option, none, some, All, Bool-cases, false, contains, IsFresh, contains-IsFresh, arith, eq_refl,
}
use mathlib.Core.List.{append-nil, append_assoc}
use hamstergres.Proxy.TwoPhase.{
  Command, prepare, commit_prepared, Failure, Fleet, or_abort, prepare_all, or_doubt, commit_all,
}
use hamstergres.Proxy.TwoPhase.Postgres.{active, prepared, committed, IsPostgres}

module _ (fleet : Fleet) (postgres : IsPostgres fleet) where
  open fleet use {World, run}
  open postgres use {
    state, elsewhere, prepares, commits, commits_or_not, lasts, only_commit_commits,
  }

  abbrev pub IsPrepared : World → String → Type 0
  IsPrepared w b = state w b ≡ prepared

  pub All-IsPrepared :
      (b : String) (w : World) (xs : List String)
      → state w b ≡ active
      → (run b prepare w).0 ≡ none
      → All (IsPrepared w) xs
      → All (IsPrepared (run b prepare w).1) xs
  All-IsPrepared b w [] begun done h = tt
  All-IsPrepared b w (x ∷ xs) begun done h = (one, All-IsPrepared b w xs begun done h.1)
    where
      one : IsPrepared (run b prepare w).1 x
      one = elim (Bool-cases (str_eq b x)) [
        | inl here ↦
            subst (IsPrepared (run b prepare w).1) ((eq_iff b x).0 here) (prepares b w begun done)
        | inr away ↦ elsewhere b x prepare w away ∙ h.0
      ]

  abbrev pub IsActive : World → String → Type 0
  IsActive w b = state w b ≡ active

  -- A command on a server leaves the transactions on others active.
  pub All-IsActive :
      (b : String) (k : Command) (w : World) (xs : List String)
      → contains b xs ≡ false
      → All (IsActive w) xs
      → All (IsActive (run b k w).1) xs
  All-IsActive b k w [] away h = tt
  All-IsActive b k w (x ∷ xs) away h =
      let differs : str_eq b x ≡ false = ground (arith, eq_iff b x, eq_iff x b) in
      (elsewhere b x k w differs ∙ h.0, All-IsActive b k w xs (ground arith) h.1)

  All-append :
      (P : String → Type 0) (xs : List String) (x : String) → All P xs → P x → All P (xs ++ x ∷ [])
  All-append P [] x h p = (p, tt)
  All-append P (y ∷ xs) x h p = (h.0, All-append P xs x h.1 p)

  -- A first phase that succeeds on active transactions leaves every participant prepared.
  pub prepare_all_prepares :
      (seen ps bs : List String) (w w' : World)
      → IsFresh seen bs
      → All (IsPrepared w) ps
      → All (IsActive w) bs
      → prepare_all fleet ps bs w ≡ (none, w')
      → All (IsPrepared w') (ps ++ bs)
  unfolding prepare_all
  prepare_all_prepares seen ps [] w w' fresh h begun e =
      let same : w ≡ w' = ap (λ r. r.1) e in
      subst (λ v. All (IsPrepared v) (ps ++ [])) same (rw (append-nil ps) h)
  prepare_all_prepares seen ps (b ∷ bs) w w' fresh h begun e =
      step (run b prepare w) refl e (prepare_all_prepares (b ∷ seen) (ps ++ b ∷ []) bs)
    where
      next : World → Option Failure × World
      next = prepare_all fleet (ps ++ b ∷ []) bs

      step :
          (r : Option Failure × World)
          → run b prepare w ≡ r
          → or_abort fleet next ps (b ∷ bs) r ≡ (none, w')
          → ((v v' : World)
              → IsFresh (b ∷ seen) bs
              → All (IsPrepared v) (ps ++ b ∷ [])
              → All (IsActive v) bs
              → next v ≡ (none, v')
              → All (IsPrepared v') ((ps ++ b ∷ []) ++ bs))
          → All (IsPrepared w') (ps ++ b ∷ bs)
      step (some x, v) same j rec = cc
      step (none, v) same j rec =
          let done : (run b prepare w).0 ≡ none = ap (λ r. r.0) same in
          let world : (run b prepare w).1 ≡ v = ap (λ r. r.1) same in
          let ready : All (IsPrepared v) (ps ++ b ∷ []) =
            subst (λ u. All (IsPrepared u) (ps ++ b ∷ [])) world
              (All-append (IsPrepared (run b prepare w).1) ps b
                (All-IsPrepared b w ps begun.0 done h) (prepares b w begun.0 done)) in
          let away = contains-IsFresh (b ∷ seen) bs b fresh.1 (ground (arith, eq_refl b)) in
          let left : All (IsActive v) bs =
            subst (λ u. All (IsActive u) bs) world (All-IsActive b prepare w bs away begun.1) in
          subst (All (IsPrepared w')) (append_assoc ps (b ∷ []) bs) (rec v w' fresh.1 ready left j)

  -- The second phase keeps what is prepared or committed so.
  abbrev pub HasVoted : World → String → Type 0
  HasVoted w b = (state w b ≡ prepared) ⊎ (state w b ≡ committed)

  HasVoted-commit :
      (b x : String) (w : World) → HasVoted w x → HasVoted (run b commit_prepared w).1 x
  HasVoted-commit b x w h = elim (Bool-cases (str_eq b x)) [
    | inl here ↦
        subst (HasVoted (run b commit_prepared w).1) ((eq_iff b x).0 here)
          (voted (subst (HasVoted w) (sym ((eq_iff b x).0 here)) h))
    | inr away ↦ unchanged (elsewhere b x commit_prepared w away) h
  ]
    where
      voted : HasVoted w b → HasVoted (run b commit_prepared w).1 b
      voted (inl p) = commits_or_not b w p
      voted (inr c) = inr (lasts b commit_prepared w c)

      unchanged :
          state (run b commit_prepared w).1 x ≡ state w x
          → HasVoted w x
          → HasVoted (run b commit_prepared w).1 x
      unchanged e (inl p) = inl (e ∙ p)
      unchanged e (inr c) = inr (e ∙ c)

  commit_lasts :
      (b x : String) (w : World)
      → state w x ≡ committed
      → state (run b commit_prepared w).1 x ≡ committed
  commit_lasts b x w h = elim (Bool-cases (str_eq b x)) [
    | inl here ↦
        let same = (eq_iff b x).0 here in
        subst (λ y. state (run b commit_prepared w).1 y ≡ committed) same
          (lasts b commit_prepared w (subst (λ y. state w y ≡ committed) (sym same) h))
    | inr away ↦ elsewhere b x commit_prepared w away ∙ h
  ]

  commit_all_keeps :
      (P : World → Type 0)
      → ((b : String) (w : World) → P w → P (run b commit_prepared w).1)
      → (bs : List String) (w : World) → P w
      → P (commit_all fleet bs w).1
  unfolding commit_all
  commit_all_keeps P keep [] w h = h
  commit_all_keeps P keep (b ∷ bs) w h =
      step (run b commit_prepared w) (keep b w h) (commit_all_keeps P keep bs)
    where
      step :
          (r : Option Failure × World)
          → P r.1
          → ((v : World) → P v → P (commit_all fleet bs v).1)
          → P (or_doubt fleet b (commit_all fleet bs) r).1
      step (some e, v) j rest = j
      step (none, v) j rest = rest v j

  pub commit_all_votes :
      (xs bs : List String) (w : World)
      → All (IsPrepared w) xs
      → All (HasVoted (commit_all fleet bs w).1) xs
  commit_all_votes [] bs w h = tt
  commit_all_votes (x ∷ xs) bs w h = (
    commit_all_keeps (λ v. HasVoted v x) (λ b v. HasVoted-commit b x v) bs w (inl h.0),
    commit_all_votes xs bs w h.1,
  )

  abbrev pub IsCommitted : World → String → Type 0
  IsCommitted w b = state w b ≡ committed

  -- A second phase that succeeds has committed every participant.
  pub commit_all_commits :
      (bs : List String) (w w' : World)
      → commit_all fleet bs w ≡ (none, w')
      → All (IsCommitted w') bs
  unfolding commit_all
  commit_all_commits [] w w' e = tt
  commit_all_commits (b ∷ bs) w w' e = step (run b commit_prepared w) refl e (commit_all_commits bs)
    where
      step :
          (r : Option Failure × World)
          → run b commit_prepared w ≡ r
          → or_doubt fleet b (commit_all fleet bs) r ≡ (none, w')
          → ((v v' : World) → commit_all fleet bs v ≡ (none, v') → All (IsCommitted v') bs)
          → All (IsCommitted w') (b ∷ bs)
      step (some x, v) same j rec = cc
      step (none, v) same j rec =
          let first : IsCommitted v b =
            subst (λ u. IsCommitted u b) (ap (λ r. r.1) same) (commits b w (ap (λ r. r.0) same)) in
          let kept : IsCommitted (commit_all fleet bs v).1 b =
            commit_all_keeps (λ u. IsCommitted u b) (λ c u. commit_lasts c b u) bs v first in
          (subst (λ u. IsCommitted u b) (ap (λ r. r.1) j) kept, rec v w' j)
