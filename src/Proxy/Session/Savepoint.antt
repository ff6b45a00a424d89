-- ===== src/Proxy/Session/Savepoint.antt =====
-- The temporary relations that ROLLBACK TO SAVEPOINT brings back (internal/proxy/server.go).
use hamstergres.Base.{
  ◌≡◌, refl, ap, subst, ◌∙◌, String, str_eq, eq_refl, Bool, true, false, List, [], ◌∷◌, ◌++◌,
  Option, none, some, All,
}
use hamstergres.Proxy.Temporary.{Temporaries}
use hamstergres.Proxy.Session.{
  TemporarySnapshot, Session, TransactionKind, begin_kind, start_kind, commit_kind, rollback_kind,
  savepoint_kind, release_kind, rollback_to_kind, prepare_kind, commit_prepared_kind,
  rollback_prepared_kind, TransactionStmt, temporary_snapshot, or_first,
  begin_temporary_transaction, remember_temporary_savepoint, last_named, named_after_first,
  restore_found, restore_temporary_savepoint, update_transaction_statement, SqlStatement,
  transaction_stmt, plain_stmt, apply_statement, apply_successful_sql_state,
}

abbrev pub Found : Type 0
Found = Option (List TemporarySnapshot × TemporarySnapshot)

-- A statement that leaves the savepoint `n` as the last one of its name: no end of the transaction,
-- no RELEASE, no ROLLBACK TO another savepoint and no SAVEPOINT of the same name.
abbrev pub IsBehind : String → SqlStatement → Type 0
IsBehind n (plain_stmt p) = Unit
IsBehind n (transaction_stmt t) = elim t.kind [
  | savepoint_kind ↦ str_eq t.savepoint n ≡ false
  | rollback_to_kind ↦ t.savepoint ≡ n
  | _ ↦ ⊥
]

-- The last snapshot of the name `n`, behind the first snapshot, is that of `t`.
abbrev pub Finds : String → Temporaries → List TemporarySnapshot → Type 0
Finds n t xs =
    (y : TemporarySnapshot) × (before : List TemporarySnapshot) × (x : TemporarySnapshot)
    × (named_after_first n xs ≡ some (y ∷ before, x))
    × (x.temporaries ≡ t)
    × (str_eq x.name n ≡ true)

last_named-append :
    (n : String) (xs : List TemporarySnapshot) (x : TemporarySnapshot)
    → str_eq x.name n ≡ true
    → last_named n (xs ++ x ∷ []) ≡ some (xs, x)
unfolding last_named
last_named-append n [] x h = rw h refl
last_named-append n (y ∷ xs) x h = rw (last_named-append n xs x h) refl

last_named-append_other :
    (n : String) (xs : List TemporarySnapshot) (x : TemporarySnapshot)
    → str_eq x.name n ≡ false
    → last_named n (xs ++ x ∷ []) ≡ last_named n xs
unfolding last_named
last_named-append_other n [] x h = rw h refl
last_named-append_other n (y ∷ xs) x h = rw (last_named-append_other n xs x h) refl

Finds-append :
    (n : String) (t : Temporaries) (y : TemporarySnapshot) (xs : List TemporarySnapshot)
    (x : TemporarySnapshot)
    → str_eq x.name n ≡ true
    → x.temporaries ≡ t
    → Finds n t (y ∷ xs ++ x ∷ [])
Finds-append n t y xs x h e =
    (y, xs, x, rw (last_named-append n xs x h, named_after_first) refl, e, h)

Finds-other :
    (n : String) (t : Temporaries) (xs : List TemporarySnapshot) (x : TemporarySnapshot)
    → str_eq x.name n ≡ false
    → Finds n t xs
    → Finds n t (xs ++ x ∷ [])
Finds-other n t [] x h (y, before, z, e, same, named) = cc
Finds-other n t (w ∷ xs) x h (y, before, z, e, same, named) =
    (y, before, z, (rw (last_named-append_other n xs x h, named_after_first) e), same, named)

or_first_self :
    (n : String) (t : Temporaries) (x : TemporarySnapshot) (xs : List TemporarySnapshot)
    → Finds n t xs
    → Finds n t (or_first x xs)
or_first_self n t x [] (y, before, z, e, same, named) = cc
or_first_self n t x (w ∷ xs) f = f

restore_found-Finds :
    (n : String) (t : Temporaries) (s : Session) (o : Found) (y x : TemporarySnapshot)
    (before : List TemporarySnapshot)
    → o ≡ some (y ∷ before, x)
    → x.temporaries ≡ t
    → str_eq x.name n ≡ true
    → (Finds n t (restore_found s o).snapshots) × ((restore_found s o).temporaries ≡ t)
restore_found-Finds n t s none y x before e same named = cc
restore_found-Finds n t s (some (ys, z)) y x before e same named =
    let found : (y ∷ before, x) ≡ (ys, z) = cc in
    subst
      (λ p.
        (Finds n t (restore_found s (some p)).snapshots)
        × ((restore_found s (some p)).temporaries ≡ t))
      found (Finds-append n t y before x named same, same)

update-Finds :
    (n : String) (t : Temporaries) (k : TransactionKind) (m : String) (c : Bool) (s : Session)
    → IsBehind n (transaction_stmt (record { kind = k; savepoint = m; chain = c }))
    → Finds n t s.snapshots
    → Finds n t
        (update_transaction_statement (record { kind = k; savepoint = m; chain = c }) s).snapshots
unfolding update_transaction_statement begin_temporary_transaction remember_temporary_savepoint
    restore_temporary_savepoint
update-Finds n t savepoint_kind m c s i f =
    Finds-other n t (or_first (temporary_snapshot "" s) s.snapshots) (temporary_snapshot m s) i
      (or_first_self n t (temporary_snapshot "" s) s.snapshots f)
update-Finds n t rollback_to_kind m c s i (y, before, x, e, same, named) =
    (restore_found-Finds n t s (named_after_first m s.snapshots) y x before
      (ap (λ z. named_after_first z s.snapshots) i ∙ e) same named).0
update-Finds n t release_kind m c s i f = elim i [ ]
update-Finds n t begin_kind m c s i f = elim i [ ]
update-Finds n t start_kind m c s i f = elim i [ ]
update-Finds n t commit_kind m c s i f = elim i [ ]
update-Finds n t rollback_kind m c s i f = elim i [ ]
update-Finds n t prepare_kind m c s i f = elim i [ ]
update-Finds n t commit_prepared_kind m c s i f = elim i [ ]
update-Finds n t rollback_prepared_kind m c s i f = elim i [ ]

apply-Finds :
    (n : String) (t : Temporaries) (xs : List SqlStatement) (s : Session)
    → All (IsBehind n) xs
    → Finds n t s.snapshots
    → Finds n t (apply_successful_sql_state xs s).snapshots
unfolding apply_successful_sql_state apply_statement
apply-Finds n t [] s i f = f
apply-Finds n t (plain_stmt p ∷ xs) s i f = apply-Finds n t xs _ i.1 f
apply-Finds n t (transaction_stmt k ∷ xs) s i f =
    apply-Finds n t xs (update_transaction_statement k s) i.1
      (update-Finds n t k.kind k.savepoint k.chain s i.0 f)

abbrev pub savepoint_stmt : String → TransactionStmt
savepoint_stmt n = record { kind = savepoint_kind; savepoint = n; chain = false }

abbrev pub rollback_to_stmt : String → TransactionStmt
rollback_to_stmt n = record { kind = rollback_to_kind; savepoint = n; chain = false }

-- SAVEPOINT n, then statements among which no savepoint is named `n`, none is released, none but
-- `n` is rolled back to and no transaction begins or ends, then ROLLBACK TO n: the temporary relations of
-- the session, the indexes on them and what a commit drops are those at the SAVEPOINT, and the
-- savepoint is still there to be rolled back to.
pub rollback_to_restores :
    (n : String) (xs : List SqlStatement) (s : Session)
    → All (IsBehind n) xs
    → ((update_transaction_statement (rollback_to_stmt n) (
          apply_successful_sql_state xs
            (update_transaction_statement (savepoint_stmt n) s))).temporaries
        ≡ s.temporaries)
      × Finds n s.temporaries
          (update_transaction_statement (rollback_to_stmt n) (
            apply_successful_sql_state xs
              (update_transaction_statement (savepoint_stmt n) s))).snapshots
unfolding update_transaction_statement begin_temporary_transaction remember_temporary_savepoint
    restore_temporary_savepoint
rollback_to_restores n xs s i = finish (apply-Finds n s.temporaries xs set i (begun s.snapshots))
  where
    set : Session
    set = update_transaction_statement (savepoint_stmt n) s

    last : Session
    last = apply_successful_sql_state xs set

    begun :
        (ys : List TemporarySnapshot)
        → Finds n s.temporaries
            (or_first (temporary_snapshot "" s) ys ++ temporary_snapshot n s ∷ [])
    begun [] =
        Finds-append n s.temporaries (temporary_snapshot "" s) [] (temporary_snapshot n s)
          (eq_refl n) refl
    begun (y ∷ ys) = Finds-append n s.temporaries y ys (temporary_snapshot n s) (eq_refl n) refl

    finish :
        Finds n s.temporaries last.snapshots
        → ((restore_temporary_savepoint n last).temporaries ≡ s.temporaries)
          × Finds n s.temporaries (restore_temporary_savepoint n last).snapshots
    finish (y, before, x, e, same, named) =
        let r =
          restore_found-Finds n s.temporaries last (named_after_first n last.snapshots) y x before e
            same named in
        (r.1, r.0)
