-- ===== src/Proxy/Session/Rollback.antt =====
-- The temporary relations of a session over a transaction: what ROLLBACK and ROLLBACK TO bring
-- back (internal/proxy/server.go).
use hamstergres.Base.{
  ◌≡◌, refl, String, Bool, true, false, List, [], ◌∷◌, ◌++◌, Option, none, some, All,
}
use hamstergres.Proxy.Temporary.{Temporaries}
use hamstergres.Proxy.Session.{
  TemporarySnapshot, Session, TransactionKind, begin_kind, start_kind, commit_kind, rollback_kind,
  savepoint_kind, release_kind, rollback_to_kind, prepare_kind, commit_prepared_kind,
  rollback_prepared_kind, TransactionStmt, temporary_snapshot, or_first,
  begin_temporary_transaction, remember_temporary_savepoint, last_named, named_after_first,
  restore_found, restore_temporary_savepoint, release_found, release_temporary_savepoint,
  first_temporaries, finish_temporary_transaction, reset, update_transaction_statement,
  SqlStatement, transaction_stmt, plain_stmt, apply_statement, apply_successful_sql_state,
}

-- A statement that neither starts nor ends a transaction, as one inside of it.
abbrev pub IsInside : SqlStatement → Type 0
IsInside (plain_stmt p) = Unit
IsInside (transaction_stmt t) = elim t.kind [
  | savepoint_kind ↦ Unit
  | release_kind ↦ Unit
  | rollback_to_kind ↦ Unit
  | _ ↦ ⊥
]

-- The oldest snapshot is that of the temporary relations `t`.
abbrev pub StartsWith : Temporaries → List TemporarySnapshot → Type 0
StartsWith t [] = ⊥
StartsWith t (x ∷ xs) = x.temporaries ≡ t

StartsWith-append :
    (t : Temporaries) (xs ys : List TemporarySnapshot) → StartsWith t xs → StartsWith t (xs ++ ys)
StartsWith-append t [] ys h = elim h [ ]
StartsWith-append t (x ∷ xs) ys h = h

StartsWith-or_first :
    (t : Temporaries) (x : TemporarySnapshot) (xs : List TemporarySnapshot)
    → StartsWith t xs
    → StartsWith t (or_first x xs)
StartsWith-or_first t x [] h = elim h [ ]
StartsWith-or_first t x (y ∷ ys) h = h

-- What stays of the snapshots behind a savepoint that was found still starts with the oldest one.
abbrev FoundStartsWith : Temporaries → Option (List TemporarySnapshot × TemporarySnapshot) → Type 0
FoundStartsWith t none = Unit
FoundStartsWith t (some (before, x)) = StartsWith t before

named_after_first-FoundStartsWith :
    (t : Temporaries) (n : String) (xs : List TemporarySnapshot)
    → StartsWith t xs
    → FoundStartsWith t (named_after_first n xs)
named_after_first-FoundStartsWith t n [] h = elim h [ ]
named_after_first-FoundStartsWith t n (x ∷ xs) h = step (last_named n xs)
  where
    step :
        (o : Option (List TemporarySnapshot × TemporarySnapshot))
        → FoundStartsWith t (elim o [ some found ↦ some (x ∷ found.0, found.1) | none ↦ none ])
    step none = tt
    step (some found) = h

restore_found-StartsWith :
    (t : Temporaries) (s : Session) (o : Option (List TemporarySnapshot × TemporarySnapshot))
    → StartsWith t s.snapshots
    → FoundStartsWith t o
    → StartsWith t (restore_found s o).snapshots
restore_found-StartsWith t s none h f = h
restore_found-StartsWith t s (some (before, x)) h f = StartsWith-append t before (x ∷ []) f

release_found-StartsWith :
    (t : Temporaries) (s : Session) (o : Option (List TemporarySnapshot × TemporarySnapshot))
    → StartsWith t s.snapshots
    → FoundStartsWith t o
    → StartsWith t (release_found s o).snapshots
release_found-StartsWith t s none h f = h
release_found-StartsWith t s (some (before, x)) h f = f

update-StartsWith :
    (t : Temporaries) (k : TransactionKind) (n : String) (c : Bool) (s : Session)
    → IsInside (transaction_stmt (record { kind = k; savepoint = n; chain = c }))
    → StartsWith t s.snapshots
    → StartsWith t
        (update_transaction_statement (record { kind = k; savepoint = n; chain = c }) s).snapshots
unfolding update_transaction_statement begin_temporary_transaction remember_temporary_savepoint
    restore_temporary_savepoint release_temporary_savepoint
update-StartsWith t savepoint_kind n c s i h =
    StartsWith-append t (or_first (temporary_snapshot "" s) s.snapshots) _
      (StartsWith-or_first t (temporary_snapshot "" s) s.snapshots h)
update-StartsWith t release_kind n c s i h =
    release_found-StartsWith t s (named_after_first n s.snapshots) h
      (named_after_first-FoundStartsWith t n s.snapshots h)
update-StartsWith t rollback_to_kind n c s i h =
    restore_found-StartsWith t s (named_after_first n s.snapshots) h
      (named_after_first-FoundStartsWith t n s.snapshots h)
update-StartsWith t begin_kind n c s i h = elim i [ ]
update-StartsWith t start_kind n c s i h = elim i [ ]
update-StartsWith t commit_kind n c s i h = elim i [ ]
update-StartsWith t rollback_kind n c s i h = elim i [ ]
update-StartsWith t prepare_kind n c s i h = elim i [ ]
update-StartsWith t commit_prepared_kind n c s i h = elim i [ ]
update-StartsWith t rollback_prepared_kind n c s i h = elim i [ ]

apply-StartsWith :
    (t : Temporaries) (xs : List SqlStatement) (s : Session)
    → All IsInside xs
    → StartsWith t s.snapshots
    → StartsWith t (apply_successful_sql_state xs s).snapshots
unfolding apply_successful_sql_state apply_statement
apply-StartsWith t [] s i h = h
apply-StartsWith t (plain_stmt p ∷ xs) s i h = apply-StartsWith t xs _ i.1 h
apply-StartsWith t (transaction_stmt k ∷ xs) s i h =
    apply-StartsWith t xs (update_transaction_statement k s) i.1
      (update-StartsWith t k.kind k.savepoint k.chain s i.0 h)

first_temporaries-StartsWith :
    (t u : Temporaries) (xs : List TemporarySnapshot) → StartsWith t xs → first_temporaries u xs ≡ t
first_temporaries-StartsWith t u [] h = elim h [ ]
first_temporaries-StartsWith t u (x ∷ xs) h = h

abbrev pub begin_stmt : TransactionStmt
begin_stmt = record { kind = begin_kind; savepoint = ""; chain = false }

abbrev pub rollback_stmt : Bool → TransactionStmt
rollback_stmt c = record { kind = rollback_kind; savepoint = ""; chain = c }

-- A session in no transaction, where no snapshot is left, runs BEGIN, any statements that neither
-- end the transaction nor are another BEGIN (savepoints, releases and rollbacks to a savepoint among
-- them) and ROLLBACK, with or without AND CHAIN: its temporary relations, the indexes on them and what a commit drops
-- are then those before the BEGIN.
pub rollback_restores :
    (xs : List SqlStatement) (s : Session) (c : Bool)
    → s.snapshots ≡ []
    → All IsInside xs
    → (update_transaction_statement
        (rollback_stmt c)
        (apply_successful_sql_state xs (update_transaction_statement begin_stmt s))).temporaries
      ≡ s.temporaries
unfolding update_transaction_statement finish_temporary_transaction begin_temporary_transaction
rollback_restores xs s c e i = finished c
  where
    begun : Session
    begun = reset true (begin_temporary_transaction s)

    starts :
        (ys : List TemporarySnapshot)
        → ys ≡ []
        → StartsWith s.temporaries (or_first (temporary_snapshot "" s) ys)
    starts [] h = refl
    starts (y ∷ ys) h = cc

    kept :
        first_temporaries
          (apply_successful_sql_state xs begun).temporaries
          (apply_successful_sql_state xs begun).snapshots
        ≡ s.temporaries
    kept =
        first_temporaries-StartsWith s.temporaries _ _
          (apply-StartsWith s.temporaries xs begun i (starts s.snapshots e))

    finished :
        (d : Bool)
        → (update_transaction_statement
            (rollback_stmt d)
            (apply_successful_sql_state xs begun)).temporaries
          ≡ s.temporaries
    finished true = kept
    finished false = kept
