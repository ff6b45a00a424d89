-- ===== src/Proxy/Session.antt =====
-- `extendedState` of internal/proxy/server.go: the transaction of a session, its savepoints for the
-- temporary relations, and the settings that are replayed on another connection.
pub mod Rollback
pub mod Savepoint
pub mod Settings
use hamstergres.Base.{
  ℕ, String, str_eq, Bool, true, false, not, ◌&&◌, ◌||◌, List, [], ◌∷◌, ◌++◌, Option, none, some,
  if◌then◌else◌,
}
use hamstergres.Base.GoMap.{GoMap, put}
use hamstergres.Proxy.Temporary.{
  Set, Statement, Temporaries, put_all, remember_temporary_statement, apply_on_commit_drop,
}

pub record TemporarySnapshot : Type 0 where
  pub name : String
  pub temporaries : Temporaries

pub record SessionSetting : Type 0 where
  pub name : String
  pub sql : String

pub record Session : Type 0 where
  pub transaction : Bool
  pub transaction_failed : Bool
  pub mutated : Bool
  pub target : String
  pub write_participants : Set
  pub temporaries : Temporaries
  pub snapshots : List TemporarySnapshot  -- the oldest first
  pub affinity : Bool
  pub destroy : Bool
  pub discard_prepared : Bool
  pub settings : List SessionSetting

pub data TransactionKind : Type 0 where
  begin_kind start_kind commit_kind rollback_kind savepoint_kind release_kind rollback_to_kind :
      TransactionKind
  prepare_kind commit_prepared_kind rollback_prepared_kind : TransactionKind

pub record TransactionStmt : Type 0 where
  pub kind : TransactionKind
  pub savepoint : String
  pub chain : Bool

abbrev pub temporary_snapshot : String → Session → TemporarySnapshot
temporary_snapshot n s = record { name = n; temporaries = s.temporaries }

abbrev pub or_first : TemporarySnapshot → List TemporarySnapshot → List TemporarySnapshot
or_first x [] = x ∷ []
or_first x (y ∷ ys) = y ∷ ys

unfoldable pub begin_temporary_transaction : Session → Session
begin_temporary_transaction s = record s {
  snapshots = or_first (temporary_snapshot "" s) s.snapshots;
}

unfoldable pub remember_temporary_savepoint : String → Session → Session
unfolding begin_temporary_transaction
remember_temporary_savepoint n s =
    let t = begin_temporary_transaction s in
    record t { snapshots = t.snapshots ++ temporary_snapshot n t ∷ [] }

-- The last snapshot of that name with those before it.
unfoldable pub last_named :
    String → List TemporarySnapshot → Option (List TemporarySnapshot × TemporarySnapshot)
last_named n [] = none
last_named n (x ∷ xs) = elim (last_named n xs) [
  | some found ↦ some (x ∷ found.0, found.1)
  | none ↦ if str_eq x.name n then some ([], x) else none
]

-- for index := len(state.temporarySnapshots) - 1; index >= 1; index--
abbrev pub named_after_first :
    String → List TemporarySnapshot → Option (List TemporarySnapshot × TemporarySnapshot)
named_after_first n [] = none
named_after_first n (x ∷ xs) = elim (last_named n xs) [
  | some found ↦ some (x ∷ found.0, found.1)
  | none ↦ none
]

abbrev pub restore_found : Session → Option (List TemporarySnapshot × TemporarySnapshot) → Session
restore_found s none = s
restore_found s (some (before, x)) = record s {
  temporaries = x.temporaries;
  snapshots = before ++ x ∷ [];
}

unfoldable pub restore_temporary_savepoint : String → Session → Session
restore_temporary_savepoint n s = restore_found s (named_after_first n s.snapshots)

abbrev pub release_found : Session → Option (List TemporarySnapshot × TemporarySnapshot) → Session
release_found s none = s
release_found s (some (before, x)) = record s { snapshots = before }

unfoldable pub release_temporary_savepoint : String → Session → Session
release_temporary_savepoint n s = release_found s (named_after_first n s.snapshots)

abbrev pub first_temporaries : Temporaries → List TemporarySnapshot → Temporaries
first_temporaries t [] = t
first_temporaries t (x ∷ xs) = x.temporaries

unfoldable pub finish_temporary_transaction : Bool → Bool → Session → Session
unfolding begin_temporary_transaction
finish_temporary_transaction commit chain s =
    let t = record s {
      temporaries =
          if commit
          then apply_on_commit_drop s.temporaries
          else first_temporaries s.temporaries s.snapshots;
      snapshots = [];
    } in
    if chain then begin_temporary_transaction t else t

-- The fields that every end of a transaction resets.
abbrev pub reset : Bool → Session → Session
reset transaction s = record s {
  transaction = transaction;
  transaction_failed = false;
  target = "";
  mutated = false;
  write_participants = [];
}

unfoldable pub update_transaction_statement : TransactionStmt → Session → Session
update_transaction_statement t s = elim t.kind [
  | begin_kind ↦ reset true (begin_temporary_transaction s)
  | start_kind ↦ reset true (begin_temporary_transaction s)
  | savepoint_kind ↦ remember_temporary_savepoint t.savepoint s
  | rollback_to_kind ↦ record (restore_temporary_savepoint t.savepoint s) {
    transaction = true;
    transaction_failed = false;
  }
  | release_kind ↦ release_temporary_savepoint t.savepoint s
  | commit_kind ↦ reset t.chain (finish_temporary_transaction true t.chain s)
  | rollback_kind ↦ reset t.chain (finish_temporary_transaction false t.chain s)
  | prepare_kind ↦ reset false s
  | commit_prepared_kind ↦ reset false s
  | rollback_prepared_kind ↦ reset false s
]

-- A statement that the servers have run.
pub data SqlStatement : Type 0 where
  transaction_stmt : TransactionStmt → SqlStatement
  plain_stmt : Statement → SqlStatement

unfoldable pub apply_statement : SqlStatement → Session → Session
apply_statement (transaction_stmt t) s = update_transaction_statement t s
apply_statement (plain_stmt p) s = record s {
  temporaries = remember_temporary_statement s.transaction p s.temporaries;
}

-- for _, raw := range tree.Stmts
unfoldable pub apply_successful_sql_state : List SqlStatement → Session → Session
apply_successful_sql_state [] s = s
apply_successful_sql_state (x ∷ xs) s = apply_successful_sql_state xs (apply_statement x s)

-- `routed` says whether the statement is a write that is recorded.
unfoldable pub record_write_participants : Bool → List String → Session → Session
record_write_participants is_write targets s =
    if not s.transaction || not is_write
    then s
    else record s { write_participants = put_all targets tt s.write_participants; mutated = true }

pub record SessionStatePolicy : Type 0 where
  pub pin : Bool
  pub destroy : Bool
  pub discard_prepared : Bool
  pub reset_all : Bool
  pub replay_name : String
  pub replay_sql : String

unfoldable pub begin_session_state : SessionStatePolicy → Session → Session
begin_session_state p s = record s {
  affinity = s.affinity || p.pin;
  destroy = s.destroy || p.destroy;
  discard_prepared = s.discard_prepared || p.discard_prepared;
}

-- The policy of the statement alone is an argument.
unfoldable pub classify_session_state : SessionStatePolicy → Session → SessionStatePolicy
classify_session_state p s =
    if s.transaction && (not (str_eq p.replay_name "") || p.reset_all)
    then record p { pin = true; replay_name = ""; replay_sql = ""; reset_all = false }
    else p

abbrev pub other_settings : String → List SessionSetting → List SessionSetting
other_settings n [] = []
other_settings n (x ∷ xs) =
    let rest = other_settings n xs in if str_eq x.name n then rest else x ∷ rest

unfoldable pub commit_session_state : SessionStatePolicy → Session → Session
commit_session_state p s =
    if p.reset_all
    then record s { settings = []; affinity = s.destroy; discard_prepared = false }
    else if str_eq p.replay_name ""
    then s
    else record s {
      settings =
          other_settings p.replay_name s.settings
          ++ (record { name = p.replay_name; sql = p.replay_sql }) ∷ [];
    }

abbrev pub replay_of : List SessionSetting → List String
replay_of [] = []
replay_of (x ∷ xs) = x.sql ∷ replay_of xs

abbrev pub session_replay_sql : Session → List String
session_replay_sql s = replay_of s.settings
