-- ===== src/Tests/Proxy.antt =====
-- internal/proxy/server.go: commits on servers kept in memory, and sessions.
use hamstergres.Base.{
  map, find_by, Distinct, ◌≡◌, ◌≢◌, inr, refl, sym, ap, ◌∙◌, String, str_eq, eq_refl, true, false,
  List, [], ◌∷◌, Option, none, some, arith, if◌then◌else◌,
}
use hamstergres.Base.GoMap.{GoMap, get, put, delete, get-put}
use hamstergres.Router.Statement.{RoutePlan, empty_plan}
use hamstergres.Proxy.TwoPhase.{
  Command, begin, rollback, prepare, commit_prepared, rollback_prepared, Failure, Fleet,
  commit_two_phase, rollback_all, prepare_all, commit_all,
}
use hamstergres.Proxy.TwoPhase.Postgres.{
  TxState, idle, active, failed, prepared, committed, aborted, IsPostgres,
}
use hamstergres.Proxy.TwoPhase.Atomic.{CommitOutcome, commit_two_phase_atomic}
use hamstergres.Proxy.Temporary.{no_temporaries, create_stmt, on_commit_other}
use hamstergres.Proxy.Session.{
  SessionStatePolicy, commit_session_state, Session, SqlStatement, transaction_stmt, plain_stmt,
  update_transaction_statement, apply_successful_sql_state,
}
use hamstergres.Proxy.Session.Settings.{setting_name, commit_session_state_lookup}
use hamstergres.Proxy.Session.Rollback.{begin_stmt, rollback_stmt, rollback_restores}
use hamstergres.Proxy.Session.Savepoint.{
  savepoint_stmt, rollback_to_stmt, Finds, rollback_to_restores,
}
use hamstergres.Proxy.Route.{Unsharded, route_plan}
use hamstergres.Proxy.Route.Decisions.{Decides, route_plan-Decides}

-- A transaction on a server that is always reached; `none` is an error of PostgreSQL.
abbrev next_state : Command → TxState → Option TxState
next_state begin idle = some active
next_state prepare active = some prepared
next_state commit_prepared prepared = some committed
next_state prepare failed = some aborted
next_state rollback active = some aborted
next_state rollback failed = some aborted
next_state rollback_prepared prepared = some aborted
next_state _ _ = none

abbrev World : Type 0
World = GoMap TxState

abbrev state_in : World → String → TxState
state_in w b = elim (get b w) [ none ↦ idle | some t ↦ t ]

abbrev change : String → World → Option TxState → Option Failure × World
change b w none = (some "25000", w)
change b w (some t) = (none, put b t w)

abbrev servers : Fleet
servers = record { World = World; run = λ b k w. change b w (next_state k (state_in w b)) }

state-put :
    (b c : String) (t : TxState) (w : World)
    → state_in (put b t w) c ≡ (if str_eq b c then t else state_in w c)
state-put b c t w = ground (arith, get-put b c t w)

change-away :
    (b c : String) (w : World) (o : Option TxState)
    → str_eq b c ≡ false
    → state_in (change b w o).1 c ≡ state_in w c
change-away b c w none e = refl
change-away b c w (some t) e = rw e at (state-put b c t w)

-- The state of the server after a command.
abbrev or_same : TxState → Option TxState → TxState
or_same s none = s
or_same s (some t) = t

change-here :
    (b : String) (w : World) (o : Option TxState)
    → state_in (change b w o).1 b ≡ or_same (state_in w b) o
change-here b w none = refl
change-here b w (some t) = rw (eq_refl b) at (state-put b b t w)

change-done :
    (b : String) (w : World) (s : TxState) (o : Option TxState)
    → (change b w o).0 ≡ none
    → (t : TxState) × (o ≡ some t)
change-done b w s none e = cc
change-done b w s (some t) e = (t, refl)

prepare_next : (s t : TxState) → s ≡ active → next_state prepare s ≡ some t → t ≡ prepared
prepare_next active t h e = cc
prepare_next idle t h e = cc
prepare_next failed t h e = cc
prepare_next prepared t h e = cc
prepare_next committed t h e = cc
prepare_next aborted t h e = cc

commit_next : (s t : TxState) → next_state commit_prepared s ≡ some t → t ≡ committed
commit_next prepared t e = cc
commit_next idle t e = cc
commit_next failed t e = cc
commit_next active t e = cc
commit_next committed t e = cc
commit_next aborted t e = cc

committed_next : (k : Command) → next_state k committed ≡ none
committed_next begin = refl
committed_next rollback = refl
committed_next prepare = refl
committed_next commit_prepared = refl
committed_next rollback_prepared = refl

only_commit_next :
    (k : Command) (s : TxState)
    → k ≢ commit_prepared
    → or_same s (next_state k s) ≡ committed
    → s ≡ committed
only_commit_next commit_prepared s h e = absurd (h refl)
only_commit_next k committed h e = refl
only_commit_next begin idle h e = cc
only_commit_next begin active h e = cc
only_commit_next begin failed h e = cc
only_commit_next begin prepared h e = cc
only_commit_next begin aborted h e = cc
only_commit_next rollback idle h e = cc
only_commit_next rollback active h e = cc
only_commit_next rollback failed h e = cc
only_commit_next rollback prepared h e = cc
only_commit_next rollback aborted h e = cc
only_commit_next prepare idle h e = cc
only_commit_next prepare active h e = cc
only_commit_next prepare failed h e = cc
only_commit_next prepare prepared h e = cc
only_commit_next prepare aborted h e = cc
only_commit_next rollback_prepared idle h e = cc
only_commit_next rollback_prepared active h e = cc
only_commit_next rollback_prepared failed h e = cc
only_commit_next rollback_prepared prepared h e = cc
only_commit_next rollback_prepared aborted h e = cc

succeeds :
    (b : String) (k : Command) (w : World) (u : TxState)
    → ((t : TxState) → next_state k (state_in w b) ≡ some t → t ≡ u)
    → (change b w (next_state k (state_in w b))).0 ≡ none
    → state_in (change b w (next_state k (state_in w b))).1 b ≡ u
succeeds b k w u to done =
    let (t, e) = change-done b w u (next_state k (state_in w b)) done in
    change-here b w (next_state k (state_in w b)) ∙ ap (or_same (state_in w b)) e ∙ to t e

servers-IsPostgres : IsPostgres servers
servers-IsPostgres = record {
  state = state_in;
  elsewhere = λ b c k w e. change-away b c w (next_state k (state_in w b)) e;
  prepares = λ b w begun done.
      succeeds b prepare w prepared (λ t. prepare_next (state_in w b) t begun) done;
  commits = λ b w done. succeeds b commit_prepared w committed (commit_next (state_in w b)) done;
  commits_or_not = λ b w h. inr (
      change-here b w (next_state commit_prepared (state_in w b))
      ∙ ap (λ s. or_same s (next_state commit_prepared s)) h);
  lasts = λ b k w h.
      change-here b w (next_state k (state_in w b))
      ∙ ap (λ s. or_same s (next_state k s)) h
      ∙ ap (or_same committed) (committed_next k);
  only_commit_commits = λ b k w h e.
      only_commit_next k (state_in w b) h (sym (change-here b w (next_state k (state_in w b))) ∙ e);
}

-- Two Burrows take part, the third one does not.
abbrev in_transaction : World
in_transaction = ("a", active) ∷ ("b", active) ∷ ("c", active) ∷ []

abbrev shards : List String
shards = "a" ∷ "b" ∷ "c" ∷ []

abbrev written : List String
written = "a" ∷ "b" ∷ []

commits_both : (commit_two_phase servers shards written in_transaction).0 ≡ none
unfolding commit_two_phase rollback_all prepare_all commit_all get put delete
commits_both = refl

commit_two_phase_atomic_example :
    CommitOutcome servers servers-IsPostgres written in_transaction
      (commit_two_phase servers shards written in_transaction)
unfolding servers-IsPostgres get
commit_two_phase_atomic_example =
    commit_two_phase_atomic servers servers-IsPostgres shards written in_transaction
      (refl, (refl, tt)) (refl, (refl, tt))

abbrev session : Session
session = record {
  transaction = false;
  transaction_failed = false;
  mutated = false;
  target = "";
  write_participants = [];
  temporaries = no_temporaries;
  snapshots = [];
  affinity = false;
  destroy = false;
  discard_prepared = false;
  settings = [];
}

abbrev create_items : SqlStatement
create_items = plain_stmt (
    create_stmt (some (record { schema_name = ""; relation = "items"; persistence = "t" }))
      on_commit_other)

-- CREATE TEMP TABLE items; SAVEPOINT s; CREATE TEMP TABLE items; ROLLBACK TO s
abbrev in_between : List SqlStatement
in_between =
    create_items
    ∷ transaction_stmt (savepoint_stmt "s")
    ∷ create_items
    ∷ transaction_stmt (rollback_to_stmt "s")
    ∷ []

rollback_restores_example :
    (update_transaction_statement (rollback_stmt true) (
      apply_successful_sql_state in_between
        (update_transaction_statement begin_stmt session))).temporaries
    ≡ session.temporaries
rollback_restores_example =
    rollback_restores in_between session true refl (tt, (tt, (tt, (tt, tt))))

-- SAVEPOINT r; then a table, another savepoint and a rollback to the first one.
abbrev behind : List SqlStatement
behind =
    create_items
    ∷ transaction_stmt (savepoint_stmt "s")
    ∷ transaction_stmt (rollback_to_stmt "r")
    ∷ []

rollback_to_restores_example :
    ((update_transaction_statement (rollback_to_stmt "r") (
        apply_successful_sql_state behind
          (update_transaction_statement (savepoint_stmt "r") session))).temporaries
      ≡ session.temporaries)
    × Finds "r" session.temporaries
        (update_transaction_statement (rollback_to_stmt "r") (
          apply_successful_sql_state behind
            (update_transaction_statement (savepoint_stmt "r") session))).snapshots
rollback_to_restores_example = rollback_to_restores "r" behind session (tt, (refl, (refl, tt)))

-- A read of a table that is not sharded, with replicas on each Burrow.
abbrev replicated : Unsharded
replicated = record { primary_mode = false; primary = "" }

abbrev read_zones : RoutePlan
read_zones = record empty_plan { table = "zones" }

route_plan-Decides_example :
    Decides replicated read_zones shards
      (route_plan replicated 0 (some 5) read_zones shards).target
      (route_plan replicated 0 (some 5) read_zones shards).routed
route_plan-Decides_example = route_plan-Decides replicated 0 (some 5) read_zones shards

abbrev set_zone : SessionStatePolicy
set_zone = record {
  pin = false;
  destroy = false;
  discard_prepared = false;
  reset_all = false;
  replay_name = "timezone";
  replay_sql = "SET timezone = 'UTC'";
}

abbrev with_zone : Session
with_zone = record session {
  settings = record { name = "timezone"; sql = "SET timezone = 'CET'" } ∷ [];
}

commit_session_state_lookup_example :
    Distinct (map setting_name (commit_session_state set_zone with_zone).settings)
    × ((k : String)
        → find_by setting_name k (commit_session_state set_zone with_zone).settings ≡ (
            if set_zone.reset_all
            then none
            else if str_eq set_zone.replay_name ""
            then find_by setting_name k with_zone.settings
            else if str_eq set_zone.replay_name k
            then some (record { name = set_zone.replay_name; sql = set_zone.replay_sql })
            else find_by setting_name k with_zone.settings))
commit_session_state_lookup_example = commit_session_state_lookup set_zone with_zone (refl, tt)
