-- ===== src/Router/Statement.antt =====
-- `Prepare` of internal/router/router.go, from the parsed statement.
use hamstergres.Base.{
  ℕ, ltb, String, Bool, true, false, not, ◌&&◌, ◌||◌, List, [], ◌∷◌, Option, none, some,
  if◌then◌else◌, length, map,
}
use hamstergres.CopyRouter.Plan.{bytes_eq}
use hamstergres.CopyRouter.Keys.{codes, lower_all}
use hamstergres.Router.Tree.{Node, missing, RangeVar, InsertStmt, UpdateStmt}
use hamstergres.Router.Predicate.{relation_name}

-- An option of EXPLAIN: its argument is absent, a Boolean, a text or another node.
pub data Argument : Type 0 where
  absent other_argument : Argument
  boolean_argument : Bool → Argument
  string_argument : String → Argument

pub record DefElem : Type 0 where
  pub name : String
  pub argument : Argument

-- What `unsafeScatterReason` and `Prepare` read of a SELECT. `select_count` and `aggregates` are
-- the results of walks through the tree.
pub record SelectStmt : Type 0 where
  pub into : Bool
  pub with_clause : Bool
  pub set_operation : Bool
  pub from : List (Option RangeVar)
  pub where_clause : Node
  pub select_count : ℕ
  pub distinct : Bool
  pub aggregates : Bool
  pub grouping : Bool
  pub sorting : Bool
  pub limits : Bool
  pub locking : Bool

pub data Statement : Type 0 where
  insert_stmt : Option RangeVar → InsertStmt → Statement
  -- the relation, the WHERE clause, and whether there is a WITH or a FROM (USING)
  update_stmt : Option RangeVar → UpdateStmt → Node → Bool → Statement
  delete_stmt : Option RangeVar → Node → Bool → Statement
  copy_stmt : Bool → Option RangeVar → Statement
  merge_stmt : Option RangeVar → Statement
  select_stmt : SelectStmt → Statement
  show_stmt other_stmt : Statement
  explain_stmt : List DefElem → Statement → Statement

-- A text as parsed: its statements (`none` is an empty one), and the results of the walks through
-- all of the tree: whether it writes, its highest parameter, and its relations.
pub record Parsed : Type 0 where
  pub statements : List (Option Statement)
  pub writes : Bool
  pub maximum_parameter : ℕ
  pub relations : List RangeVar

pub data ScatterReason : Type 0 where
  set_operations subqueries joins distinct_rows aggregation ordering limits row_locks :
      ScatterReason

pub record RoutePlan : Type 0 where
  pub table : String
  pub write : Bool
  pub sharded : Bool
  pub target : String
  pub routed : Bool
  pub single_burrow : Bool
  pub deterministic : Bool
  pub scatter_error : Option ScatterReason

pub record Prepared : Type 0 where
  pub plan : RoutePlan
  pub relation : Option RangeVar
  pub predicate : Node
  pub insert : Option InsertStmt
  pub update : Option UpdateStmt
  pub physical_relations : ℕ
  pub maximum_parameter : ℕ
  pub read : Bool
  pub relations : List String
  pub scatter_error : Option ScatterReason

abbrev pub empty_plan : RoutePlan
empty_plan = record {
  table = "";
  write = false;
  sharded = false;
  target = "";
  routed = false;
  single_burrow = false;
  deterministic = false;
  scatter_error = none;
}

-- strings.EqualFold and strings.ToLower against an ASCII text
abbrev pub is_text : String → String → Bool
is_text s t = bytes_eq (lower_all (codes s)) (codes t)

-- The value of the option `analyze`.
abbrev pub analyze_value : Argument → Bool
analyze_value absent = true
analyze_value other_argument = true
analyze_value (boolean_argument b) = b
analyze_value (string_argument s) =
    not (is_text s "false" || is_text s "off" || is_text s "no" || is_text s "0")

unfoldable pub explain_analyze : List DefElem → Bool
explain_analyze [] = false
explain_analyze (o ∷ os) =
    let rest = explain_analyze os in
    if is_text o.name "analyze" then analyze_value o.argument else rest

unfoldable pub unsafe_scatter_reason : SelectStmt → ℕ → Option ScatterReason
unsafe_scatter_reason s physical_relations =
    if s.set_operation
    then some set_operations
    else if s.with_clause || ltb 1 s.select_count
    then some subqueries
    else if ltb 1 physical_relations
    then some joins
    else if s.distinct
    then some distinct_rows
    else if s.aggregates || s.grouping
    then some aggregation
    else if s.sorting
    then some ordering
    else if s.limits
    then some limits
    else if s.locking
    then some row_locks
    else none

-- A predicate that a WITH or a second relation keeps from routing.
abbrev pub unless : Bool → Node → Node
unless true n = missing
unless false n = n

abbrev pub writing : RoutePlan → RoutePlan
writing p = record p { write = true }

abbrev pub only_relation : List (Option RangeVar) → Option (Option RangeVar)
only_relation (r ∷ []) = some r
only_relation _ = none

abbrev pub prepare_select : Prepared → SelectStmt → Option (Option RangeVar) → Prepared
prepare_select p s none = p
prepare_select p s (some r) =
    if not s.with_clause && not s.set_operation
    then record p { relation = r; predicate = s.where_clause }
    else p

-- The cases that `prepareExplainWrite` shares with `Prepare`.
unfoldable pub prepare_write : Prepared → Statement → Prepared
prepare_write p (insert_stmt r i) = record p {
  plan = writing p.plan;
  insert = some i;
  relation = r;
}
prepare_write p (update_stmt r u w others) = record p {
  plan = writing p.plan;
  update = some u;
  relation = r;
  predicate = unless others w;
}
prepare_write p (delete_stmt r w others) = record p {
  plan = writing p.plan;
  relation = r;
  predicate = unless others w;
}
prepare_write p (merge_stmt r) = record p { plan = writing p.plan; relation = r }
prepare_write p _ = p

unfoldable pub prepare_statement : Prepared → Statement → Prepared
prepare_statement p (copy_stmt from r) = record p {
  plan = record (p.plan) { write = from };
  relation = r;
}
prepare_statement p (select_stmt s) =
    prepare_select (record p { read = not s.into }) s (only_relation s.from)
prepare_statement p show_stmt = record p { read = true }
prepare_statement p (explain_stmt options inner) =
    if explain_analyze options && p.plan.write
    then prepare_write p inner
    else record p { plan = record (p.plan) { single_burrow = true } }
prepare_statement p s = prepare_write p s

abbrev pub scatter_reason : Statement → ℕ → Option ScatterReason
scatter_reason (select_stmt s) n = unsafe_scatter_reason s n
scatter_reason _ n = none

abbrev pub with_table : Prepared → Option RangeVar → Prepared
with_table p none = p
with_table p (some r) = record p { plan = record (p.plan) { table = relation_name r } }

-- What is known of every text.
abbrev pub started : Parsed → Prepared
started t = record {
  plan = record empty_plan { write = t.writes };
  relation = none;
  predicate = missing;
  insert = none;
  update = none;
  physical_relations = 0;
  maximum_parameter = t.maximum_parameter;
  read = false;
  relations = [];
  scatter_error = none;
}

abbrev pub gathered : Parsed → Statement → Prepared → Prepared
gathered t s p =
    let names = map relation_name t.relations in
    record p {
      relations = names;
      physical_relations = length names;
      scatter_error = scatter_reason s (length names);
    }

abbrev pub prepare_only : Parsed → List (Option Statement) → Prepared
prepare_only t (some s ∷ []) =
    let p = gathered t s (prepare_statement (started t) s) in with_table p p.relation
prepare_only t _ = started t

unfoldable pub prepare : Parsed → Prepared
prepare t = prepare_only t t.statements
