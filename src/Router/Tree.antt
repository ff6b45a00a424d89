-- ===== src/Router/Tree.antt =====
-- The parts of PostgreSQL's syntax trees that internal/router/router.go reads. The parser is
-- third-party: a tree here is one that it may return, with what the source asks of each node.
use hamstergres.Base.{ℕ, ℤ, String, Bool, List, Option}
use hamstergres.Router.Bytes.{Bytes}

pub record TypeName : Type 0 where
  pub names : List (Option String)  -- `none` is a node that is no String
  pub array_bounds : ℕ

pub data Constant : Type 0 where
  string_value float_value : Bytes → Constant
  integer_value : ℤ → Constant  -- int32
  bool_value : Bool → Constant
  null_value : Constant

-- `missing` is a nil pointer, `other` any kind of node that the source does not look into.
mutual
  pub data Node : Type 0 where
    missing other set_to_default : Node
    column_ref : List (Option String) → Node
    param_ref : ℕ → Node
    constant : Constant → Node
    type_cast : Option TypeName → Node → Node
    collate_clause : Node → Node
    and_expr other_bool_expr : Nodes → Node
    a_expr other_a_expr : List (Option String) → Node → Node → Node
    row_expr list_of : Nodes → Node

  pub data Nodes : Type 0 where
    end : Nodes
    node : Node → Nodes → Nodes

pub record RangeVar : Type 0 where
  pub schema_name : String
  pub relation : String
  pub alias : Option String

-- A column of an INSERT or a target of an UPDATE: `none` is a node that is no ResTarget.
pub record ResTarget : Type 0 where
  pub name : String
  pub indirect : Bool

-- `values_lists` is `none` where the source of the rows is no SELECT or VALUES.
pub record InsertStmt : Type 0 where
  pub cols : List (Option ResTarget)
  pub values_lists : Option (List Node)
  pub with_clause : Bool
  pub on_conflict : Bool

pub record UpdateStmt : Type 0 where
  pub targets : List (Option ResTarget)
