-- ===== src/Router/Predicate.antt =====
-- The values that a predicate or a row gives to the shard key: `collectEqualities`,
-- `insertKeyValues` and what they call, of internal/router/router.go.
pub mod Equalities
pub mod Texts
pub mod Values
pub mod Sound
pub mod Inserted
use Prim.Native.String.{◌++◌ as ◌++ₛ◌}
use hamstergres.Base.{
  ℕ, zero, suc, ◌+◌, ◌-◌, ◌==◌, ltb, ℤ, pos, negsuc, String, str_eq, Bool, true, false, not, ◌&&◌,
  ◌||◌, List, [], ◌∷◌, ◌++◌, Option, none, some, is_present, Result, ok, err, ◌>>=◌, ◌>>◌, refuse,
  if◌then◌else◌, length, get_elem?, contains,
}
use hamstergres.Base.GoMap.{GoMap, get, put}
use hamstergres.CopyRouter.Keys.{decimal}
use hamstergres.Router.Bytes.{Bytes}
use hamstergres.Router.Decimal.{ScalarError, rejected}
use hamstergres.Router.Scalar.{FloatText, canonical_scalar}
use hamstergres.Router.Tree.{
  TypeName, Constant, string_value, float_value, integer_value, bool_value, null_value, Node,
  missing, other, set_to_default, column_ref, param_ref, constant, type_cast, collate_clause,
  and_expr, other_bool_expr, a_expr, other_a_expr, row_expr, list_of, Nodes, end, node, RangeVar,
  ResTarget, InsertStmt, UpdateStmt,
}

abbrev pub relation_name : RangeVar → String
relation_name r =
    if str_eq r.schema_name "" then r.relation else r.schema_name ++ₛ "." ++ₛ r.relation

-- All names, or `none` if a node is no String.
abbrev pub all_names : List (Option String) → Option (List String)
all_names [] = some []
all_names (none ∷ names) = none
all_names (some n ∷ names) = elim (all_names names) [ none ↦ none | some ns ↦ some (n ∷ ns) ]

abbrev pub alias_or_relation : RangeVar → String
alias_or_relation r = elim r.alias [ none ↦ r.relation | some a ↦ a ]

abbrev pub valid_qualifier : RangeVar → String → List String → Bool
valid_qualifier r a [] = str_eq a (alias_or_relation r)
valid_qualifier r a (b ∷ []) = str_eq a r.schema_name && str_eq b r.relation
valid_qualifier r a (b ∷ c ∷ rest) = false

-- The last of one to three names, with a qualifier that is the relation's.
abbrev pub column_of : RangeVar → List String → Option String
column_of r (c ∷ []) = some c
column_of r (a ∷ c ∷ []) = if valid_qualifier r a [] then some c else none
column_of r (a ∷ b ∷ c ∷ []) = if valid_qualifier r a (b ∷ []) then some c else none
column_of r _ = none

unfoldable pub column_name : RangeVar → Node → Option String
column_name r (column_ref fields) = elim (all_names fields) [
  | none ↦ none
  | some parts ↦ column_of r parts
]
column_name r _ = none

abbrev pub operator_name : List (Option String) → String
operator_name (some n ∷ []) = n
operator_name _ = ""

abbrev pub node_list : Nodes → List Node
node_list end = []
node_list (node n ns) = n ∷ node_list ns

abbrev pub row_items : Node → List Node
row_items (row_expr args) = node_list args
row_items (list_of args) = node_list args
row_items _ = []

-- values[column] = value, unless the column has one already
abbrev pub add_value : Option String → Node → GoMap Node → Option (GoMap Node)
add_value none value values = some values
add_value (some column) value values =
    if is_present (get column values) then none else some (put column value values)

unfoldable pub collect_equality : RangeVar → Node → Node → GoMap Node → Option (GoMap Node)
collect_equality r left right values = elim (column_name r left) [
  | some column ↦ add_value (some column) right values
  | none ↦ add_value (column_name r right) left values
]

abbrev pub and_then {ℓ} : {A : Type ℓ} → Option A → (A → Option A) → Option A
and_then none f = none
and_then (some a) f = f a

-- for index := range leftRow; rows of different lengths are refused
unfoldable pub collect_rows : RangeVar → List Node → List Node → GoMap Node → Option (GoMap Node)
collect_rows r [] [] values = some values
collect_rows r (a ∷ as') (b ∷ bs) values =
    and_then (collect_equality r a b values) (collect_rows r as' bs)
collect_rows r _ _ values = none

abbrev pub is_nil {ℓ} : {A : Type ℓ} → List A → Bool
is_nil [] = true
is_nil (x ∷ xs) = false

unfoldable pub collect_operands : RangeVar → Node → Node → GoMap Node → Option (GoMap Node)
collect_operands r left right values =
    if is_nil (row_items left) && is_nil (row_items right)
    then collect_equality r left right values
    else collect_rows r (row_items left) (row_items right) values

-- `none` is the source's `false`.
unfoldable mutual
  pub collect_equalities : RangeVar → Node → GoMap Node → Option (GoMap Node)
  collect_equalities r (and_expr args) values = collect_all r args values
  collect_equalities r (other_bool_expr args) values = none
  collect_equalities r (a_expr names left right) values =
      if str_eq (operator_name names) "=" then collect_operands r left right values else some values
  collect_equalities r _ values = some values

  pub collect_all : RangeVar → Nodes → GoMap Node → Option (GoMap Node)
  collect_all r end values = some values
  collect_all r (node n ns) values = and_then (collect_equalities r n values) (collect_all r ns)

-- strings.Join(_, ".")
abbrev pub join_dot : List String → String
join_dot [] = ""
join_dot (s ∷ []) = s
join_dot (s ∷ t ∷ ts) = s ++ₛ "." ++ₛ join_dot (t ∷ ts)

unfoldable pub type_name : Option TypeName → Option String
type_name none = none
type_name (some t) =
    if is_nil t.names || not (t.array_bounds == 0)
    then none
    else elim (all_names t.names) [ none ↦ none | some parts ↦ some (join_dot parts) ]

abbrev pub integer_bytes : ℤ → Bytes
integer_bytes (pos n) = decimal n
integer_bytes (negsuc n) = 45 ∷ decimal (n + 1)

abbrev pub constant_bytes : Constant → Option Bytes
constant_bytes (string_value v) = some v
constant_bytes (float_value v) = some v
constant_bytes (integer_value n) = some (integer_bytes n)
constant_bytes (bool_value true) = some (b't' ∷ b'r' ∷ b'u' ∷ b'e' ∷ [])
constant_bytes (bool_value false) = some (b'f' ∷ b'a' ∷ b'l' ∷ b's' ∷ b'e' ∷ [])
constant_bytes null_value = none

abbrev pub or_rejected {ℓ} : {A : Type ℓ} → Option A → Result ScalarError A
or_rejected none = err rejected
or_rejected (some a) = ok a

-- parameters[number - 1]; NULL and what is out of range are refused
abbrev pub parameter : List (Option Bytes) → ℕ → Option Bytes
parameter parameters zero = none
parameter parameters (suc n) = elim (get_elem? parameters n) [ none ↦ none | some v ↦ v ]

-- The sign of a unary operator.
abbrev pub sign_of : String → Option Bytes
sign_of operator =
    if str_eq operator "+"
    then some (43 ∷ [])
    else if str_eq operator "-"
    then some (45 ∷ [])
    else none

module _ (float_text : FloatText) (parameters : List (Option Bytes)) where
  -- The value, and the type of a cast around it (empty without one).
  unfoldable pub raw_scalar_value : Node → Result ScalarError (Bytes × String)
  raw_scalar_value (type_cast t arg) = do
    data_type ← or_rejected (type_name t)
    raw ← raw_scalar_value arg
    value ← canonical_scalar float_text raw.0 data_type
    ok (value, data_type)
  raw_scalar_value (collate_clause arg) = raw_scalar_value arg
  raw_scalar_value (param_ref n) = do value ← or_rejected (parameter parameters n); ok (value, "")
  raw_scalar_value (constant c) = do value ← or_rejected (constant_bytes c); ok (value, "")
  raw_scalar_value (a_expr names missing right) = do
    sign ← or_rejected (sign_of (operator_name names))
    raw ← raw_scalar_value right
    ok (sign ++ raw.0, raw.1)
  raw_scalar_value _ = err rejected

  unfoldable pub scalar_value : Node → String → Result ScalarError Bytes
  scalar_value n target_type = do
    raw ← raw_scalar_value n
    canonical_scalar float_text raw.0 (if str_eq raw.1 "" then target_type else raw.1)

  -- for index, column := range columns, with the type of each column
  unfoldable pub values_of :
      GoMap Node → List String → List String → Result ScalarError (List Bytes)
  values_of values [] types = ok []
  values_of values (c ∷ cs) [] = err rejected
  values_of values (c ∷ cs) (t ∷ ts) = do
    n ← or_rejected (get c values)
    value ← scalar_value n t
    rest ← values_of values cs ts
    ok (value ∷ rest)

  abbrev pub untyped : List String → List String
  untyped [] = []
  untyped (c ∷ cs) = "" ∷ untyped cs

  unfoldable pub ordered_values :
      GoMap Node → List String → List String → Result ScalarError (List Bytes)
  ordered_values values columns types =
      values_of values columns (if length types == length columns then types else untyped columns)

  abbrev pub is_missing : Node → Bool
  is_missing missing = true
  is_missing _ = false

  unfoldable pub predicate_key_values :
      RangeVar → Node → List String → List String → Result ScalarError (List Bytes)
  predicate_key_values r predicate columns types = do
    refuse (is_missing predicate) rejected
    values ← or_rejected (collect_equalities r predicate [])
    ordered_values values columns types

  -- The columns of the row; `none` for a repeated or an indirect column, or a length that differs.
  unfoldable pub by_column : List (Option ResTarget) → List Node → GoMap Node → Option (GoMap Node)
  by_column [] [] values = some values
  by_column (some t ∷ ts) (n ∷ ns) values =
      if str_eq t.name "" || t.indirect || is_present (get t.name values)
      then none
      else by_column ts ns (put t.name n values)
  by_column _ _ values = none

  abbrev pub single_row : List Node → Option (List Node)
  single_row (list_of args ∷ []) = some (row_items (list_of args))
  single_row _ = none

  unfoldable pub insert_key_values :
      InsertStmt → List String → List String → Result ScalarError (List Bytes)
  insert_key_values s columns types = do
    refuse s.with_clause rejected
    rows ← or_rejected s.values_lists
    row ← or_rejected (single_row rows)
    values ← or_rejected (by_column s.cols row [])
    ordered_values values columns types

unfoldable pub updates_shard_key : List (Option ResTarget) → List String → Bool
updates_shard_key [] columns = false
updates_shard_key (none ∷ ts) columns = updates_shard_key ts columns
updates_shard_key (some t ∷ ts) columns =
    not t.indirect && contains t.name columns || updates_shard_key ts columns
