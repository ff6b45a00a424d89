-- ===== src/Tests/Router.antt =====
-- internal/router/router.go at small statements.
use hamstergres.Base.{
  ℕ, ◌≡◌, refl, sym, String, true, false, List, [], ◌∷◌, Option, none, some, ok, arith, All, pos,
}
use hamstergres.Base.GoMap.{get, put, delete}
use hamstergres.Base.Sort.{sort}
use hamstergres.Topology.Bootstrap.{legacy_modulo_owners}
use hamstergres.Schema.{Registry, with_vshards}
use hamstergres.CopyRouter.Keys.{one_of, normalized_type}
use hamstergres.Router.Bytes.{trim_space, trim_from, space_width, space_width_reversed}
use hamstergres.Router.Scalar.{FloatText, canonical_scalar, scalar_type}
use hamstergres.Router.Target.{burrow_for_key, canonical_all, target_for_table_shard_key}
use hamstergres.Router.Target.Legacy.{burrow_for_key-legacy}
use hamstergres.Router.Tree.{
  Node, Nodes, end, node, missing, other, set_to_default, column_ref, param_ref, constant,
  type_cast, collate_clause, and_expr, other_bool_expr, a_expr, other_a_expr, row_expr, list_of,
  RangeVar, integer_value, InsertStmt,
}
use hamstergres.Router.Predicate.{
  insert_key_values, by_column, single_row, predicate_key_values, ordered_values, values_of,
  scalar_value, raw_scalar_value, collect_equalities, collect_operands, collect_rows,
  collect_equality, column_name, column_of, node_list, row_items,
}
use hamstergres.Router.Predicate.Equalities.{Pairs, IsMeaning}
use hamstergres.Router.Predicate.Values.{AreValues, column_types}
use hamstergres.Router.Predicate.Inserted.{IsGiven, insert_key_values_sound}
use hamstergres.Router.Predicate.Sound.{IsKeyValue, predicate_key_values_sound}
use hamstergres.Router.Statement.{Parsed, RoutePlan, select_stmt, prepare}

-- No key here is a floating-point number.
abbrev float_text : FloatText
float_text width v = none

-- A row whose columns are all 1, and the values of nodes in it.
abbrev value : Node → Option ℕ
value (column_ref fields) = some 1
value (constant (integer_value (pos n))) = some n
value _ = none

abbrev Same : Node → Node → Type 0
Same a b = value a ≡ value b

unfoldable mutual
  Holds : Node → Type 0
  Holds (and_expr args) = AllHold args
  Holds (a_expr names a b) = Same a b × Pairs Same (row_items a) (row_items b)
  Holds missing = Unit
  Holds other = Unit
  Holds set_to_default = Unit
  Holds (column_ref fields) = Unit
  Holds (param_ref n) = Unit
  Holds (constant c) = Unit
  Holds (type_cast t n) = Unit
  Holds (collate_clause n) = Unit
  Holds (other_bool_expr args) = Unit
  Holds (other_a_expr names a b) = Unit
  Holds (row_expr args) = Unit
  Holds (list_of args) = Unit

  AllHold : Nodes → Type 0
  AllHold end = Unit
  AllHold (node n ns) = Holds n × AllHold ns

All-AllHold : (args : Nodes) → AllHold args → All Holds (node_list args)
unfolding AllHold
All-AllHold end h = tt
All-AllHold (node n ns) h = (h.0, All-AllHold ns h.1)

meaning : IsMeaning Holds Same
unfolding Holds
meaning = record {
  conjunction = λ args h. All-AllHold args h;
  equality = λ names a b e nil h. h.0;
  rows = λ names a b e h. h.1;
  symmetric = λ a b h. sym h;
}

abbrev accounts : RangeVar
accounts = record { schema_name = "public"; relation = "accounts"; alias = none }

-- id = 1
abbrev id_is_1 : Node
id_is_1 = a_expr (some "=" ∷ []) (column_ref (some "id" ∷ [])) (constant (integer_value (pos 1)))

reads_key :
    predicate_key_values float_text [] accounts id_is_1 ("id" ∷ []) ("bigint" ∷ [])
    ≡ ok ((b'1' ∷ []) ∷ [])
unfolding predicate_key_values ordered_values values_of scalar_value raw_scalar_value
    canonical_scalar scalar_type collect_equalities collect_operands collect_rows collect_equality
    column_name column_of get put delete trim_space trim_from space_width space_width_reversed
    one_of normalized_type
reads_key = refl

predicate_key_values_sound_example :
    AreValues
      (IsKeyValue Holds Same meaning accounts)
      float_text
      []
      ("id" ∷ [])
      ("bigint" ∷ [])
      ((b'1' ∷ []) ∷ [])
unfolding Holds
predicate_key_values_sound_example =
    predicate_key_values_sound Holds Same meaning accounts float_text [] id_is_1 ("id" ∷ [])
      ("bigint" ∷ []) ((b'1' ∷ []) ∷ []) (refl, tt) reads_key

-- SELECT * FROM public.accounts WHERE id = 1
abbrev query : Parsed
query = record {
  statements =
      some (
        select_stmt (record {
          into = false;
          with_clause = false;
          set_operation = false;
          from = some accounts ∷ [];
          where_clause = id_is_1;
          select_count = 1;
          distinct = false;
          aggregates = false;
          grouping = false;
          sorting = false;
          limits = false;
          locking = false;
        }))
      ∷ [];
  writes = false;
  maximum_parameter = 0;
  relations = accounts ∷ [];
}

-- A registry without a placement of vshards, and two Burrows.
abbrev unplaced : Registry
unplaced = record {
  format_version = 4;
  revision = 1;
  tables = ("public.accounts", "id" ∷ []) ∷ [];
  shard_key_types = ("public.accounts", "bigint" ∷ []) ∷ [];
  generated = [];
  vshards = [];
  table_vshards = none;
  all_tables = "public.accounts" ∷ [];
}

abbrev plan : RoutePlan
plan = record (prepare query).plan { sharded = true; target = "b"; routed = true }

-- INSERT INTO public.accounts (name, id) VALUES (7, 1)
abbrev insert_row : InsertStmt
insert_row = record {
  cols =
      some (record { name = "name"; indirect = false })
      ∷ some (record { name = "id"; indirect = false })
      ∷ [];
  values_lists = some (
      list_of
        (node (constant (integer_value (pos 7))) (node (constant (integer_value (pos 1))) end))
      ∷ []);
  with_clause = false;
  on_conflict = false;
}

reads_row :
    insert_key_values float_text [] insert_row ("id" ∷ []) ("bigint" ∷ []) ≡ ok ((b'1' ∷ []) ∷ [])
unfolding insert_key_values by_column ordered_values values_of scalar_value raw_scalar_value
    canonical_scalar scalar_type get put delete trim_space trim_from space_width
    space_width_reversed one_of normalized_type
reads_row = refl

insert_key_values_sound_example :
    (rows row : List Node) × (insert_row.values_lists ≡ some rows)
    × (single_row float_text [] rows ≡ some row)
    × AreValues
        (IsGiven insert_row.cols row)
        float_text
        []
        ("id" ∷ [])
        (column_types (IsGiven insert_row.cols row) float_text [] ("id" ∷ []) ("bigint" ∷ []))
        ((b'1' ∷ []) ∷ [])
insert_key_values_sound_example =
    insert_key_values_sound float_text [] insert_row ("id" ∷ []) ("bigint" ∷ []) ((b'1' ∷ []) ∷ [])
      reads_row

-- The key 7 on a registry with one placement for all tables.
reads_seven : canonical_all float_text ((b'7' ∷ []) ∷ []) ("bigint" ∷ []) ≡ ok ((b'7' ∷ []) ∷ [])
unfolding canonical_all canonical_scalar scalar_type trim_space trim_from space_width
    space_width_reversed one_of normalized_type
reads_seven = refl

burrow_for_key-legacy_example :
    (owners : List String) × (name : String) × (legacy_modulo_owners ("b" ∷ "a" ∷ []) 65536
      ≡ some owners)
    × (burrow_for_key (b'7' ∷ []) (sort ("b" ∷ "a" ∷ [])) ≡ some name)
    × (target_for_table_shard_key float_text "accounts"
          ((b'7' ∷ []) ∷ [])
          ("bigint" ∷ [])
          (with_vshards owners unplaced)
          ("a" ∷ "b" ∷ [])
        ≡ ok name)
burrow_for_key-legacy_example =
    burrow_for_key-legacy float_text "accounts" ((b'7' ∷ []) ∷ []) ("bigint" ∷ []) unplaced
      ("b" ∷ "a" ∷ []) ("a" ∷ "b" ∷ []) ((b'7' ∷ []) ∷ []) (omega arith) refl refl reads_seven
