-- ===== src/Router/Analyze.antt =====
-- `Prepared.Analyze` of internal/router/router.go.
pub mod Routable
pub mod Routed
use hamstergres.Base.{
  ℕ, ◌==◌, String, Bool, true, false, not, ◌&&◌, ◌||◌, List, [], ◌∷◌, Option, none, some,
  is_present, Result, ok, err, ◌>>=◌, ◌>>◌, refuse, if◌then◌else◌, length,
}
use hamstergres.Schema.{
  Registry, is_sharded, canonical_table, has_table, shard_key, shard_key_types_of, or_nil,
}
use hamstergres.Router.Bytes.{Bytes}
use hamstergres.Router.Decimal.{ScalarError, rejected, panics}
use hamstergres.Router.Scalar.{FloatText}
use hamstergres.Router.Target.{target_for_table_shard_key}
use hamstergres.Router.Tree.{Node, RangeVar, InsertStmt, UpdateStmt}
use hamstergres.Router.Predicate.{predicate_key_values, insert_key_values, updates_shard_key}
use hamstergres.Router.Statement.{RoutePlan, Prepared, ScatterReason}

unfoldable pub reads_sharded : Registry → List String → Bool
reads_sharded r [] = false
reads_sharded r (t ∷ ts) =
    is_sharded r t || is_sharded r (canonical_table r t) || reads_sharded r ts

unfoldable pub reads_user_table : Registry → List String → Bool
reads_user_table r [] = false
reads_user_table r (t ∷ ts) = has_table r t || reads_user_table r ts

abbrev pub conflicts : Option InsertStmt → Bool
conflicts none = false
conflicts (some i) = i.on_conflict

abbrev pub changes_key : Option UpdateStmt → List String → Bool
changes_key none columns = false
changes_key (some u) columns = updates_shard_key u.targets columns

abbrev pub is_none : List String → Bool
is_none [] = true
is_none (x ∷ xs) = false

-- The plan of a key that is routed, or not; a panic stays one.
abbrev pub with_target : RoutePlan → Result ScalarError String → Result ScalarError RoutePlan
with_target plan (ok t) = ok (record plan { target = t; routed = true })
with_target plan (err rejected) = ok plan
with_target plan (err panics) = err panics

-- The deferred function.
abbrev pub with_scatter_error :
    Prepared → Result ScalarError RoutePlan → Result ScalarError RoutePlan
with_scatter_error p (err e) = err e
with_scatter_error p (ok plan) =
    if not plan.routed && is_present p.scatter_error
    then ok (record plan { scatter_error = p.scatter_error })
    else ok plan

module _ (float_text : FloatText) (parameters : List (Option Bytes)) (registry : Registry)
    (burrows : List String) where
  unfoldable pub key_values :
      Prepared → RangeVar → List String → List String → Result ScalarError (List Bytes)
  key_values p r columns types = elim p.insert [
    | some i ↦ insert_key_values float_text parameters i columns types
    | none ↦ predicate_key_values float_text parameters r p.predicate columns types
  ]

  unfoldable pub route_key :
      Prepared → RangeVar → List String → List String → Result ScalarError String
  route_key p r columns types = do
    values ← key_values p r columns types
    target_for_table_shard_key float_text p.plan.table values types registry burrows

  -- What keeps a statement on a sharded table from being routed.
  unfoldable pub is_unroutable : Prepared → List String → Bool
  is_unroutable p columns =
      is_none columns
      || is_none burrows
      || not (p.physical_relations == 1)
      || conflicts p.insert
      || changes_key p.update columns

  unfoldable pub resolve_sharded : Prepared → RangeVar → List String → Result ScalarError RoutePlan
  resolve_sharded p r columns =
      if is_unroutable p columns
      then ok (record (p.plan) { sharded = true })
      else with_target (record (p.plan) { sharded = true })
          (route_key p r columns (or_nil (shard_key_types_of registry p.plan.table)))

  unfoldable pub resolve : Prepared → Option RangeVar → Result ScalarError RoutePlan
  resolve p none = ok p.plan
  resolve p (some r) = elim (shard_key registry p.plan.table) [
    | none ↦ ok (record (p.plan) { sharded = false })
    | some columns ↦ resolve_sharded p r columns
  ]

  unfoldable pub analyze : Prepared → Result ScalarError RoutePlan
  analyze p =
      if not p.read
      then resolve p p.relation
      else if reads_sharded registry p.relations
      then with_scatter_error p (resolve p p.relation)
      else ok (record (p.plan) {
        single_burrow = true;
        deterministic = not (reads_user_table registry p.relations);
      })
