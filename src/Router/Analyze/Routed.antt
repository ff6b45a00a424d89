-- ===== src/Router/Analyze/Routed.antt =====
-- When internal/router/router.go routes a statement, and where to.
use hamstergres.Base.{◌≡◌, String, false, List, Option, some, ok}
use hamstergres.Schema.{Registry, shard_key, shard_key_types_of, or_nil}
use hamstergres.Router.Bytes.{Bytes}
use hamstergres.Router.Scalar.{FloatText}
use hamstergres.Router.Target.{target_for_table_shard_key}
use hamstergres.Router.Tree.{RangeVar}
use hamstergres.Router.Statement.{Prepared, Statement}
use hamstergres.Router.Analyze.Routable.{IsRoutable}
use hamstergres.Router.Analyze.{key_values}

-- A prepared statement is not routed yet.
abbrev pub IsUnrouted : Prepared → Type 0
IsUnrouted p = p.plan.routed ≡ false

module _ (float_text : FloatText) (parameters : List (Option Bytes)) (registry : Registry)
    (burrows : List String) where
  -- A relation with a shard key, what a route asks of the statement, and a target for the values.
  pub record Routes (p : Prepared) (target : String) : Type 0 where
    pub relation : RangeVar
    pub columns : List String
    pub is_relation : p.relation ≡ some relation
    pub is_key : shard_key registry p.plan.table ≡ some columns
    pub routable : IsRoutable burrows p columns
    pub values : List Bytes
    pub has_values :
        key_values float_text parameters registry burrows p relation columns
          (or_nil (shard_key_types_of registry p.plan.table))
        ≡ ok values
    pub has_target :
        target_for_table_shard_key float_text p.plan.table values
          (or_nil (shard_key_types_of registry p.plan.table))
          registry
          burrows
        ≡ ok target
