-- ===== src/Proxy/Route.antt =====
-- Where the proxy sends a statement: `routePlan`, `balancedBurrow`, `randomBurrow` and
-- `parserFallbackBurrow` of internal/proxy/server.go.
pub mod Decisions
use hamstergres.Base.{
  ℕ, zero, suc, ◌+◌, ◌%◌, ◌^◌, String, str_eq, Bool, true, false, not, ◌&&◌, ◌||◌, List, [], ◌∷◌,
  Option, none, some, is_present, contains, if◌then◌else◌, length, get_elem?,
}
use hamstergres.Base.Sort.{sort}
use hamstergres.Router.Statement.{RoutePlan, ScatterReason, empty_plan}

-- What the backend manager says of tables that are not sharded: `UnshardedMode() == "primary"` and
-- `PrimaryBurrow()`.
pub record Unsharded : Type 0 where
  pub primary_mode : Bool
  pub primary : String

pub record RouteDecision : Type 0 where
  pub target : String
  pub routed : Bool
  pub keyed_write : Bool
  pub scatter_error : Option ScatterReason

-- The next of the sorted Burrows in turn, where `counter` is the number of calls before, a uint64.
unfoldable pub balanced_burrow : ℕ → List String → String
balanced_burrow counter [] = ""
balanced_burrow counter (b ∷ bs) = elim (get_elem? (sort (b ∷ bs)) (counter % length (b ∷ bs))) [
  | none ↦ ""
  | some x ↦ x
]

-- `value` is the uint64 read from the source of randomness, `none` if that failed.
unfoldable pub random_burrow : Option ℕ → List String → String
random_burrow value [] = ""
random_burrow none (b ∷ bs) = b
random_burrow (some v) (b ∷ bs) = elim (get_elem? (b ∷ bs) (v % length (b ∷ bs))) [
  | none ↦ ""
  | some x ↦ x
]

unfoldable pub parser_fallback_burrow : Unsharded → List String → String
parser_fallback_burrow u [] = ""
parser_fallback_burrow u (b ∷ bs) =
    if not (str_eq u.primary "") && contains u.primary (b ∷ bs)
    then u.primary
    else elim (sort (b ∷ bs)) [ [] ↦ "" | x ∷ xs ↦ x ]

abbrev pub is_none_left : List String → Bool
is_none_left [] = true
is_none_left (b ∷ bs) = false

abbrev pub undecided : RoutePlan → RouteDecision
undecided plan = record {
  target = plan.target;
  routed = plan.routed;
  keyed_write = plan.write && (str_eq plan.table "" || plan.sharded);
  scatter_error = plan.scatter_error;
}

abbrev pub single_target : Unsharded → ℕ → Option ℕ → RoutePlan → List String → String
single_target u counter value plan burrows =
    if u.primary_mode
    then u.primary
    else if plan.deterministic
    then balanced_burrow counter burrows
    else random_burrow value burrows

unfoldable pub route_plan : Unsharded → ℕ → Option ℕ → RoutePlan → List String → RouteDecision
route_plan u counter value plan burrows =
    let single = single_target u counter value plan burrows in
    if plan.single_burrow
    then if is_none_left burrows
      then undecided plan
      else record (undecided plan) { target = single; routed = not (str_eq single "") }
    else if plan.routed || str_eq plan.table "" || plan.sharded
    then undecided plan
    else if u.primary_mode
    then record (undecided plan) { target = u.primary; routed = true }
    else if plan.write || is_none_left burrows
    then undecided plan
    else record (undecided plan) { target = random_burrow value burrows; routed = true }

-- `topologyReadIndex.Add(1)`
abbrev pub next_counter : ℕ → ℕ
next_counter counter = (counter + 1) % 2 ^ 64
