-- ===== src/Topology/Catalog.antt =====
-- The data of internal/topology/catalog.go. A string type with four named constants is a data
-- type with a fifth constructor for every other text. `time.Time` is the number of ticks since
-- the zero time.
use hamstergres.Base.{ℕ, String, ℤ, Bool, true, false, ◌||◌, str_eq, List}
use hamstergres.Base.GoMap.{GoMap}

-- The four constants, and any other text that a stored catalog may hold.
pub data BurrowState : Type 0 where
  adding ready draining removed : BurrowState
  other : String → BurrowState

pub record SchemaCompatibility : Type 0 where
  pub registry_format : ℤ
  pub revision : ℕ
  pub fingerprint : String

pub record TunnelEndpoint : Type 0 where
  pub name : String
  pub address : String
  pub configuration_fingerprint : String

pub record Burrow : Type 0 where
  pub id : String
  pub name : String
  pub state : BurrowState
  pub tunnels : List TunnelEndpoint
  pub weight : ℕ  -- uint32
  pub capacity_bytes : ℤ  -- int64
  pub labels : GoMap String

pub record Distribution : Type 0 where
  pub id : String
  pub vshard_count : ℤ
  pub burrow_ids : List String
  pub owner_indexes : List ℕ  -- []uint16

pub record ChangeMetadata : Type 0 where
  pub actor : String
  pub reason : String
  pub timestamp : ℕ

pub record Catalog : Type 0 where
  pub format_version : ℤ
  pub revision : ℕ  -- uint64
  pub compatibility : SchemaCompatibility
  pub burrows : List Burrow
  pub distributions : List Distribution
  pub table_distributions : GoMap String
  pub change : ChangeMetadata

abbrev pub current_format_version : ℕ
current_format_version = 1

abbrev pub default_vshard_count : ℕ
default_vshard_count = 65536

abbrev pub bootstrap_distribution : String
bootstrap_distribution = "distribution-bootstrap-0001"

unfoldable pub valid_state : BurrowState → Bool
valid_state adding = true
valid_state ready = true
valid_state draining = true
valid_state removed = true
valid_state (other s) = false

-- state == BurrowReady || state == BurrowDraining
unfoldable pub is_routable : BurrowState → Bool
is_routable ready = true
is_routable draining = true
is_routable _ = false

-- from == to, of Go strings
unfoldable pub state_eq : BurrowState → BurrowState → Bool
state_eq adding adding = true
state_eq ready ready = true
state_eq draining draining = true
state_eq removed removed = true
state_eq (other s) (other t) = str_eq s t
state_eq _ _ = false

-- the `switch` of `validTransition`
abbrev successor : BurrowState → BurrowState → Bool
successor adding to = state_eq to ready || state_eq to removed
successor ready to = state_eq to draining
successor draining to = state_eq to ready || state_eq to removed
successor removed to = false
successor (other s) to = false

unfoldable pub valid_transition : BurrowState → BurrowState → Bool
unfolding state_eq
valid_transition from to = state_eq from to || successor from to
