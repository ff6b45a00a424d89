-- ===== src/Topology/Validate.antt =====
-- `Catalog.Validate` of internal/topology/catalog.go. Each loop is a function over the rest of
-- its slice and the maps that it fills.
pub mod Burrows
pub mod Distributions
pub mod Catalogs
use hamstergres.Base.{
  ℕ, ◌^◌, String, ℤ, pos, is_negative, is_positive, Bool, true, false, not, ◌&&◌, ◌||◌, ◌==◌, ltb,
  is_present, str_eq, is_blank, Option, none, some, List, [], ◌∷◌, length, contains, Result, ok,
  err, ◌>>=◌, ◌>>◌, refuse,
}
use hamstergres.Base.GoMap.{GoMap, get, put, keys}
use hamstergres.Topology.Catalog.{
  removed, TunnelEndpoint, Burrow, Distribution, Catalog, valid_state, is_routable, state_eq,
}

-- One constructor for each message, with the names that the message shows.
pub data Error : Type 0 where
  unsupported_format zero_revision incomplete_schema incomplete_audit : Error
  burrow_identity no_distribution_id empty_table : Error
  duplicate_burrow_id duplicate_burrow_name invalid_state no_weight : String → Error
  negative_capacity no_tunnel incomplete_tunnel : String → Error
  repeated_tunnel : String → String → Error
  empty_label duplicate_distribution incomplete_coverage invalid_dictionary : String → Error
  repeated_owner unknown_owner unroutable_owner : String → String → Error
  unknown_owner_index : String → ℕ → Error
  unknown_distribution : String → String → Error

-- an `int` is `n`
abbrev pub int_is : ℤ → ℕ → Bool
int_is (pos m) n = m == n
int_is _ n = false

-- for _, tunnel := range burrow.Tunnels
unfoldable pub check_tunnels : String → List TunnelEndpoint → List String → Result Error (Unit {0})
check_tunnels burrow [] seen = ok tt
check_tunnels burrow (t ∷ ts) seen = do
  refuse (str_eq t.name "" || str_eq t.address "" || str_eq t.configuration_fingerprint "")
      (incomplete_tunnel burrow)
  refuse (contains t.name seen) (repeated_tunnel burrow t.name)
  check_tunnels burrow ts (t.name ∷ seen)

-- for key := range burrow.Labels
unfoldable pub check_labels : String → List String → Result Error (Unit {0})
check_labels burrow [] = ok tt
check_labels burrow (k ∷ ks) = do refuse (is_blank k) (empty_label burrow); check_labels burrow ks

abbrev no_tunnels : List TunnelEndpoint → Bool
no_tunnels [] = true
no_tunnels (t ∷ ts) = false

-- The body of the loop over `c.Burrows`, up to the two map writes.
unfoldable pub check_burrow : Burrow → GoMap Burrow → List String → Result Error (Unit {0})
check_burrow b burrows names = do
  refuse (str_eq b.id "" || str_eq b.name "") burrow_identity
  refuse (is_present (get b.id burrows)) (duplicate_burrow_id b.id)
  refuse (contains b.name names) (duplicate_burrow_name b.name)
  refuse (not (valid_state b.state)) (invalid_state b.name)
  refuse (b.weight == 0) (no_weight b.name)
  refuse (is_negative b.capacity_bytes) (negative_capacity b.name)
  refuse (not (state_eq b.state removed) && no_tunnels b.tunnels) (no_tunnel b.name)
  check_tunnels b.name b.tunnels []
  check_labels b.name (keys b.labels)

-- The loop over `c.Burrows` returns the map `burrows`.
unfoldable pub check_burrows :
    List Burrow → GoMap Burrow → List String → Result Error (GoMap Burrow)
check_burrows [] burrows names = ok burrows
check_burrows (b ∷ bs) burrows names = do
  check_burrow b burrows names
  check_burrows bs (put b.id b burrows) (b.name ∷ names)

-- `burrows[owner]` must exist and take traffic.
unfoldable pub check_owner : String → String → Option Burrow → Result Error (Unit {0})
check_owner distribution owner none = err (unknown_owner distribution owner)
check_owner distribution owner (some b) =
    refuse (not (is_routable b.state)) (unroutable_owner distribution b.name)

-- for _, owner := range distribution.BurrowIDs
unfoldable pub check_owners :
    String → GoMap Burrow → List String → List String → Result Error (Unit {0})
check_owners distribution burrows [] seen = ok tt
check_owners distribution burrows (o ∷ os) seen = do
  refuse (contains o seen) (repeated_owner distribution o)
  check_owner distribution o (get o burrows)
  check_owners distribution burrows os (o ∷ seen)

-- for vshard, ownerIndex := range distribution.OwnerIndexes
unfoldable pub check_indexes : String → ℕ → List ℕ → Result Error (Unit {0})
check_indexes distribution owners [] = ok tt
check_indexes distribution owners (i ∷ is) = do
  refuse (not (ltb i owners)) (unknown_owner_index distribution i)
  check_indexes distribution owners is

-- The body of the loop over `c.Distributions`, up to the map write.
unfoldable pub check_distribution :
    GoMap Burrow → Distribution → GoMap Distribution → Result Error (Unit {0})
check_distribution burrows d distributions = do
  refuse (str_eq d.id "") no_distribution_id
  refuse (is_present (get d.id distributions)) (duplicate_distribution d.id)
  refuse (not (is_positive d.vshard_count) || not (int_is d.vshard_count (length d.owner_indexes)))
      (incomplete_coverage d.id)
  refuse (length d.burrow_ids == 0 || ltb (2 ^ 16) (length d.burrow_ids)) (invalid_dictionary d.id)
  check_owners d.id burrows d.burrow_ids []
  check_indexes d.id (length d.burrow_ids) d.owner_indexes

-- The loop over `c.Distributions` returns the map `distributions`.
unfoldable pub check_distributions :
    GoMap Burrow → List Distribution → GoMap Distribution → Result Error (GoMap Distribution)
check_distributions burrows [] distributions = ok distributions
check_distributions burrows (d ∷ ds) distributions = do
  check_distribution burrows d distributions
  check_distributions burrows ds (put d.id d distributions)

-- for table, distributionID := range c.TableDistributions
unfoldable pub check_tables : GoMap Distribution → GoMap String → Result Error (Unit {0})
check_tables distributions [] = ok tt
check_tables distributions ((table, d) ∷ ts) = do
  refuse (is_blank table) empty_table
  refuse (not (is_present (get d distributions))) (unknown_distribution table d)
  check_tables distributions ts

-- The tests on the catalog's own fields.
unfoldable pub check_fields : Catalog → Result Error (Unit {0})
check_fields c = do
  refuse (not (int_is c.format_version 1)) unsupported_format
  refuse (c.revision == 0) zero_revision
  refuse
      (not (is_positive c.compatibility.registry_format)
        || c.compatibility.revision == 0
        || str_eq c.compatibility.fingerprint "")
      incomplete_schema
  refuse (str_eq c.change.actor "" || str_eq c.change.reason "" || c.change.timestamp == 0)
      incomplete_audit

unfoldable pub validate : Catalog → Result Error (Unit {0})
validate c = do
  check_fields c
  burrows ← check_burrows c.burrows [] []
  distributions ← check_distributions burrows c.distributions []
  check_tables distributions c.table_distributions
