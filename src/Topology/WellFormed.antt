-- ===== src/Topology/WellFormed.antt =====
-- What a catalog of internal/topology/catalog.go promises, said without loops, maps or messages.
use hamstergres.Base.{
  ◌^◌, ◌≤◌, ◌<◌, String, pos, is_negative, is_positive, true, false, ◌≡◌, ◌≢◌, List, [], map, some,
  length, contains, Distinct, All, find_by, is_blank,
}
use hamstergres.Base.GoMap.{keys}
use hamstergres.Topology.Catalog.{
  removed, TunnelEndpoint, Burrow, Distribution, Catalog, valid_state, is_routable,
}

abbrev pub burrow_id : Burrow → String
burrow_id b = b.id

abbrev pub burrow_name : Burrow → String
burrow_name b = b.name

abbrev pub distribution_id : Distribution → String
distribution_id d = d.id

abbrev pub tunnel_name : TunnelEndpoint → String
tunnel_name t = t.name

pub record IsComplete (t : TunnelEndpoint) : Type 0 where
  pub named : t.name ≢ ""
  pub addressed : t.address ≢ ""
  pub fingerprinted : t.configuration_fingerprint ≢ ""

abbrev pub IsLabel : String → Type 0
IsLabel k = is_blank k ≡ false

pub record IsValidBurrow (b : Burrow) : Type 0 where
  pub identified : b.id ≢ ""
  pub named : b.name ≢ ""
  pub known_state : valid_state b.state ≡ true
  pub weighted : 0 < b.weight
  pub capacity : is_negative b.capacity_bytes ≡ false
  pub reachable : b.state ≢ removed → b.tunnels ≢ []
  pub tunnels_complete : All IsComplete b.tunnels
  pub tunnels_distinct : Distinct (map tunnel_name b.tunnels)
  pub labelled : All IsLabel (keys b.labels)

-- `owner` is the identifier of a listed Burrow in state ready or draining.
abbrev pub IsOwner : List Burrow → String → Type 0
IsOwner bs owner =
    (b : Burrow) × (find_by burrow_id owner bs ≡ some b) × (is_routable b.state ≡ true)

pub record IsValidDistribution (bs : List Burrow) (d : Distribution) : Type 0 where
  pub identified : d.id ≢ ""
  pub positive : 0 < length d.owner_indexes
  pub covered : d.vshard_count ≡ pos (length d.owner_indexes)
  pub owned : 0 < length d.burrow_ids
  pub indexable : length d.burrow_ids ≤ 2 ^ 16
  pub owners_distinct : Distinct d.burrow_ids
  pub owners_known : All (IsOwner bs) d.burrow_ids
  pub in_range : All (λ i. i < length d.burrow_ids) d.owner_indexes

-- The table has a name, and its distribution is listed.
abbrev pub IsPlaced : List Distribution → String × String → Type 0
IsPlaced ds (table, d) = (is_blank table ≡ false) × (contains d (map distribution_id ds) ≡ true)

pub record IsStamped (c : Catalog) : Type 0 where
  pub format : c.format_version ≡ pos 1
  pub revised : 0 < c.revision
  pub schema_format : is_positive c.compatibility.registry_format ≡ true
  pub schema_revision : 0 < c.compatibility.revision
  pub schema_fingerprint : c.compatibility.fingerprint ≢ ""
  pub actor : c.change.actor ≢ ""
  pub reason : c.change.reason ≢ ""
  pub time : 0 < c.change.timestamp

pub record IsWellFormed (c : Catalog) : Type 0 where
  pub stamped : IsStamped c
  pub burrows_valid : All IsValidBurrow c.burrows
  pub ids_distinct : Distinct (map burrow_id c.burrows)
  pub names_distinct : Distinct (map burrow_name c.burrows)
  pub distributions_valid : All (IsValidDistribution c.burrows) c.distributions
  pub distributions_distinct : Distinct (map distribution_id c.distributions)
  pub tables_placed : All (IsPlaced c.distributions) c.table_distributions
