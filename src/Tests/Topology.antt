-- ===== src/Tests/Topology.antt =====
-- internal/topology/catalog.go at a fleet of two Burrows.
use hamstergres.Base.{
  ℕ, ◌+◌, ◌%◌, ◌^◌, ◌<◌, String, true, false, ◌≡◌, ◌↔◌, refl, some, List, [], ◌∷◌, arith, contains,
  map, ok, err, pos, length, get_elem?, is_blank, ◌-◌,
}
use hamstergres.Base.Sort.{insert, sort}
use hamstergres.Topology.Bootstrap.{legacy_index, owners_from, legacy_modulo_owners}
use hamstergres.Topology.Bootstrap.Owners.{legacy_modulo_owners_total}
use hamstergres.Base.GoMap.{GoMap, get, put, delete}
use hamstergres.Topology.Catalog.{
  BurrowState, ready, draining, removed, Burrow, TunnelEndpoint, Distribution, Catalog, valid_state,
  is_routable, state_eq, valid_transition,
}
use hamstergres.Base.GoMap.Index.{index}
use hamstergres.Topology.Validate.{
  Error, validate, check_fields, check_burrows, check_burrow, check_tunnels, check_labels,
  check_owner, check_owners, check_indexes, check_distribution, check_distributions, check_tables,
}
use hamstergres.Topology.Validate.Catalogs.{validate_iff}
use hamstergres.Topology.WellFormed.{burrow_id, IsWellFormed}
use hamstergres.Topology.Placement.{table_placements, routable_burrow_names}
use hamstergres.Topology.Placement.Owners.{PlacesTable, table_placements_total}
use hamstergres.Topology.Placement.Routable.{
  IsRoutableName, routable_burrow_names_iff, placement-routable,
}
use hamstergres.Topology.Transition.{
  validate_transition, check_transition, check_transitions, check_counts,
}
use hamstergres.Topology.Transition.Steps.{IsSuccessor}
use hamstergres.Topology.Transition.Allowed.{validate_transition_iff}
use hamstergres.Topology.Transition.History.{
  History, here, next, InState, HasDrained, kept_forever, removed_forever, drains_before_removal,
  revision_counts, steps,
}

abbrev tunnel : TunnelEndpoint
tunnel = record { name = "primary"; address = "host/db"; configuration_fingerprint = "sha256:0" }

abbrev pub burrow : String → String → BurrowState → Burrow
burrow id name state = record {
  id = id;
  name = name;
  state = state;
  tunnels = tunnel ∷ [];
  weight = 1;
  capacity_bytes = pos 0;
  labels = [];
}

abbrev pub both : Distribution
both = record {
  id = "d";
  vshard_count = pos 3;
  burrow_ids = "a" ∷ "b" ∷ [];
  owner_indexes = 0 ∷ 1 ∷ 0 ∷ [];
}

abbrev only_a : Distribution
only_a = record both { burrow_ids = "a" ∷ []; owner_indexes = 0 ∷ 0 ∷ 0 ∷ [] }

abbrev catalog : ℕ → BurrowState → Distribution → Catalog
catalog revision state d = record {
  format_version = pos 1;
  revision = revision;
  compatibility = record { registry_format = pos 4; revision = 1; fingerprint = "sha256:1" };
  burrows = burrow "a" "first" ready ∷ burrow "b" "second" state ∷ [];
  distributions = d ∷ [];
  table_distributions = ("public.accounts", "d") ∷ [];
  change = record { actor = "proxy"; reason = "test"; timestamp = revision };
}

-- The second Burrow drains, gives up its vshard, is removed, and stays so.
abbrev pub c₁ : Catalog
c₁ = catalog 1 ready both

abbrev pub c₂ : Catalog
c₂ = catalog 2 draining only_a

abbrev c₃ : Catalog
c₃ = catalog 3 removed only_a

abbrev c₄ : Catalog
c₄ = catalog 4 removed only_a

pub c₁_valid : validate c₁ ≡ ok tt
unfolding validate check_fields check_burrows check_burrow check_tunnels check_labels check_owner
    check_owners check_indexes check_distribution check_distributions check_tables valid_state
    is_routable state_eq is_blank get put delete
c₁_valid = refl

-- A removed Burrow owns a vshard.
c₃_both_invalid : validate (catalog 3 removed both) ≡ err (Error.unroutable_owner "d" "second")
unfolding validate check_fields check_burrows check_burrow check_tunnels check_labels check_owner
    check_owners check_indexes check_distribution check_distributions check_tables valid_state
    is_routable state_eq is_blank get put delete
c₃_both_invalid = refl

pub step₁ : validate_transition c₁ c₂ ≡ ok tt
unfolding validate check_fields check_burrows check_burrow check_tunnels check_labels check_owner
    check_owners check_indexes check_distribution check_distributions check_tables valid_state
    is_routable state_eq is_blank get put delete validate_transition check_transition
    check_transitions check_counts index valid_transition
step₁ = refl

step₂ : validate_transition c₂ c₃ ≡ ok tt
unfolding validate check_fields check_burrows check_burrow check_tunnels check_labels check_owner
    check_owners check_indexes check_distribution check_distributions check_tables valid_state
    is_routable state_eq is_blank get put delete validate_transition check_transition
    check_transitions check_counts index valid_transition
step₂ = refl

step₃ : validate_transition c₃ c₄ ≡ ok tt
unfolding validate check_fields check_burrows check_burrow check_tunnels check_labels check_owner
    check_owners check_indexes check_distribution check_distributions check_tables valid_state
    is_routable state_eq is_blank get put delete validate_transition check_transition
    check_transitions check_counts index valid_transition
step₃ = refl

c₃_valid : validate c₃ ≡ ok tt
unfolding validate check_fields check_burrows check_burrow check_tunnels check_labels check_owner
    check_owners check_indexes check_distribution check_distributions check_tables valid_state
    is_routable state_eq is_blank get put delete
c₃_valid = refl

drained : History c₁ c₃
drained = next (next here step₁) step₂

validate_iff_example : (validate c₁ ≡ ok tt) ↔ IsWellFormed c₁
validate_iff_example = validate_iff c₁

table_placements-total_example :
    (placements : GoMap (List String)) × (table_placements c₁ ≡ ok placements)
    × ((table id : String)
        → get table c₁.table_distributions ≡ some id
        → PlacesTable c₁.burrows c₁.distributions table id placements)
table_placements-total_example = table_placements_total c₁ c₁_valid

routable_burrow_names_iff_example :
    (contains "second" (routable_burrow_names c₂) ≡ true) ↔ IsRoutableName c₂.burrows "second"
routable_burrow_names_iff_example = routable_burrow_names_iff c₂ "second"

pub accounts_placed : get "public.accounts" c₁.table_distributions ≡ some "d"
unfolding get
accounts_placed = refl

placement-routable_example :
    (placements : GoMap (List String)) × (owners : List String) × (table_placements c₁
      ≡ ok placements)
    × (get "public.accounts" placements ≡ some owners)
    × ((v : ℕ)
        → v < length owners
        → (name : String) × (get_elem? owners v ≡ some name)
          × (contains name (routable_burrow_names c₁) ≡ true))
placement-routable_example = placement-routable c₁ "public.accounts" "d" c₁_valid accounts_placed

validate_transition_iff_example : (validate_transition c₂ c₃ ≡ ok tt) ↔ IsSuccessor c₂ c₃
validate_transition_iff_example = validate_transition_iff c₂ c₃

kept_forever_example : contains "b" (map burrow_id c₃.burrows) ≡ true
kept_forever_example = kept_forever "b" drained refl

removed_in_c₃ : InState c₃ "b" removed
removed_in_c₃ = (burrow "b" "second" removed, refl, refl)

removed_forever_example : InState c₄ "b" removed × (contains "b" only_a.burrow_ids ≡ false)
removed_forever_example = removed_forever "b" 0 only_a c₃_valid (next here step₃) removed_in_c₃ refl

drains_before_removal_example : HasDrained c₁ c₃ "b"
drains_before_removal_example =
    drains_before_removal "b" drained (burrow "b" "second" ready, refl, refl) removed_in_c₃

revision_counts_example : c₃.revision ≡ (c₁.revision + steps drained) % 2 ^ 64
revision_counts_example = revision_counts drained (omega arith)

-- Three vshards on two Burrows.
three_vshards :
    legacy_modulo_owners ("burrow-02" ∷ "burrow-01" ∷ []) 3
    ≡ some ("burrow-02" ∷ "burrow-01" ∷ "burrow-02" ∷ [])
unfolding legacy_modulo_owners owners_from legacy_index sort insert
three_vshards = refl

legacy_modulo_owners_total_example :
    (owners : List String) × (legacy_modulo_owners ("burrow-02" ∷ "burrow-01" ∷ []) 3 ≡ some owners)
    × (length owners ≡ 3)
    × ((vshard : ℕ)
        → vshard < 3
        → get_elem? owners vshard
          ≡ get_elem? (sort ("burrow-02" ∷ "burrow-01" ∷ [])) ((vshard + (2 - 1)) % 2))
legacy_modulo_owners_total_example =
    legacy_modulo_owners_total ("burrow-02" ∷ "burrow-01" ∷ []) 3 (omega arith)
