-- ===== src/Router/Target/Owners.antt =====
-- Routing by a catalog: the topology of internal/topology/catalog.go, as the registry of
-- internal/schema/registry.go holds it, through internal/router/router.go.
use hamstergres.Base.{
  ℕ, ◌<◌, ◌==◌, ◌≡◌, refl, ap, sym, subst, ◌∙◌, ==_iff, String, true, List, Option, none, some,
  length, get_elem?, arith, contains, ok, >>-eq-ok, >>=-eq-ok, Bool-cases, inl, inr, refuse, ◌>>=◌,
}
use hamstergres.Base.GoMap.{GoMap, get}
use hamstergres.Topology.Catalog.{Catalog}
use hamstergres.Topology.Validate.{validate}
use hamstergres.Topology.Placement.{table_placements, routable_burrow_names}
use hamstergres.Topology.Placement.Routable.{placement-routable}
use hamstergres.Schema.{
  Registry, canonical_table, with_table_vshards, vshard_count_for, vshard_owner_for,
  has_topology_placement, table_owners,
}
use hamstergres.Router.Bytes.{Bytes}
use hamstergres.Router.Decimal.{rejected}
use hamstergres.Router.Scalar.{FloatText}
use hamstergres.Router.Target.{
  vshard_of, virtual_shards, canonical_all, types_for, incomplete, join_key, owner_of_key,
  or_unroutable, target_for_table_shard_key,
}
use hamstergres.Router.Target.Legacy.{vshard_of-lt}

pub vshard_count_for-placed :
    (r : Registry) (table : String) (owners : List String)
    → table_owners r table ≡ some owners
    → vshard_count_for r table ≡ length owners
unfolding vshard_count_for
vshard_count_for-placed r table owners p =
    ap (λ o. elim o [ none ↦ length r.vshards | some names ↦ length names ]) p

pub vshard_owner_for-placed :
    (r : Registry) (table : String) (owners : List String) (v : ℕ)
    → table_owners r table ≡ some owners
    → vshard_owner_for r table v ≡ get_elem? owners v
unfolding vshard_owner_for
vshard_owner_for-placed r table owners v p =
    ap (λ o. elim o [ none ↦ get_elem? r.vshards v | some names ↦ get_elem? names v ]) p

module _ (float_text : FloatText) where
  target-ok :
      (table : String) (values : List Bytes) (types : List String) (r : Registry)
      (burrows : List String) (name : String)
      → target_for_table_shard_key float_text table values types r burrows ≡ ok name
      → (key : Bytes) × (owner_of_key float_text table r burrows key ≡ ok name)
  unfolding target_for_table_shard_key
  target-ok table values types r burrows name h =
      let (_, rest) =
        >>-eq-ok (refuse (incomplete float_text values types burrows) rejected)
          (canonical_all float_text values (types_for values types) >>= λ vs.
            owner_of_key float_text table r burrows (join_key vs))
          h in
      let (canonical, _, owner) =
        >>=-eq-ok (canonical_all float_text values (types_for values types))
          (λ vs. owner_of_key float_text table r burrows (join_key vs)) rest in
      (join_key canonical, owner)

  routed-ok : (o : Option String) (name : String) → or_unroutable o ≡ ok name → o ≡ some name
  routed-ok none name e = cc
  routed-ok (some x) name e = cc

  -- With a placement for the table, the key's vshard has an owner in it, or nothing is routed.
  owner_of_key-placed :
      (table : String) (r : Registry) (burrows : List String) (key : Bytes) (name : String)
      (owners : List String)
      → has_topology_placement r ≡ true
      → table_owners r table ≡ some owners
      → owner_of_key float_text table r burrows key ≡ ok name
      → (vshard_of key < length owners) × (get_elem? owners (vshard_of key) ≡ some name)
  unfolding owner_of_key
  owner_of_key-placed table r burrows key name owners t p h =
      elim (Bool-cases (vshard_count_for r table == virtual_shards)) [
        | inl whole ↦
            let size : length owners ≡ 65536 =
              sym (vshard_count_for-placed r table owners p)
              ∙ (==_iff (vshard_count_for r table) 65536).0 whole in
            let bounded = vshard_of-lt key in
            (
              omega arith,
              sym (vshard_owner_for-placed r table owners (vshard_of key) p)
                  ∙ routed-ok (vshard_owner_for r table (vshard_of key)) name (rw whole at h),
            )
        | inr part ↦ cc (rw (part, t) at h)
      ]

  -- For a table of a valid catalog, with the placements of the catalog in the registry: a key that is
  -- routed at all goes to a Burrow that `RoutableBurrowNames` lists.
  pub target-routable :
      (c : Catalog) (r : Registry) (table id : String) (values : List Bytes)
      (types burrows : List String) (placements : GoMap (List String)) (name : String)
      → validate c ≡ ok tt
      → table_placements c ≡ ok placements
      → get (canonical_table (with_table_vshards placements r) table) c.table_distributions
        ≡ some id
      → target_for_table_shard_key float_text table values types
          (with_table_vshards placements r)
          burrows
        ≡ ok name
      → contains name (routable_burrow_names c) ≡ true
  target-routable c r table id values types burrows placements name valid made placed h =
      let registry = with_table_vshards placements r in
      let (placements', owners, made', owned, each) =
        placement-routable c (canonical_table registry table) id valid placed in
      let same : placements' ≡ placements = cc in
      let owned' : get (canonical_table registry table) placements ≡ some owners =
        subst (λ m. get (canonical_table registry table) m ≡ some owners) same owned in
      let (key, owner) = target-ok table values types registry burrows name h in
      let (bounded, found) =
        owner_of_key-placed table registry burrows key name owners refl owned' owner in
      let (name', found', listed) = each (vshard_of key) bounded in
      let same_name : name' ≡ name = cc in
      subst (λ x. contains x (routable_burrow_names c) ≡ true) same_name listed
