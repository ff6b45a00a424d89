-- ===== src/Tests/Placed.antt =====
-- internal/router/router.go with a catalog of internal/topology/catalog.go that places 65536 vshards.
use hamstergres.Base.{
  ℕ, zero, suc, ◌<◌, ◌≡◌, refl, sym, ap, ◌∙◌, String, true, List, [], ◌∷◌, none, some, ok, pos,
  arith, All, length, get_elem?, contains,
}
use hamstergres.Base.GoMap.{GoMap, get}
use hamstergres.Topology.Catalog.{Distribution, Catalog, ready, is_routable}
use hamstergres.Topology.Validate.{validate}
use hamstergres.Topology.Validate.Catalogs.{validate_iff}
use hamstergres.Topology.WellFormed.{IsValidDistribution}
use hamstergres.Topology.Placement.{table_placements, routable_burrow_names}
use hamstergres.Topology.Placement.Owners.{table_placements_total, dictionary_owner}
use hamstergres.Schema.{Registry, canonical_table, contains_dot, with_table_vshards, new_registry}
use hamstergres.Router.Scalar.{FloatText, canonical_scalar}
use hamstergres.Router.Target.{vshard_of, canonical_all, owner_of_key, target_for_table_shard_key}
use hamstergres.Router.Target.Legacy.{vshard_of-lt}
use hamstergres.Router.Target.Owners.{
  vshard_count_for-placed, vshard_owner_for-placed, target-routable,
}
use hamstergres.Tests.Topology.{c₁, c₁_valid, both, burrow, accounts_placed}

unfoldable zeros : ℕ → List ℕ
zeros zero = []
zeros (suc n) = 0 ∷ zeros n

length-zeros : (n : ℕ) → length (zeros n) ≡ n
unfolding zeros
length-zeros zero = refl
length-zeros (suc n) = ap suc (length-zeros n)

zeros_small : (n : ℕ) → All (λ i. i < 1) (zeros n)
unfolding zeros
zeros_small zero = tt
zeros_small (suc n) = (omega arith, zeros_small n)

get_elem?-zeros : (n v : ℕ) → v < n → get_elem? (zeros n) v ≡ some 0
unfolding zeros
get_elem?-zeros zero v h = absurd (omega arith)
get_elem?-zeros (suc n) zero h = refl
get_elem?-zeros (suc n) (suc v) h = get_elem?-zeros n v (omega arith)

abbrev whole : Distribution
whole = record both { vshard_count = pos 65536; burrow_ids = "a" ∷ []; owner_indexes = zeros 65536 }

abbrev placed : Catalog
placed = record c₁ { distributions = whole ∷ [] }

whole-IsValidDistribution : IsValidDistribution placed.burrows whole
unfolding is_routable
whole-IsValidDistribution = record {
  identified = λ e. cc;
  positive = omega (arith, length-zeros 65536);
  covered = ap pos (sym (length-zeros 65536));
  owned = omega arith;
  indexable = omega arith;
  owners_distinct = (refl, tt);
  owners_known = ((burrow "a" "first" ready, refl, refl), tt);
  in_range = zeros_small 65536;
}

placed_valid : validate placed ≡ ok tt
placed_valid =
    let w = (validate_iff c₁).0 c₁_valid in
    (validate_iff placed).1 (record {
      stamped = record {
        format = w.stamped.format;
        revised = w.stamped.revised;
        schema_format = w.stamped.schema_format;
        schema_revision = w.stamped.schema_revision;
        schema_fingerprint = w.stamped.schema_fingerprint;
        actor = w.stamped.actor;
        reason = w.stamped.reason;
        time = w.stamped.time;
      };
      burrows_valid = w.burrows_valid;
      ids_distinct = w.ids_distinct;
      names_distinct = w.names_distinct;
      distributions_valid = (whole-IsValidDistribution, tt);
      distributions_distinct = (refl, tt);
      tables_placed = w.tables_placed;
    })

abbrev placements : GoMap (List String)
placements = (table_placements_total placed placed_valid).0

made : table_placements placed ≡ ok placements
made = (table_placements_total placed placed_valid).1

abbrev registry : Registry
registry = with_table_vshards placements (new_registry (("public.accounts", "id" ∷ []) ∷ []) [] [])

abbrev float_text : FloatText
float_text width v = none

abbrev key : List ℕ
key = b'7' ∷ []

-- The vshard of the key has an owner, the one Burrow of the distribution.
owned :
    (owners : List String) × (get "public.accounts" placements ≡ some owners)
    × (length owners ≡ 65536)
    × (get_elem? owners (vshard_of key) ≡ some "first")
owned =
    let (d, found, owners, got, size, names) =
      (table_placements_total placed placed_valid).2 "public.accounts" "d" accounts_placed in
    let same : whole ≡ d = cc in
    let size' : length owners ≡ 65536 =
      size ∙ ap (λ x. length x.owner_indexes) (sym same) ∙ length-zeros 65536 in
    let bounded : vshard_of key < length d.owner_indexes =
      omega (arith, vshard_of-lt key, size, size') in
    let (b, listed, named, routable) = names (vshard_of key) bounded in
    let at_a : get_elem? d.owner_indexes (vshard_of key) ≡ some 0 =
      ap (λ x. get_elem? x.owner_indexes (vshard_of key)) (sym same)
      ∙ get_elem?-zeros 65536 (vshard_of key) (vshard_of-lt key) in
    let is_a : dictionary_owner placed.burrows whole.burrow_ids (some 0) ≡ some b =
      ap (λ x. dictionary_owner placed.burrows x.burrow_ids (some 0)) same
      ∙ ap (dictionary_owner placed.burrows d.burrow_ids) (sym at_a)
      ∙ listed in
    let first_name : "first" ≡ b.name = cc in (owners, got, size', named ∙ ap some (sym first_name))

routes_first :
    target_for_table_shard_key float_text "public.accounts" (key ∷ []) [] registry ("first" ∷ [])
    ≡ ok "first"
unfolding target_for_table_shard_key canonical_all canonical_scalar owner_of_key canonical_table
    contains_dot
routes_first =
    let (owners, got, size, first_owns) = owned in
    let count = vshard_count_for-placed registry "public.accounts" owners got ∙ size in
    let owner =
      vshard_owner_for-placed registry "public.accounts" owners (vshard_of key) got ∙ first_owns in
    rw (count, owner) refl

target-routable_example : contains "first" (routable_burrow_names placed) ≡ true
unfolding canonical_table contains_dot
target-routable_example =
    target-routable float_text placed (new_registry (("public.accounts", "id" ∷ []) ∷ []) [] [])
      "public.accounts" "d" (key ∷ []) [] ("first" ∷ []) placements "first" placed_valid made
      accounts_placed routes_first
