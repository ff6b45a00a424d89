-- ===== src/Topology/Placement/Owners.antt =====
-- The placements of a valid catalog: total, and as the distributions say.
use hamstergres.Base.{
  ℕ, zero, suc, ◌<◌, String, true, false, ◌≡◌, refl, ap, ◌∙◌, Option, none, some, List, [], ◌∷◌,
  map, arith, length, get_elem?, get_elem?_total, All, All-get_elem?, Distinct, find_by,
  find_by-All, ok, str_eq, is_present-find_by, Option-cases, Bool-cases, inl, inr,
}
use hamstergres.Base.GoMap.{GoMap, get, put, get-put}
use hamstergres.Base.GoMap.Index.{index, get-index, get-index_self}
use hamstergres.Topology.Catalog.{Burrow, Distribution, Catalog, is_routable}
use hamstergres.Topology.Validate.{validate}
use hamstergres.Topology.Validate.Catalogs.{validate_iff}
use hamstergres.Topology.WellFormed.{
  burrow_id, burrow_name, distribution_id, IsOwner, IsValidDistribution, IsPlaced,
}
use hamstergres.Topology.Placement.{owner_names, place_tables, names_by_id, table_placements}

-- The Burrow with the identifier at the vshard's index into the dictionary.
abbrev pub dictionary_owner : List Burrow → List String → Option ℕ → Option Burrow
dictionary_owner bs ids none = none
dictionary_owner bs ids (some i) = elim (get_elem? ids i) [
  | none ↦ none
  | some id ↦ find_by burrow_id id bs
]

-- The names are those of routable owners, one to a vshard.
abbrev pub NamesOwners : List Burrow → List String → List ℕ → List String → Type 0
NamesOwners bs ids indexes owners =
    (v : ℕ)
    → v < length indexes
    → (b : Burrow) × (dictionary_owner bs ids (get_elem? indexes v) ≡ some b)
      × (get_elem? owners v ≡ some b.name)
      × (is_routable b.state ≡ true)

NamesOwners-cons :
    (bs : List Burrow) (ids : List String) (i : ℕ) (is : List ℕ) (owners : List String) (o : String)
    (b : Burrow)
    → get_elem? ids i ≡ some o
    → find_by burrow_id o bs ≡ some b
    → is_routable b.state ≡ true
    → NamesOwners bs ids is owners
    → NamesOwners bs ids (i ∷ is) (b.name ∷ owners)
NamesOwners-cons bs ids i is owners o b e f r h zero lt = (b, rw (e, dictionary_owner) f, refl, r)
NamesOwners-cons bs ids i is owners o b e f r h (suc v) lt = h v (omega arith)

module _ (bs : List Burrow) (names : GoMap String)
    (named : (k : String) (b : Burrow)
      → find_by burrow_id k bs ≡ some b
      → get k names ≡ some b.name) where
  owner_names_total :
      (ids : List String) (is : List ℕ)
      → All (IsOwner bs) ids
      → All (λ i. i < length ids) is
      → (owners : List String) × (owner_names names ids is ≡ ok owners)
        × (length owners ≡ length is)
        × NamesOwners bs ids is owners
  unfolding owner_names
  owner_names_total ids [] known bounded = ([], refl, refl, λ v lt. elim lt [ ])
  owner_names_total ids (i ∷ is) known bounded =
      let (o, e) = get_elem?_total ids i bounded.0 in
      let (b, f, r) = All-get_elem? (IsOwner bs) ids i o known e in
      let (owners, done, same, each) = owner_names_total ids is known bounded.1 in
      (
        b.name ∷ owners,
        rw (e, done, named o b f),
        ap suc same,
        NamesOwners-cons bs ids i is owners o b e f r each,
      )

-- The table's placement is as its distribution says, vshard by vshard.
abbrev pub PlacesTable :
    List Burrow → List Distribution → String → String → GoMap (List String) → Type 0
PlacesTable bs ds table id placements =
    (d : Distribution) × (find_by distribution_id id ds ≡ some d)
    × (owners : List String) × (get table placements ≡ some owners)
    × (length owners ≡ length d.owner_indexes)
    × NamesOwners bs d.burrow_ids d.owner_indexes owners

-- The distribution that a placed table names.
IsPlaced-find :
    (ds : List Distribution) (table id : String)
    → IsPlaced ds (table, id)
    → (d : Distribution) × (find_by distribution_id id ds ≡ some d)
IsPlaced-find ds table id h =
    let present = is_present-find_by distribution_id id ds in
    elim (Option-cases (find_by distribution_id id ds)) [
      | inl e ↦ absurd (ground (arith, present))
      | inr (d, e) ↦ (d, e)
    ]

PlacesTable-put_ne :
    (bs : List Burrow) (ds : List Distribution) (t t' id : String) (owners : List String)
    (placements : GoMap (List String))
    → str_eq t t' ≡ false
    → PlacesTable bs ds t' id placements
    → PlacesTable bs ds t' id (put t owners placements)
PlacesTable-put_ne bs ds t t' id owners placements ne (d, e, os, g, l, each) =
    (d, e, os, rw (get-put, ne) g, l, each)

module _ (bs : List Burrow) (ds : List Distribution) (names : GoMap String)
    (distributions : GoMap Distribution)
    (named : (k : String) (b : Burrow)
      → find_by burrow_id k bs ≡ some b
      → get k names ≡ some b.name)
    (listed : (k : String) → get k distributions ≡ find_by distribution_id k ds)
    (valid : All (IsValidDistribution bs) ds) where
  place_tables_total :
      (ts : GoMap String)
      → All (IsPlaced ds) ts
      → (placements : GoMap (List String)) × (place_tables names distributions ts ≡ ok placements)
        × ((t id : String) → get t ts ≡ some id → PlacesTable bs ds t id placements)
  unfolding place_tables get
  place_tables_total [] placed = ([], refl, λ t id e. cc)
  place_tables_total ((table, id) ∷ ts) placed =
      let (d, e) = IsPlaced-find ds table id placed.0 in
      let (v, _) = find_by-All (IsValidDistribution bs) distribution_id id ds d valid e in
      let (owners, done, same, each) =
        owner_names_total bs names named d.burrow_ids d.owner_indexes v.owners_known v.in_range in
      let (rest, placed', all) = place_tables_total ts placed.1 in
      (
        put table owners rest,
        rw (listed id, e, done, placed'),
        λ t id' at_t. elim (Bool-cases (str_eq table t)) [
          | inl here ↦
              let same_id : id ≡ id' = ground arith in
              (d, rw (← same_id) e, owners, rw (get-put, here), same, each)
          | inr ne ↦ PlacesTable-put_ne bs ds table t id' owners rest ne (all t id' (ground arith))
        ],
      )

found_name :
    (bs : List Burrow) (k : String) (b : Burrow)
    → Distinct (map burrow_id bs)
    → find_by burrow_id k bs ≡ some b
    → get k (names_by_id bs) ≡ some b.name
found_name bs k b ids e = get-index burrow_id burrow_name [] bs [] k ids ∙ rw e

-- A catalog that validates has placements, with no slice read out of range. Each table's has as many entries as
-- its distribution has vshards, and the entry of a vshard is the name of a ready or draining
-- Burrow, the one that the distribution's dictionary gives for that vshard.
pub table_placements_total :
    (c : Catalog)
    → validate c ≡ ok tt
    → (placements : GoMap (List String)) × (table_placements c ≡ ok placements)
      × ((table id : String)
          → get table c.table_distributions ≡ some id
          → PlacesTable c.burrows c.distributions table id placements)
unfolding table_placements
table_placements_total c valid =
    let w = (validate_iff c).0 valid in
    rw valid (
      place_tables_total c.burrows c.distributions (names_by_id c.burrows)
        (index distribution_id (λ d. d) c.distributions [])
        (λ k b e. found_name c.burrows k b w.ids_distinct e)
        (λ k. get-index_self distribution_id c.distributions k w.distributions_distinct)
        w.distributions_valid c.table_distributions w.tables_placed)
