-- ===== src/Topology/Placement.antt =====
-- `Catalog.TablePlacements` and `Catalog.RoutableBurrowNames` of internal/topology/catalog.go.
pub mod Owners
pub mod Routable
use hamstergres.Base.{
  ℕ, String, Bool, true, false, Option, none, some, List, [], ◌∷◌, get_elem?, pos, Result, ok, err,
  ◌>>=◌, if◌then◌else◌,
}
use hamstergres.Base.Sort.{sort}
use hamstergres.Base.GoMap.{GoMap, get, put}
use hamstergres.Base.GoMap.Index.{index}
use hamstergres.Topology.Catalog.{Burrow, Distribution, Catalog, is_routable}
use hamstergres.Topology.Validate.{Error, validate}

-- The error of `Validate`, or a slice indexed out of its range.
pub data Failure : Type 0 where
  rejected : Error → Failure
  out_of_range : Failure

abbrev pub at {ℓ} : {A : Type ℓ} → Option A → Result Failure A
at none = err out_of_range
at (some a) = ok a

-- A missing key reads the zero value.
abbrev pub or_empty : Option String → String
or_empty none = ""
or_empty (some s) = s

-- for index, ownerIndex := range distribution.OwnerIndexes
unfoldable pub owner_names : GoMap String → List String → List ℕ → Result Failure (List String)
owner_names names ids [] = ok []
owner_names names ids (i ∷ is) = do
  owner ← at (get_elem? ids i)
  rest ← owner_names names ids is
  ok (or_empty (get owner names) ∷ rest)

abbrev pub or_no_distribution : Option Distribution → Distribution
or_no_distribution none = record {
  id = "";
  vshard_count = pos 0;
  burrow_ids = [];
  owner_indexes = [];
}
or_no_distribution (some d) = d

-- for table, distributionID := range c.TableDistributions
unfoldable pub place_tables :
    GoMap String → GoMap Distribution → GoMap String → Result Failure (GoMap (List String))
place_tables names distributions [] = ok []
place_tables names distributions ((table, id) ∷ ts) = do
  owners ←
      (let d = or_no_distribution (get id distributions) in
        owner_names names d.burrow_ids d.owner_indexes)
  rest ← place_tables names distributions ts
  ok (put table owners rest)

-- `if err := c.Validate(); err != nil { return nil, err }`
abbrev pub or_rejected {ℓ} : {A : Type ℓ} → Result Error A → Result Failure A
or_rejected (ok a) = ok a
or_rejected (err e) = err (rejected e)

abbrev pub names_by_id : List Burrow → GoMap String
names_by_id bs = index (λ b. b.id) (λ b. b.name) bs []

unfoldable pub table_placements : Catalog → Result Failure (GoMap (List String))
table_placements c = do
  checked ← or_rejected (validate c)
  place_tables (names_by_id c.burrows) (index (λ d. d.id) (λ d. d) c.distributions [])
      c.table_distributions

-- The names of the Burrows that take traffic, in the order of the slice.
unfoldable pub routable_names : List Burrow → List String
routable_names [] = []
routable_names (b ∷ bs) =
    let rest = routable_names bs in if is_routable b.state then b.name ∷ rest else rest

unfoldable pub routable_burrow_names : Catalog → List String
unfolding routable_names
routable_burrow_names c = sort (routable_names c.burrows)
