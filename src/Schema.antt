-- ===== src/Schema.antt =====
-- `Registry` of internal/schema/registry.go: the tables of the fleet with their shard keys.
pub mod Search
pub mod RoundTrip
use Prim.Native.Char.{code}
use Prim.Native.String.{◌++◌ as ◌++ₛ◌}
use hamstergres.Base.{
  ℕ, zero, suc, ◌+◌, ◌==◌, ltb, String, str_eq, Bool, true, false, not, ◌&&◌, ◌||◌, List, [], ◌∷◌,
  Option, none, some, is_present, Result, ok, err, ◌>>=◌, ◌>>◌, refuse, if◌then◌else◌, length,
  get_elem?,
}
use hamstergres.Base.GoMap.{GoMap, get, keys}
use hamstergres.Base.Sort.{sort, str_le}

pub record GeneratedPrimary : Type 0 where
  pub column : String
  pub kind : String

-- `table_vshards` is `none` for the source's nil map.
pub record Registry : Type 0 where
  pub format_version : ℕ
  pub revision : ℕ  -- uint64
  pub tables : GoMap (List String)
  pub shard_key_types : GoMap (List String)
  pub generated : GoMap GeneratedPrimary
  pub vshards : List String
  pub table_vshards : Option (GoMap (List String))
  pub all_tables : List String

abbrev pub registry_format : ℕ
registry_format = 4

unfoldable pub new_registry :
    GoMap (List String) → GoMap GeneratedPrimary → GoMap (List String) → Registry
new_registry tables generated types = record {
  format_version = registry_format;
  revision = 0;
  tables = tables;
  shard_key_types = types;
  generated = generated;
  vshards = [];
  table_vshards = none;
  all_tables = [];
}

abbrev pub with_revision : ℕ → Registry → Registry
with_revision n r = record r { revision = n }

abbrev pub with_vshards : List String → Registry → Registry
with_vshards owners r = record r { vshards = owners }

abbrev pub with_table_vshards : GoMap (List String) → Registry → Registry
with_table_vshards placements r = record r { table_vshards = some placements }

unfoldable pub with_all_tables : List String → Registry → Registry
with_all_tables names r = record r { all_tables = sort names }

abbrev pub has_topology_placement : Registry → Bool
has_topology_placement r = is_present r.table_vshards

abbrev pub shard_key : Registry → String → Option (List String)
shard_key r table = get table r.tables

abbrev pub shard_key_types_of : Registry → String → Option (List String)
shard_key_types_of r table = get table r.shard_key_types

abbrev pub generated_primary_key : Registry → String → Option GeneratedPrimary
generated_primary_key r table = get table r.generated

abbrev pub is_sharded : Registry → String → Bool
is_sharded r table = is_present (shard_key r table)

-- sort.SearchStrings, on a sorted slice: the first index whose text is not before `x`
unfoldable pub search_strings : List String → String → ℕ
search_strings [] x = 0
search_strings (y ∷ ys) x = let rest = search_strings ys x in if str_le x y then 0 else suc rest

-- index < len(all) && all[index] == x
abbrev pub is_at : Option String → String → Bool
is_at none x = false
is_at (some y) x = str_eq y x

abbrev pub is_listed : List String → String → Bool
is_listed names x = is_at (get_elem? names (search_strings names x)) x

-- strings.Contains(_, ".")
unfoldable pub contains_dot : String → Bool
contains_dot String.[] = false
contains_dot (String.◌∷◌ c s) = code c == 46 || contains_dot s

unfoldable pub canonical_table : Registry → String → String
canonical_table r table =
    if contains_dot table
    then table
    else if is_listed r.all_tables ("public." ++ₛ table)
    then "public." ++ₛ table
    else table

unfoldable pub has_table : Registry → String → Bool
has_table r table = is_listed r.all_tables (canonical_table r table)

-- A lookup in a nil map finds nothing.
abbrev pub table_owners : Registry → String → Option (List String)
table_owners r table = elim r.table_vshards [
  | none ↦ none
  | some placements ↦ get (canonical_table r table) placements
]

unfoldable pub vshard_count_for : Registry → String → ℕ
vshard_count_for r table = elim (table_owners r table) [
  | none ↦ length r.vshards
  | some owners ↦ length owners
]

-- A vshard is a natural number: the callers reduce it modulo 65536.
abbrev pub vshard_owner : Registry → ℕ → Option String
vshard_owner r vshard = get_elem? r.vshards vshard

unfoldable pub vshard_owner_for : Registry → String → ℕ → Option String
vshard_owner_for r table vshard = elim (table_owners r table) [
  | none ↦ vshard_owner r vshard
  | some owners ↦ get_elem? owners vshard
]

-- The larger of a maximum and the placements' lengths.
unfoldable pub longest : ℕ → GoMap (List String) → ℕ
longest maximum [] = maximum
longest maximum ((table, owners) ∷ rest) =
    longest (if ltb maximum (length owners) then length owners else maximum) rest

unfoldable pub maximum_vshard_count : Registry → ℕ
maximum_vshard_count r = elim r.table_vshards [
  | none ↦ length r.vshards
  | some placements ↦ longest (length r.vshards) placements
]

unfoldable pub sharded_of : Registry → List String → List String
sharded_of r [] = []
sharded_of r (t ∷ ts) = let rest = sharded_of r ts in if is_sharded r t then t ∷ rest else rest

abbrev pub canonical_sharded_tables : Registry → List String
canonical_sharded_tables r = sharded_of r r.all_tables

pub record TableInventory : Type 0 where
  pub table : String
  pub sharded : Bool
  pub shard_keys : List String

abbrev pub or_nil : Option (List String) → List String
or_nil none = []
or_nil (some keys') = keys'

unfoldable pub inventory_of : Registry → List String → List TableInventory
inventory_of r [] = []
inventory_of r (t ∷ ts) =
    record { table = t; sharded = is_sharded r t; shard_keys = or_nil (shard_key r t) }
    ∷ inventory_of r ts

-- strings.Join(_, "\x00")
unfoldable pub join_nul : List String → String
join_nul [] = ""
join_nul (s ∷ []) = s
join_nul (s ∷ t ∷ ts) = s ++ₛ "\0" ++ₛ join_nul (t ∷ ts)

-- One constructor for each message.
pub data Difference : Type 0 where
  table_count type_count generated_count inventory_differs placement_differs : Difference
  shard_key_differs shard_key_types_differ generated_differs : String → Difference

abbrev pub same_columns : List String → Option (List String) → Bool
same_columns columns none = false
same_columns columns (some others) = str_eq (join_nul columns) (join_nul others)

-- for table, columns := range m
unfoldable pub check_columns :
    (String → Difference) → GoMap (List String) → GoMap (List String) → Result Difference (Unit {0})
check_columns differs [] others = ok tt
check_columns differs ((table, columns) ∷ rest) others = do
  refuse (not (same_columns columns (get table others))) (differs table)
  check_columns differs rest others

-- A missing key reads the zero value.
abbrev pub or_zero : Option GeneratedPrimary → GeneratedPrimary
or_zero none = record { column = ""; kind = "" }
or_zero (some g) = g

unfoldable pub check_generated :
    GoMap GeneratedPrimary → GoMap GeneratedPrimary → Result Difference (Unit {0})
check_generated [] others = ok tt
check_generated ((table, g) ∷ rest) others = do
  let other = or_zero (get table others)
  refuse (not (str_eq other.column g.column && str_eq other.kind g.kind)) (generated_differs table)
  check_generated rest others

unfoldable pub equal_schema : Registry → Registry → Result Difference (Unit {0})
equal_schema r other = do
  refuse (not (length r.tables == length other.tables)) table_count
  check_columns shard_key_differs r.tables other.tables
  refuse (not (length r.shard_key_types == length other.shard_key_types)) type_count
  check_columns shard_key_types_differ r.shard_key_types other.shard_key_types
  refuse (not (length r.generated == length other.generated)) generated_count
  check_generated r.generated other.generated
  refuse (not (str_eq (join_nul r.all_tables) (join_nul other.all_tables))) inventory_differs

unfoldable pub equal : Registry → Registry → Result Difference (Unit {0})
equal r other = do
  equal_schema r other
  refuse (not (str_eq (join_nul r.vshards) (join_nul other.vshards))) placement_differs

unfoldable pub table_names : Registry → List String
table_names r = sort (keys r.tables)

pub record Snapshot : Type 0 where
  pub format_version : ℕ
  pub revision : ℕ
  pub tables : GoMap (List String)
  pub shard_key_types : GoMap (List String)
  pub generated : GoMap GeneratedPrimary
  pub vshards : List String
  pub all_tables : List String

unfoldable pub snapshot : Registry → Snapshot
snapshot r = record {
  format_version = registry_format;
  revision = r.revision;
  tables = r.tables;
  shard_key_types = r.shard_key_types;
  generated = r.generated;
  vshards = [];
  all_tables = r.all_tables;
}

abbrev pub or_default : ℕ → ℕ → ℕ
or_default zero n = n
or_default (suc m) n = suc m

-- `FromJSON`, from the snapshot that the JSON text holds.
unfoldable pub from_snapshot : Snapshot → Registry
from_snapshot s =
    record (with_all_tables s.all_tables (
      with_vshards s.vshards (
        with_revision (or_default s.revision 1)
          (new_registry s.tables s.generated s.shard_key_types)))) {
            format_version = or_default s.format_version 3;
          }
