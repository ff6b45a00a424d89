-- ===== src/Router/Target.antt =====
-- `TargetForTableShardKey`, `BurrowForKey` and `HashKey` of internal/router/router.go.
pub mod Legacy
pub mod Owners
use Prim.Native.Nat.{bit_xor}
use hamstergres.Base.{
  ℕ, zero, suc, ◌+◌, ◌-◌, ◌*◌, ◌%◌, ◌^◌, ◌==◌, String, str_eq, Bool, true, false, not, ◌&&◌, ◌||◌,
  List, [], ◌∷◌, ◌++◌, Option, none, some, Result, ok, err, ◌>>=◌, ◌>>◌, refuse, if◌then◌else◌,
  length, get_elem?,
}
use hamstergres.Schema.{Registry, vshard_count_for, vshard_owner_for, has_topology_placement}
use hamstergres.Router.Bytes.{Bytes}
use hamstergres.Router.Decimal.{ScalarError, rejected, panics}
use hamstergres.Router.Scalar.{FloatText, canonical_scalar}

abbrev pub virtual_shards : ℕ
virtual_shards = 65536

-- hash/fnv's New64a: the offset basis, and for each byte an exclusive or and a product
abbrev pub fnv_from : ℕ → Bytes → ℕ
fnv_from hash [] = hash
fnv_from hash (c ∷ cs) = fnv_from (bit_xor hash c * 1099511628211 % 2 ^ 64) cs

unfoldable pub hash_key : Bytes → ℕ
hash_key key = fnv_from 14695981039346656037 key

unfoldable pub vshard_of : Bytes → ℕ
unfolding hash_key
vshard_of key = hash_key key % virtual_shards

abbrev pub last_or_before : List String → ℕ → Option String
last_or_before burrows remainder =
    if remainder == 0
    then get_elem? burrows (length burrows - 1)
    else get_elem? burrows (remainder - 1)

-- `none` is a slice read out of its range.
unfoldable pub burrow_for_key : Bytes → List String → Option String
burrow_for_key key [] = some ""
burrow_for_key key (b ∷ bs) = last_or_before (b ∷ bs) (vshard_of key % length (b ∷ bs))

-- strings.Join(_, "\x00")
abbrev pub join_key : List Bytes → Bytes
join_key [] = []
join_key (v ∷ []) = v
join_key (v ∷ w ∷ vs) = v ++ 0 ∷ join_key (w ∷ vs)

abbrev pub no_types : List Bytes → List String
no_types [] = []
no_types (v ∷ vs) = "" ∷ no_types vs

-- The types of the values: given for each, or unknown.
abbrev pub types_for : List Bytes → List String → List String
types_for values types = if length types == length values then types else no_types values

abbrev pub or_unroutable : Option String → Result ScalarError String
or_unroutable none = err rejected
or_unroutable (some t) = ok t

abbrev pub or_panic : Option String → Result ScalarError String
or_panic none = err panics
or_panic (some t) = ok t

module _ (float_text : FloatText) where
  unfoldable pub canonical_all : List Bytes → List String → Result ScalarError (List Bytes)
  canonical_all [] types = ok []
  canonical_all (v ∷ vs) [] = err panics
  canonical_all (v ∷ vs) (t ∷ ts) = do
    value ← canonical_scalar float_text v t
    values ← canonical_all vs ts
    ok (value ∷ values)

  abbrev pub incomplete : List Bytes → List String → List String → Bool
  incomplete values types burrows =
      length values == 0
      || not (length types == 0) && not (length values == length types)
      || length burrows == 0

  -- The owner of a canonical key.
  unfoldable pub owner_of_key : String → Registry → List String → Bytes → Result ScalarError String
  owner_of_key table registry burrows key =
      if vshard_count_for registry table == virtual_shards
      then or_unroutable (vshard_owner_for registry table (vshard_of key))
      else if has_topology_placement registry
      then err rejected
      else or_panic (burrow_for_key key burrows)

  -- `err rejected` is the source's `"", false`.
  unfoldable pub target_for_table_shard_key :
      String → List Bytes → List String → Registry → List String → Result ScalarError String
  target_for_table_shard_key table values types registry burrows = do
    refuse (incomplete values types burrows) rejected
    canonical ← canonical_all values (types_for values types)
    owner_of_key table registry burrows (join_key canonical)
