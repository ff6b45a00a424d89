-- ===== src/Topology/Bootstrap.antt =====
-- `LegacyModuloOwners` of internal/topology/catalog.go.
pub mod Owners
use hamstergres.Base.{
  ℕ, zero, suc, ◌+◌, ◌-◌, ◌%◌, ◌==◌, String, List, [], ◌∷◌, Option, none, some, if◌then◌else◌,
  length, get_elem?,
}
use hamstergres.Base.Sort.{sort}

-- The index into the sorted names: the last for a remainder of 0, else the one before.
unfoldable pub legacy_index : ℕ → ℕ → ℕ
legacy_index names vshard = if vshard % names == 0 then names - 1 else vshard % names - 1

abbrev pub add_owner : Option String → Option (List String) → Option (List String)
add_owner (some name) (some rest) = some (name ∷ rest)
add_owner _ _ = none

-- The owners of `count` vshards from `vshard` on; `none` is a slice read out of its range.
unfoldable pub owners_from : List String → ℕ → ℕ → Option (List String)
owners_from sorted vshard zero = some []
owners_from sorted vshard (suc count) =
    add_owner (get_elem? sorted (legacy_index (length sorted) vshard))
      (owners_from sorted (vshard + 1) count)

abbrev pub empty_names : ℕ → List String
empty_names zero = []
empty_names (suc count) = "" ∷ empty_names count

abbrev pub owners_of : List String → ℕ → Option (List String)
owners_of [] count = some (empty_names count)
owners_of (name ∷ names) count = owners_from (name ∷ names) 0 count

unfoldable pub legacy_modulo_owners : List String → ℕ → Option (List String)
legacy_modulo_owners names count = owners_of (sort names) count
