-- ===== src/Tests/Schema.antt =====
-- internal/schema/registry.go at a registry of two tables.
use hamstergres.Base.{◌≡◌, refl, String, true, List, [], ◌∷◌, contains, arith, ok}
use hamstergres.Base.Sort.{sort, insert}
use hamstergres.Schema.{
  Registry, new_registry, with_all_tables, canonical_table, has_table, contains_dot, search_strings,
  equal_schema, snapshot, from_snapshot,
}
use hamstergres.Schema.Search.{has_table_iff}
use hamstergres.Schema.RoundTrip.{IsRegistry, from_snapshot-snapshot}

abbrev pub names : List String
names = "public.zones" ∷ "public.accounts" ∷ []

abbrev pub registry : Registry
registry =
    record (new_registry (("public.accounts", "id" ∷ []) ∷ []) []
      (("public.accounts", "bigint" ∷ []) ∷ [])) {
        revision = 7;
        all_tables = "public.accounts" ∷ "public.zones" ∷ [];
      }

-- A name without a schema is looked up in the schema public.
finds_accounts : has_table (with_all_tables names registry) "accounts" ≡ true
unfolding has_table with_all_tables sort insert canonical_table contains_dot search_strings
finds_accounts = refl

has_table_iff_example :
    has_table (with_all_tables names registry) "accounts"
    ≡ contains (canonical_table (with_all_tables names registry) "accounts") names
has_table_iff_example = has_table_iff registry names "accounts"

registry-IsRegistry : IsRegistry registry
unfolding new_registry
registry-IsRegistry = record {
  tables_distinct = (refl, tt);
  types_distinct = (refl, tt);
  generated_distinct = tt;
  inventory_sorted = ((refl, tt), (tt, tt));
  has_revision = omega arith;
}

from_snapshot-snapshot_example :
    (equal_schema registry (from_snapshot (snapshot registry)) ≡ ok tt)
    × ((from_snapshot (snapshot registry)).revision ≡ registry.revision)
    × ((from_snapshot (snapshot registry)).vshards ≡ [])
from_snapshot-snapshot_example = from_snapshot-snapshot registry registry-IsRegistry
