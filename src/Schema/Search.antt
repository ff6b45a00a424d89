-- ===== src/Schema/Search.antt =====
-- The binary searches of internal/schema/registry.go find what the slice lists.
use hamstergres.Base.{◌≡◌, refl, ◌∙◌, String, eq_iff, List, [], ◌∷◌, arith, contains}
use hamstergres.Base.Sort.{sort, contains-sort}
use hamstergres.Base.Sort.Order.{IsSorted, sort-IsSorted, contains-le, str_le_antisym, str_le_self}
use hamstergres.Schema.{
  Registry, search_strings, is_listed, with_all_tables, has_table, canonical_table,
}

-- A search of a sorted slice finds exactly what a walk through the slice finds.
is_listed-IsSorted :
    (names : List String) (x : String) → IsSorted names → is_listed names x ≡ contains x names
unfolding search_strings
is_listed-IsSorted [] x s = refl
is_listed-IsSorted (y ∷ ys) x s = ground (
  arith,
  contains-le y x ys s.0,
  str_le_antisym x y,
  str_le_self x,
  eq_iff y x,
  is_listed-IsSorted ys x s.1,
)

-- After `WithAllTables`, `HasTable` says whether the canonical name of a table is in the inventory,
-- whatever the order in which the tables were given.
pub has_table_iff :
    (r : Registry) (names : List String) (table : String)
    → has_table (with_all_tables names r) table
      ≡ contains (canonical_table (with_all_tables names r) table) names
unfolding has_table with_all_tables
has_table_iff r names table =
    let x = canonical_table (record r { all_tables = sort names }) table in
    is_listed-IsSorted (sort names) x (sort-IsSorted names) ∙ contains-sort x names
