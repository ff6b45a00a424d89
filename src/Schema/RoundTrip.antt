-- ===== src/Schema/RoundTrip.antt =====
-- A registry of internal/schema/registry.go, stored as a snapshot and read again.
use text.Mathlib.TextPositions.{eq_refl}
use hamstergres.Base.{
  ℕ, zero, suc, All, ◌<◌, ◌==◌, ◌≡◌, refl, String, eq_iff, true, false, List, [], ◌∷◌, some, arith,
  contains, length, ok, Distinct, contains-IsFresh, IsFresh-mono,
}
use hamstergres.Base.GoMap.{GoMap, get, keys}
use hamstergres.Base.Sort.{str_le, insert, sort}
use hamstergres.Base.Sort.Order.{IsSorted}
use hamstergres.Schema.{
  Registry, GeneratedPrimary, Difference, join_nul, check_columns, check_generated, equal_schema,
  snapshot, from_snapshot, with_all_tables, new_registry, or_default, shard_key_differs,
  shard_key_types_differ,
}

insert_first :
    (x : String) (ys : List String) → All (λ y. str_le x y ≡ true) ys → insert x ys ≡ x ∷ ys
unfolding insert
insert_first x [] a = refl
insert_first x (y ∷ ys) a = rw a.0

sort-eq : (xs : List String) → IsSorted xs → sort xs ≡ xs
unfolding sort
sort-eq [] s = refl
sort-eq (x ∷ xs) s = rw (sort-eq xs s.1) (insert_first x xs s.0)

module _ {ℓ} {V : Type ℓ} where
  -- Each entry of the first map is found in the second.
  abbrev pub AreEntries : GoMap V → GoMap V → Type ℓ
  AreEntries [] m = Unit
  AreEntries ((k, v) ∷ rest) m = (get k m ≡ some v) × AreEntries rest m

  AreEntries-cons :
      (k : String) (v : V) (rest m : GoMap V)
      → contains k (keys rest) ≡ false
      → AreEntries rest m
      → AreEntries rest ((k, v) ∷ m)
  unfolding get
  AreEntries-cons k v [] m h a = tt
  AreEntries-cons k v ((j, w) ∷ rest) m h a =
      (ground (arith, eq_iff k j, eq_refl j, a.0), AreEntries-cons k v rest m (ground arith) a.1)

  -- A map without repeated keys has its own entries.
  AreEntries-self : (m : GoMap V) → Distinct (keys m) → AreEntries m m
  unfolding get
  AreEntries-self [] d = tt
  AreEntries-self ((k, v) ∷ m) d =
      let fresh : contains k (keys m) ≡ false =
        ground (arith, contains-IsFresh (k ∷ []) (keys m) k d.1, eq_refl k) in
      let rest = IsFresh-mono (k ∷ []) [] (keys m) (λ j e. cc) d.1 in
      (ground (arith, eq_refl k), AreEntries-cons k v m m fresh (AreEntries-self m rest))

check_columns_self :
    (differs : String → Difference) (rest m : GoMap (List String))
    → AreEntries rest m
    → check_columns differs rest m ≡ ok tt
unfolding check_columns
check_columns_self differs [] m a = refl
check_columns_self differs ((k, v) ∷ rest) m a =
    rw (a.0, eq_refl (join_nul v)) (check_columns_self differs rest m a.1)

check_generated_self :
    (rest m : GoMap GeneratedPrimary) → AreEntries rest m → check_generated rest m ≡ ok tt
unfolding check_generated
check_generated_self [] m a = refl
check_generated_self ((k, v) ∷ rest) m a =
    rw (a.0, eq_refl v.column, eq_refl v.kind) (check_generated_self rest m a.1)

-- Maps without repeated keys, a revision that has been assigned and a sorted inventory.
pub record IsRegistry (r : Registry) : Type 0 where
  pub tables_distinct : Distinct (keys r.tables)
  pub types_distinct : Distinct (keys r.shard_key_types)
  pub generated_distinct : Distinct (keys r.generated)
  pub inventory_sorted : IsSorted r.all_tables
  pub has_revision : 0 < r.revision

or_default-pos : (n d : ℕ) → 0 < n → or_default n d ≡ n
or_default-pos zero d h = absurd (omega arith)
or_default-pos (suc n) d h = refl

-- A registry that is stored as a snapshot and read again has the schema that it had, and its
-- revision; the placement of a former format is left behind.
pub from_snapshot-snapshot :
    (r : Registry)
    → IsRegistry r
    → (equal_schema r (from_snapshot (snapshot r)) ≡ ok tt)
      × ((from_snapshot (snapshot r)).revision ≡ r.revision)
      × ((from_snapshot (snapshot r)).vshards ≡ [])
unfolding equal_schema from_snapshot snapshot with_all_tables new_registry
from_snapshot-snapshot r w = (
  rw (
    check_columns_self shard_key_differs r.tables r.tables
        (AreEntries-self r.tables w.tables_distinct),
    check_columns_self shard_key_types_differ r.shard_key_types r.shard_key_types
        (AreEntries-self r.shard_key_types w.types_distinct),
    check_generated_self r.generated r.generated (AreEntries-self r.generated w.generated_distinct),
    sort-eq r.all_tables w.inventory_sorted,
    eq_refl (join_nul r.all_tables),
    same_length (length r.tables),
    same_length (length r.shard_key_types),
    same_length (length r.generated),
  ),
  or_default-pos r.revision 1 w.has_revision,
  refl,
)
  where
    same_length : (n : ℕ) → (n == n) ≡ true
    same_length n = ground arith
