-- ===== src/Topology/Bootstrap/Owners.antt =====
-- The placement of `LegacyModuloOwners` of internal/topology/catalog.go.
use native.Mathlib.Nat.{mod-lt, mod-eq_of_lt, mod-add-mod, add-mod_right}
use hamstergres.Base.{
  ℕ, zero, suc, ◌+◌, ◌-◌, ◌%◌, ◌==◌, ◌<◌, ◌≡◌, refl, sym, ap, ◌∙◌, String, List, [], ◌∷◌, some,
  length, get_elem?, get_elem?_total, arith, if◌then◌else◌,
}
use hamstergres.Base.Sort.{insert, sort}
use hamstergres.Topology.Bootstrap.{legacy_index, owners_from, owners_of, legacy_modulo_owners}

-- The branches of the source are one subtraction, modulo the number of names.
pub legacy_index-eq : (n vshard : ℕ) → 0 < n → legacy_index n vshard ≡ (vshard + (n - 1)) % n
unfolding legacy_index
legacy_index-eq n vshard h =
    let r = mod-lt vshard h in by_remainder (vshard % n) refl r ∙ mod-add-mod vshard n (n - 1)
  where
    by_remainder :
        (r : ℕ)
        → vshard % n ≡ r
        → vshard % n < n
        → (if vshard % n == 0 then n - 1 else vshard % n - 1) ≡ (vshard % n + (n - 1)) % n
    by_remainder zero e small =
        rw e (sym (mod-eq_of_lt {n = n - 1} {m = n} (omega arith)) ∙ ap (λ x. x % n) (omega arith))
    by_remainder (suc r) e small =
        let low : r < n = omega (arith, e) in
        let whole : suc r + (n - 1) ≡ r + n = omega arith in
        rw (e, whole, add-mod_right r n, mod-eq_of_lt {n = r} {m = n} low) (ground arith)

length-insert : (s : String) (ts : List String) → length (insert s ts) ≡ suc (length ts)
unfolding insert
length-insert s [] = refl
length-insert s (t ∷ ts) = ground (arith, length-insert s ts)

pub length-sort : (ss : List String) → length (sort ss) ≡ length ss
unfolding sort
length-sort [] = refl
length-sort (s ∷ ss) = omega (arith, length-insert s (sort ss), length-sort ss)

owners_from_total :
    (sorted : List String) (vshard count : ℕ)
    → 0 < length sorted
    → (owners : List String) × (owners_from sorted vshard count ≡ some owners)
      × (length owners ≡ count)
      × ((i : ℕ)
          → i < count
          → get_elem? owners i
            ≡ get_elem? sorted ((vshard + i + (length sorted - 1)) % length sorted))
unfolding owners_from
owners_from_total sorted vshard zero h = ([], refl, refl, λ i small. absurd (omega arith))
owners_from_total sorted vshard (suc count) h =
    let index = legacy_index-eq (length sorted) vshard h in
    let inside : legacy_index (length sorted) vshard < length sorted =
      rw index (mod-lt (vshard + (length sorted - 1)) h) in
    let (name, found) = get_elem?_total sorted (legacy_index (length sorted) vshard) inside in
    let (owners, rest, size, later) = owners_from_total sorted (vshard + 1) count h in
    (name ∷ owners, rw (found, rest), omega (arith, size), entries name owners found index later)
  where
    entries :
        (name : String) (owners : List String)
        → get_elem? sorted (legacy_index (length sorted) vshard) ≡ some name
        → legacy_index (length sorted) vshard ≡ (vshard + (length sorted - 1)) % length sorted
        → ((i : ℕ)
            → i < count
            → get_elem? owners i
              ≡ get_elem? sorted ((vshard + 1 + i + (length sorted - 1)) % length sorted))
        → (i : ℕ) → i < suc count
        → get_elem? (name ∷ owners) i
          ≡ get_elem? sorted ((vshard + i + (length sorted - 1)) % length sorted)
    entries name owners found index later zero small =
        let same : vshard + 0 ≡ vshard = omega arith in rw (same, ← index) (sym found)
    entries name owners found index later (suc i) small =
        let same : vshard + 1 + i ≡ vshard + suc i = omega arith in
        later i (omega arith)
        ∙ ap (λ x. get_elem? sorted ((x + (length sorted - 1)) % length sorted)) same

-- From one or more names, `LegacyModuloOwners` reads no slice out of range and gives each of the
-- `count` vshards the name that stands at the index `vshard - 1`, modulo the number of names, of the
-- sorted names.
pub legacy_modulo_owners_total :
    (names : List String) (count : ℕ)
    → 0 < length names
    → (owners : List String) × (legacy_modulo_owners names count ≡ some owners)
      × (length owners ≡ count)
      × ((vshard : ℕ)
          → vshard < count
          → get_elem? owners vshard
            ≡ get_elem? (sort names) ((vshard + (length names - 1)) % length names))
unfolding legacy_modulo_owners
legacy_modulo_owners_total names count h = by_sorted (sort names) (length-sort names)
  where
    by_sorted :
        (sorted : List String)
        → length sorted ≡ length names
        → (owners : List String) × (owners_of sorted count ≡ some owners)
          × (length owners ≡ count)
          × ((vshard : ℕ)
              → vshard < count
              → get_elem? owners vshard
                ≡ get_elem? sorted ((vshard + (length names - 1)) % length names))
    by_sorted [] e = absurd (omega (arith, e))
    by_sorted (s ∷ sorted) e =
        let (owners, run, size, entry) = owners_from_total (s ∷ sorted) 0 count (omega arith) in
        let n = length (s ∷ sorted) in
        (
          owners,
          run,
          size,
          λ v small.
              entry v small
              ∙ ap (λ x. get_elem? (s ∷ sorted) ((x + (n - 1)) % n)) {x = 0 + v} {y = v}
                  (omega arith)
              ∙ ap (λ m. get_elem? (s ∷ sorted) ((v + (m - 1)) % m)) e,
        )
