-- ===== src/Router/Target/Legacy.antt =====
-- `BurrowForKey` of internal/router/router.go and `LegacyModuloOwners` of
-- internal/topology/catalog.go agree.
use hamstergres.Base.{
  ℕ, ◌+◌, ◌-◌, ◌%◌, ◌==◌, ◌<◌, ◌≡◌, sym, ap, ◌∙◌, String, List, [], ◌∷◌, some, none, ok, false,
  get_elem?_total, length, get_elem?, arith, Bool-cases, inl, inr,
}
use hamstergres.Base.Sort.{sort}
use hamstergres.Topology.Bootstrap.{legacy_index, legacy_modulo_owners}
use hamstergres.Topology.Bootstrap.Owners.{legacy_index-eq, length-sort, legacy_modulo_owners_total}
use hamstergres.Router.Bytes.{Bytes}
use hamstergres.Router.Target.{
  vshard_of, last_or_before, burrow_for_key, join_key, types_for, incomplete, canonical_all,
  owner_of_key, target_for_table_shard_key,
}
use hamstergres.Schema.{Registry, with_vshards, vshard_count_for, vshard_owner_for}
use hamstergres.Router.Scalar.{FloatText}

pub vshard_of-lt : (key : Bytes) → vshard_of key < 65536
unfolding vshard_of
vshard_of-lt key = omega arith

last_or_before-eq :
    (burrows : List String) (v : ℕ)
    → 0 < length burrows
    → last_or_before burrows (v % length burrows)
      ≡ get_elem? burrows ((v + (length burrows - 1)) % length burrows)
unfolding legacy_index
last_or_before-eq burrows v h =
    by_index ∙ ap (get_elem? burrows) (legacy_index-eq (length burrows) v h)
  where
    by_index :
        last_or_before burrows (v % length burrows)
        ≡ get_elem? burrows (legacy_index (length burrows) v)
    by_index = elim (Bool-cases (v % length burrows == 0)) [
      | inl whole ↦ rw whole
      | inr part ↦ rw part
    ]

burrow_for_key-eq :
    (key : Bytes) (burrows : List String)
    → 0 < length burrows
    → burrow_for_key key burrows
      ≡ get_elem? burrows ((vshard_of key + (length burrows - 1)) % length burrows)
unfolding burrow_for_key
burrow_for_key-eq key [] h = absurd (omega arith)
burrow_for_key-eq key (b ∷ bs) h = last_or_before-eq (b ∷ bs) (vshard_of key) h

-- The owner at the vshard of a key is the Burrow that `BurrowForKey` picks.
legacy_owner :
    (key : Bytes) (names : List String)
    → 0 < length names
    → (owners : List String) × (legacy_modulo_owners names 65536 ≡ some owners)
      × (length owners ≡ 65536)
      × (get_elem? owners (vshard_of key) ≡ burrow_for_key key (sort names))
legacy_owner key names h =
    let (owners, made, size, entry) = legacy_modulo_owners_total names 65536 h in
    let n : length (sort names) ≡ length names = length-sort names in
    let some_names : 0 < length (sort names) = omega (arith, n) in
    (
      owners,
      made,
      size,
      entry (vshard_of key) (vshard_of-lt key)
          ∙ ap (λ m. get_elem? (sort names) ((vshard_of key + (m - 1)) % m)) (sym n)
          ∙ sym (burrow_for_key-eq key (sort names) some_names),
    )

-- A registry whose placements are not those of tables, but one for all of 65536 vshards.
owner_of_key-legacy :
    (float_text : FloatText) (table : String) (r : Registry) (owners burrows : List String)
    (key : Bytes) (name : String)
    → r.table_vshards ≡ none
    → length owners ≡ 65536
    → get_elem? owners (vshard_of key) ≡ some name
    → owner_of_key float_text table (with_vshards owners r) burrows key ≡ ok name
unfolding owner_of_key vshard_count_for vshard_owner_for
owner_of_key-legacy float_text table r owners burrows key name untopological size at =
    rw (untopological, size, at)

-- LegacyModuloOwners makes a placement of one or more names for 65536 vshards. A registry with it,
-- and no placement by table, sends one or more values of a shard key, which have a type each or
-- none at all and have canonical texts, to the Burrow that BurrowForKey picks on the sorted names,
-- whatever Burrows are listed, of which there is one at least.
pub burrow_for_key-legacy :
    (float_text : FloatText) (table : String) (values : List Bytes) (types : List String)
    (r : Registry) (names burrows : List String) (canonical : List Bytes)
    → 0 < length names
    → r.table_vshards ≡ none
    → incomplete float_text values types burrows ≡ false
    → canonical_all float_text values (types_for values types) ≡ ok canonical
    → (owners : List String) × (name : String) × (legacy_modulo_owners names 65536 ≡ some owners)
      × (burrow_for_key (join_key canonical) (sort names) ≡ some name)
      × (target_for_table_shard_key float_text table values types (with_vshards owners r) burrows
          ≡ ok name)
unfolding target_for_table_shard_key
burrow_for_key-legacy float_text table values types r names burrows canonical h untopological whole
      read =
    let key = join_key canonical in
    let (owners, made, size, same) = legacy_owner key names h in
    let inside : vshard_of key < length owners = omega (arith, size, vshard_of-lt key) in
    let (name, at) = get_elem?_total owners (vshard_of key) inside in
    (
      owners,
      name,
      made,
      sym same ∙ at,
      rw (whole, read)
          (owner_of_key-legacy float_text table r owners burrows key name untopological size at),
    )
