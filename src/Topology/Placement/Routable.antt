-- ===== src/Topology/Placement/Routable.antt =====
-- The names that `Catalog.RoutableBurrowNames` returns, and the placements against them.
use hamstergres.Base.{
  ℕ, zero, suc, ◌<◌, String, true, false, ◌≡◌, refl, sym, ◌∙◌, Option, none, some, List, [], ◌∷◌,
  arith, length, get_elem?, contains, find_by, ok, ◌↔◌, str_eq, eq_iff, eq_refl, Bool-cases,
  Option-cases, ◌&&◌, ◌||◌, if◌then◌else◌, inl, inr, ◌⊎◌,
}
use hamstergres.Base.Sort.{contains-sort}
use hamstergres.Base.GoMap.{GoMap, get}
use hamstergres.Topology.Catalog.{
  Burrow, Catalog, BurrowState, adding, ready, draining, removed, other, is_routable,
}
use hamstergres.Topology.Validate.{validate}
use hamstergres.Topology.WellFormed.{burrow_id}
use hamstergres.Topology.Placement.{table_placements, routable_names, routable_burrow_names}
use hamstergres.Topology.Placement.Owners.{dictionary_owner, table_placements_total}

-- A ready or draining Burrow of the slice with the name.
abbrev pub IsRoutableName : List Burrow → String → Type 0
IsRoutableName bs name =
    (i : ℕ) × (b : Burrow) × (get_elem? bs i ≡ some b)
    × (b.name ≡ name)
    × ((b.state ≡ ready) ⊎ (b.state ≡ draining))

ready_or_draining : (s : BurrowState) → is_routable s ≡ true → (s ≡ ready) ⊎ (s ≡ draining)
unfolding is_routable
ready_or_draining ready h = inl refl
ready_or_draining draining h = inr refl
ready_or_draining adding h = cc
ready_or_draining removed h = cc
ready_or_draining (other t) h = cc

is_routable_state : (s : BurrowState) → (s ≡ ready) ⊎ (s ≡ draining) → is_routable s ≡ true
unfolding is_routable
is_routable_state s (inl is_ready) = rw is_ready
is_routable_state s (inr is_draining) = rw is_draining

no_names : (name : String) → ¬ (contains name (routable_names []) ≡ true)
unfolding routable_names
no_names name h = cc

contains-routable_names :
    (b : Burrow) (bs : List Burrow) (name : String)
    → contains name (routable_names (b ∷ bs))
      ≡ (is_routable b.state && str_eq b.name name || contains name (routable_names bs))
unfolding routable_names
contains-routable_names b bs name =
    elim (is_routable b.state)
      as (λ r.
        contains name (if r then b.name ∷ routable_names bs else routable_names bs)
        ≡ (r && str_eq b.name name || contains name (routable_names bs))) [
          | true ↦ refl
          | false ↦ refl
        ]

routable_names_sound :
    (bs : List Burrow) (name : String)
    → contains name (routable_names bs) ≡ true
    → IsRoutableName bs name
routable_names_sound [] name h = absurd (no_names name h)
routable_names_sound (b ∷ bs) name h =
    let both = contains-routable_names b bs name in
    elim (Bool-cases (is_routable b.state && str_eq b.name name)) [
      | inl here ↦ (
        0,
        b,
        refl,
        (eq_iff b.name name).0 (ground arith),
        ready_or_draining b.state (ground arith),
      )
      | inr ne ↦
          let (i, b', e, same, r) = routable_names_sound bs name (ground arith) in
          (suc i, b', e, same, r)
    ]

routable_names_complete :
    (bs : List Burrow) (i : ℕ) (b : Burrow)
    → get_elem? bs i ≡ some b
    → is_routable b.state ≡ true
    → contains b.name (routable_names bs) ≡ true
routable_names_complete [] i b e r = cc
routable_names_complete (x ∷ bs) zero b e r =
    let same : x ≡ b = cc in rw (contains-routable_names, same, r, eq_refl)
routable_names_complete (x ∷ bs) (suc i) b e r =
    rw (contains-routable_names, routable_names_complete bs i b e r) (ground arith)

-- The result lists a name exactly if a ready or draining Burrow of the catalog has it.
pub routable_burrow_names_iff :
    (c : Catalog) (name : String)
    → (contains name (routable_burrow_names c) ≡ true) ↔ IsRoutableName c.burrows name
unfolding routable_burrow_names
routable_burrow_names_iff c name = (
  λ h.
      routable_names_sound c.burrows name (sym (contains-sort name (routable_names c.burrows)) ∙ h),
  λ (i, b, e, same, r). rw (← same) (
      contains-sort b.name (routable_names c.burrows)
      ∙ routable_names_complete c.burrows i b e (is_routable_state b.state r)),
)

find_by-position :
    (bs : List Burrow) (k : String) (b : Burrow)
    → find_by burrow_id k bs ≡ some b
    → (i : ℕ) × (get_elem? bs i ≡ some b)
find_by-position [] k b e = cc
find_by-position (x ∷ bs) k b e = elim (Bool-cases (str_eq x.id k)) [
  | inl here ↦ (0, ground arith)
  | inr ne ↦ let (i, at_i) = find_by-position bs k b (ground arith) in (suc i, at_i)
]

dictionary_owner-position :
    (bs : List Burrow) (ids : List String) (o : Option ℕ) (b : Burrow)
    → dictionary_owner bs ids o ≡ some b
    → (i : ℕ) × (get_elem? bs i ≡ some b)
dictionary_owner-position bs ids none b e = cc
dictionary_owner-position bs ids (some i) b e = elim (Option-cases (get_elem? ids i)) [
  | inl missing ↦ cc (rw (missing, dictionary_owner) at e)
  | inr (k, at_i) ↦ find_by-position bs k b (rw (at_i, dictionary_owner) at e)
]

-- In a valid catalog every vshard of a placed table has an owner, and `RoutableBurrowNames`
-- lists that owner's name.
pub placement-routable :
    (c : Catalog) (table id : String)
    → validate c ≡ ok tt
    → get table c.table_distributions ≡ some id
    → (placements : GoMap (List String)) × (owners : List String) × (table_placements c
        ≡ ok placements)
      × (get table placements ≡ some owners)
      × ((v : ℕ)
          → v < length owners
          → (name : String) × (get_elem? owners v ≡ some name)
            × (contains name (routable_burrow_names c) ≡ true))
placement-routable c table id valid placed =
    let (placements, done, each) = table_placements_total c valid in
    let (d, _, owners, at_table, same, named) = each table id placed in
    (
      placements,
      owners,
      done,
      at_table,
      λ v lt.
          let (b, owner, name, r) = named v (omega arith) in
          let (i, at_i) =
            dictionary_owner-position c.burrows d.burrow_ids (get_elem? d.owner_indexes v) b
              owner in
          (
            b.name,
            name,
            (routable_burrow_names_iff c b.name).1 (i, b, at_i, refl, ready_or_draining b.state r),
          ),
    )
