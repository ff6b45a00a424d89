-- ===== src/Topology/Transition/Steps.antt =====
-- The loops of `ValidateTransition` accept exactly the allowed steps.
use hamstergres.Base.{
  ◌<◌, String, true, false, ◌≡◌, ◌↔◌, refl, sym, subst, ◌∙◌, Option, none, some, List, [], ◌∷◌, map,
  arith, contains, IsFresh, All, find_by, ok, >>-eq-ok, str_eq, eq_iff, eq_refl, Option-cases, inl,
  inr, if◌then◌else◌,
}
use hamstergres.Base.GoMap.{GoMap, get, get-delete}
use hamstergres.Topology.Catalog.{adding, Burrow, Distribution, Catalog, state_eq, valid_transition}
use hamstergres.Topology.WellFormed.{burrow_id, distribution_id, IsWellFormed}
use hamstergres.Topology.Transition.{
  check_transition, remaining, check_transitions, is_empty, check_count, check_counts,
  next_revision,
}

-- A Burrow starts in state adding, and moves along an edge of `validTransition`.
abbrev pub IsAllowed : Option Burrow → Burrow → Type 0
IsAllowed none b = state_eq b.state adding ≡ true
IsAllowed (some old) b = valid_transition old.state b.state ≡ true

abbrev pub KeepsCount : Option Distribution → Distribution → Type 0
KeepsCount none d = Unit
KeepsCount (some old) d = old.vshard_count ≡ d.vshard_count

-- `next` may follow `previous`.
pub record IsSuccessor (previous next : Catalog) : Type 0 where
  pub previous_valid : IsWellFormed previous
  pub next_valid : IsWellFormed next
  pub revision : next.revision ≡ next_revision previous.revision
  pub time : previous.change.timestamp < next.change.timestamp
  pub edges : All (λ b. IsAllowed (find_by burrow_id b.id previous.burrows) b) next.burrows
  pub kept :
      (k : String)
      → contains k (map burrow_id previous.burrows) ≡ true
      → contains k (map burrow_id next.burrows) ≡ true
  pub counts :
      All
        (λ d. KeepsCount (find_by distribution_id d.id previous.distributions) d)
        next.distributions

check_transition_iff :
    (old : Option Burrow) (b : Burrow) → (check_transition old b ≡ ok tt) ↔ IsAllowed old b
unfolding check_transition
check_transition_iff none b = ground arith
check_transition_iff (some old) b = ground arith

get-remaining :
    (m : GoMap Burrow) (id k : String)
    → get k (remaining (get id m) id m) ≡ (if str_eq id k then none else get k m)
get-remaining m id k = elim (Option-cases (get id m)) [
  | inl e ↦ rw (e, remaining) (ground (arith, eq_iff id k, e))
  | inr (old, e) ↦ rw (e, remaining) (get-delete id k m)
]

-- Two readings of the previous catalog that agree outside `seen` allow the same fresh Burrows.
pub All-IsAllowed-agree :
    (f g : String → Option Burrow) (bs : List Burrow) (seen : List String)
    → ((k : String) → contains k seen ≡ false → f k ≡ g k)
    → IsFresh seen (map burrow_id bs)
    → All (λ b. IsAllowed (f b.id) b) bs
    → All (λ b. IsAllowed (g b.id) b) bs
All-IsAllowed-agree f g [] seen agree fresh h = tt
All-IsAllowed-agree f g (b ∷ bs) seen agree fresh h = (
  subst (λ o. IsAllowed o b) (agree b.id fresh.0) h.0,
  All-IsAllowed-agree f g bs (b.id ∷ seen) (λ k out. agree k (ground arith)) fresh.1 h.1,
)

remaining-agree :
    (m : GoMap Burrow) (id : String) (seen : List String) (k : String)
    → contains k (id ∷ seen) ≡ false
    → get k (remaining (get id m) id m) ≡ get k m
remaining-agree m id seen k out = get-remaining m id k ∙ ground arith

-- What the loop leaves holds the Burrows that the next catalog does not list.
pub check_transitions_sound :
    (bs : List Burrow) (seen : List String) (m : GoMap Burrow) {m' : GoMap Burrow}
    → IsFresh seen (map burrow_id bs)
    → check_transitions bs m ≡ ok m'
    → All (λ b. IsAllowed (get b.id m) b) bs
      × ((k : String) → get k m' ≡ (if contains k (map burrow_id bs) then none else get k m))
unfolding check_transitions
check_transitions_sound [] seen m f h = (tt, λ k. ground arith)
check_transitions_sound (b ∷ bs) seen m f h =
    let m₁ = remaining (get b.id m) b.id m in
    let (allowed, rest) = >>-eq-ok (check_transition (get b.id m) b) _ h in
    let (alls, left) = check_transitions_sound bs (b.id ∷ seen) m₁ f.1 rest in
    (
      (
        (check_transition_iff (get b.id m) b).0 allowed,
        All-IsAllowed-agree (λ k. get k m₁) (λ k. get k m) bs (b.id ∷ seen)
            (remaining-agree m b.id seen) f.1 alls,
      ),
      λ k. left k ∙ ground (arith, get-remaining m b.id k),
    )

pub check_transitions_complete :
    (bs : List Burrow) (seen : List String) (m : GoMap Burrow)
    → IsFresh seen (map burrow_id bs)
    → All (λ b. IsAllowed (get b.id m) b) bs
    → (m' : GoMap Burrow) × (check_transitions bs m ≡ ok m')
      × ((k : String) → get k m' ≡ (if contains k (map burrow_id bs) then none else get k m))
unfolding check_transitions
check_transitions_complete [] seen m f h = (m, refl, λ k. refl)
check_transitions_complete (b ∷ bs) seen m f h =
    let m₁ = remaining (get b.id m) b.id m in
    let (m', done, left) = check_transitions_complete bs (b.id ∷ seen) m₁ f.1 (
      All-IsAllowed-agree (λ k. get k m) (λ k. get k m₁) bs (b.id ∷ seen)
        (λ k out. sym (remaining-agree m b.id seen k out)) f.1 h.1) in
    (
      m',
      rw ((check_transition_iff (get b.id m) b).1 h.0) done,
      λ k. left k ∙ ground (arith, get-remaining m b.id k),
    )

-- A map is empty exactly if it answers no key.
pub is_empty-get : (m : GoMap Burrow) → is_empty m ≡ true → (k : String) → get k m ≡ none
unfolding get
is_empty-get [] h k = refl
is_empty-get (x ∷ m) h k = cc

pub get-is_empty : (m : GoMap Burrow) → ((k : String) → get k m ≡ none) → is_empty m ≡ true
unfolding get
get-is_empty [] h = refl
get-is_empty ((k, b) ∷ m) h = ground (arith, h k, eq_refl k)

check_count_iff :
    (old : Option Distribution) (d : Distribution) → (check_count old d ≡ ok tt) ↔ KeepsCount old d
check_count_iff none d = ground arith
check_count_iff (some old) d = ground arith

module _ (m : GoMap Distribution) (ds : List Distribution)
    (answers : (k : String) → get k m ≡ find_by distribution_id k ds) where
  pub check_counts_sound :
      (next : List Distribution)
      → check_counts m next ≡ ok tt
      → All (λ d. KeepsCount (find_by distribution_id d.id ds) d) next
  unfolding check_counts
  check_counts_sound [] h = tt
  check_counts_sound (d ∷ next) h =
      let (kept, rest) = >>-eq-ok (check_count (get d.id m) d) _ h in
      (
        subst (λ o. KeepsCount o d) (answers d.id) ((check_count_iff (get d.id m) d).0 kept),
        check_counts_sound next rest,
      )

  pub check_counts_complete :
      (next : List Distribution)
      → All (λ d. KeepsCount (find_by distribution_id d.id ds) d) next
      → check_counts m next ≡ ok tt
  unfolding check_counts
  check_counts_complete [] h = refl
  check_counts_complete (d ∷ next) h =
      rw ((check_count_iff (get d.id m) d).1 (subst (λ o. KeepsCount o d) (sym (answers d.id)) h.0))
        (check_counts_complete next h.1)
