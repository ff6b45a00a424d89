-- ===== src/Topology/Transition/History.antt =====
-- What holds along any chain of catalogs that `ValidateTransition` of
-- internal/topology/catalog.go accepts.
use hamstergres.Base.{
  ℕ, suc, ◌+◌, ◌%◌, ◌^◌, ◌<◌, String, true, false, ◌≡◌, ◌⊎◌, refl, sym, subst, ap, ◌∙◌, inl, inr,
  some, List, [], ◌∷◌, map, arith, contains, All, find_by, find_by-All, is_present-find_by,
  is_present, ok, Option-cases, Bool-cases, str_eq, eq_iff, get_elem?, All-get_elem?,
}
use hamstergres.Topology.Catalog.{
  BurrowState, adding, ready, draining, removed, other, Burrow, Distribution, Catalog,
  valid_transition, is_routable,
}
use hamstergres.Topology.Validate.{validate}
use hamstergres.Topology.Validate.Catalogs.{validate_iff}
use hamstergres.Topology.WellFormed.{burrow_id, IsWellFormed, IsOwner, IsValidDistribution}
use hamstergres.Topology.Transition.{validate_transition}
use hamstergres.Topology.Transition.Steps.{IsAllowed, IsSuccessor}
use hamstergres.Topology.Transition.Allowed.{validate_transition_iff}

-- Catalogs accepted one after the other, from the first to the last.
pub data History (first : Catalog) : Catalog → Type 0 where
  here : History first first
  next : {c d : Catalog} → History first c → validate_transition c d ≡ ok tt → History first d

abbrev pub steps : {first last : Catalog} → History first last → ℕ
steps here = 0
steps (next h _) = suc (steps h)

successor : {c d : Catalog} → validate_transition c d ≡ ok tt → IsSuccessor c d
successor {c} {d} e = (validate_transition_iff c d).0 e

-- Every later catalog lists every Burrow that the first one lists, the removed ones included.
pub kept_forever :
    {first last : Catalog} (k : String)
    → History first last
    → contains k (map burrow_id first.burrows) ≡ true
    → contains k (map burrow_id last.burrows) ≡ true
kept_forever k here listed = listed
kept_forever k (next h e) listed = (successor e).kept k (kept_forever k h listed)

-- The catalog lists the Burrow `k`, in the state.
abbrev pub InState : Catalog → String → BurrowState → Type 0
InState c k s = (b : Burrow) × (find_by burrow_id k c.burrows ≡ some b) × (b.state ≡ s)

listed-find :
    (bs : List Burrow) (k : String)
    → contains k (map burrow_id bs) ≡ true
    → (b : Burrow) × (find_by burrow_id k bs ≡ some b)
listed-find bs k listed = elim (Option-cases (find_by burrow_id k bs)) [
  | inl e ↦ absurd (ground (arith, is_present-find_by burrow_id k bs))
  | inr (b, e) ↦ (b, e)
]

find-listed :
    (bs : List Burrow) (k : String) (b : Burrow)
    → find_by burrow_id k bs ≡ some b
    → contains k (map burrow_id bs) ≡ true
find-listed bs k b e = sym (is_present-find_by burrow_id k bs) ∙ ap is_present e

-- One accepted step of a listed Burrow, along an edge of the diagram.
step-edge :
    (c d : Catalog) (k : String) (s : BurrowState)
    → validate_transition c d ≡ ok tt
    → InState c k s
    → (t : BurrowState) × InState d k t × (valid_transition s t ≡ true)
step-edge c d k s e (old, at_k, in_s) =
    let next = successor e in
    let (b, at_k') = listed-find d.burrows k (next.kept k (find-listed c.burrows k old at_k)) in
    let (allowed, same) =
      find_by-All (λ b. IsAllowed (find_by burrow_id b.id c.burrows) b) burrow_id k d.burrows b
        next.edges at_k' in
    let moved : valid_transition old.state b.state ≡ true =
      subst (λ o. IsAllowed o b) (ap (λ i. find_by burrow_id i c.burrows) same ∙ at_k) allowed in
    (b.state, (b, at_k', refl), subst (λ u. valid_transition u b.state ≡ true) in_s moved)

from_removed : (t : BurrowState) → valid_transition removed t ≡ true → t ≡ removed
unfolding valid_transition
from_removed removed h = refl
from_removed adding h = cc
from_removed ready h = cc
from_removed draining h = cc
from_removed (other s) h = cc

from_ready : (t : BurrowState) → valid_transition ready t ≡ true → (t ≡ ready) ⊎ (t ≡ draining)
unfolding valid_transition
from_ready ready h = inl refl
from_ready draining h = inr refl
from_ready adding h = cc
from_ready removed h = cc
from_ready (other s) h = cc

removed_stays :
    {first last : Catalog} (k : String)
    → History first last
    → InState first k removed
    → InState last k removed
removed_stays k here i = i
removed_stays k (next {c} {d} h e) i =
    let (t, in_t, edge) = step-edge c d k removed e (removed_stays k h i) in
    subst (λ s. InState d k s) (from_removed t edge) in_t

last_valid :
    {first last : Catalog} → History first last → validate first ≡ ok tt → IsWellFormed last
last_valid {first} here v = (validate_iff first).0 v
last_valid (next h e) v = (successor e).next_valid

removed_not_routable : (b : Burrow) → b.state ≡ removed → is_routable b.state ≡ true → ⊥
unfolding is_routable
removed_not_routable b gone r = cc (rw gone at r)

removed_owns_nothing :
    (c : Catalog) (k : String) (ids : List String)
    → InState c k removed
    → All (IsOwner c.burrows) ids
    → contains k ids ≡ false
removed_owns_nothing c k [] i h = refl
removed_owns_nothing c k (o ∷ ids) (b, at_k, gone) ((b', at_o, r), h) =
    elim (Bool-cases (str_eq o k)) [
      | inl same ↦
          let o≡k : o ≡ k = (eq_iff o k).0 same in
          let b≡b' : b ≡ b' = cc (ap (λ i. find_by burrow_id i c.burrows) o≡k) in
          absurd (removed_not_routable b' (rw (← b≡b') gone) r)
      | inr ne ↦ rw ne (removed_owns_nothing c k ids (b, at_k, gone) h)
    ]

-- A Burrow that is removed in a valid catalog is listed as removed in every later catalog, and
-- no distribution of a later catalog names it as an owner.
pub removed_forever :
    {first last : Catalog} (k : String) (i : ℕ) (d : Distribution)
    → validate first ≡ ok tt
    → History first last
    → InState first k removed
    → get_elem? last.distributions i ≡ some d
    → InState last k removed × (contains k d.burrow_ids ≡ false)
removed_forever {first} {last} k i d valid h gone at_i =
    let gone' = removed_stays k h gone in
    let v =
      All-get_elem? (IsValidDistribution last.burrows) last.distributions i d
        (last_valid h valid).distributions_valid at_i in
    (gone', removed_owns_nothing last k d.burrow_ids gone' v.owners_known)

-- A history runs through a catalog that lists `k` as draining.
abbrev pub HasDrained : Catalog → Catalog → String → Type 0
HasDrained first last k =
    (middle : Catalog) × History first middle × History middle last × InState middle k draining

extend :
    {first c d : Catalog} (k : String)
    → validate_transition c d ≡ ok tt
    → HasDrained first c k
    → HasDrained first d k
extend k e (middle, before, after, i) = (middle, before, next after e, i)

ready_or_drains :
    {first last : Catalog} (k : String)
    → History first last
    → InState first k ready
    → InState last k ready ⊎ HasDrained first last k
ready_or_drains k here i = inl i
ready_or_drains k (next {c} {d} h e) i = elim (ready_or_drains k h i) [
  | inr drained ↦ inr (extend k e drained)
  | inl still ↦
      let (t, in_t, edge) = step-edge c d k ready e still in
      elim (from_ready t edge) [
        | inl same ↦ inl (subst (λ s. InState d k s) same in_t)
        | inr drains ↦ inr (d, next h e, here, subst (λ s. InState d k s) drains in_t)
      ]
]

-- A Burrow that is ready in one catalog and removed in a later one was draining in a catalog in
-- between.
pub drains_before_removal :
    {first last : Catalog} (k : String)
    → History first last
    → InState first k ready
    → InState last k removed
    → HasDrained first last k
drains_before_removal k h i gone = elim (ready_or_drains k h i) [
  | inl (b, at_k, still) ↦ let (b', at_k', gone') = gone in absurd (ground arith)
  | inr drained ↦ drained
]

-- Along a history the revision counts the accepted steps, modulo 2 ^ 64.
pub revision_counts :
    {first last : Catalog} (h : History first last)
    → first.revision < 2 ^ 64
    → last.revision ≡ (first.revision + steps h) % 2 ^ 64
revision_counts here small = omega arith
revision_counts (next h e) small =
    let r = (successor e).revision in omega (arith, revision_counts h small)
