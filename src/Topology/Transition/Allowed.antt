-- ===== src/Topology/Transition/Allowed.antt =====
-- `ValidateTransition` of internal/topology/catalog.go accepts exactly the successors of a catalog.
use hamstergres.Base.{
  String, true, ◌≡◌, ◌↔◌, refl, sym, none, [], map, arith, contains, find_by, is_present-find_by,
  ok, err, Result, refuse, >>-eq-ok, >>=-eq-ok, not, if◌then◌else◌, Distinct, ltb, ◌==◌,
}
use hamstergres.Base.GoMap.{GoMap, get}
use hamstergres.Base.GoMap.Index.{index, get-index_self}
use hamstergres.Topology.Catalog.{Burrow, Catalog}
use hamstergres.Topology.Validate.{Error, validate}
use hamstergres.Topology.Validate.Catalogs.{validate_iff}
use hamstergres.Topology.WellFormed.{burrow_id, distribution_id}
use hamstergres.Topology.Transition.{
  TransitionError, or_fail, check_transitions, is_empty, next_revision, validate_transition,
}
use hamstergres.Topology.Transition.Steps.{
  IsSuccessor, All-IsAllowed-agree, check_transitions_sound, check_transitions_complete,
  is_empty-get, get-is_empty, check_counts_sound, check_counts_complete,
}

or_fail-ok :
    (f : Error → TransitionError) (r : Result Error (Unit {0})) → or_fail f r ≡ ok tt → r ≡ ok tt
or_fail-ok f (ok tt) h = refl
or_fail-ok f (err e) h = cc

-- The map of the previous Burrows.
abbrev previous_map : Catalog → GoMap Burrow
previous_map c = index burrow_id (λ b. b) c.burrows []

-- Nothing is left exactly if every previous identifier is listed again.
left-kept :
    (previous next : Catalog) (left : GoMap Burrow) (k : String)
    → Distinct (map burrow_id previous.burrows)
    → get k left
      ≡ (if contains k (map burrow_id next.burrows) then none else get k (previous_map previous))
    → get k left ≡ none
    → contains k (map burrow_id previous.burrows) ≡ true
    → contains k (map burrow_id next.burrows) ≡ true
left-kept previous next left k ids e gone listed = ground (
  arith,
  get-index_self burrow_id previous.burrows k ids,
  is_present-find_by burrow_id k previous.burrows,
)

kept-left :
    (previous next : Catalog) (left : GoMap Burrow) (k : String)
    → Distinct (map burrow_id previous.burrows)
    → get k left
      ≡ (if contains k (map burrow_id next.burrows) then none else get k (previous_map previous))
    → (contains k (map burrow_id previous.burrows) ≡ true
        → contains k (map burrow_id next.burrows) ≡ true)
    → get k left ≡ none
kept-left previous next left k ids e kept = ground (
  arith,
  get-index_self burrow_id previous.burrows k ids,
  is_present-find_by burrow_id k previous.burrows,
)

sound :
    (previous next : Catalog)
    → validate_transition previous next ≡ ok tt
    → IsSuccessor previous next
unfolding validate_transition
sound previous next h =
    let (v₀, h₁) = >>-eq-ok (or_fail TransitionError.current_invalid (validate previous)) _ h in
    let (v₁, h₂) = >>-eq-ok (or_fail TransitionError.next_invalid (validate next)) _ h₁ in
    let (r, h₃) =
      >>-eq-ok (refuse (not (next.revision == next_revision previous.revision)) _) _ h₂ in
    let (t, h₄) =
      >>-eq-ok (refuse (not (ltb previous.change.timestamp next.change.timestamp)) _) _ h₃ in
    let (left, done, h₅) =
      >>=-eq-ok (check_transitions next.burrows (previous_map previous)) _ h₄ in
    let (empty, counted) = >>-eq-ok (refuse (not (is_empty left)) _) _ h₅ in
    let w₀ = (validate_iff previous).0 (or_fail-ok _ (validate previous) v₀) in
    let w₁ = (validate_iff next).0 (or_fail-ok _ (validate next) v₁) in
    let (edges, rest) =
      check_transitions_sound next.burrows [] (previous_map previous) w₁.ids_distinct done in
    record {
      previous_valid = w₀;
      next_valid = w₁;
      revision = ground arith;
      time = ground arith;
      edges =
          All-IsAllowed-agree (λ k. get k (previous_map previous))
            (λ k. find_by burrow_id k previous.burrows) next.burrows []
            (λ k _. get-index_self burrow_id previous.burrows k w₀.ids_distinct) w₁.ids_distinct
            edges;
      kept = λ k.
          left-kept previous next left k w₀.ids_distinct (rest k)
            (is_empty-get left (ground arith) k);
      counts =
          check_counts_sound (index distribution_id (λ d. d) previous.distributions [])
            previous.distributions
            (λ k. get-index_self distribution_id previous.distributions k w₀.distributions_distinct)
            next.distributions counted;
    }

complete :
    (previous next : Catalog)
    → IsSuccessor previous next
    → validate_transition previous next ≡ ok tt
unfolding validate_transition
complete previous next s =
    let v₀ : validate previous ≡ ok tt = (validate_iff previous).1 s.previous_valid in
    let v₁ : validate next ≡ ok tt = (validate_iff next).1 s.next_valid in
    let ids = s.previous_valid.ids_distinct in
    let r : (next.revision == next_revision previous.revision) ≡ true =
      ground (arith, s.revision) in
    let t : ltb previous.change.timestamp next.change.timestamp ≡ true = ground (arith, s.time) in
    let (left, done, rest) =
      check_transitions_complete next.burrows [] (previous_map previous) s.next_valid.ids_distinct (
        All-IsAllowed-agree (λ k. find_by burrow_id k previous.burrows)
          (λ k. get k (previous_map previous)) next.burrows []
          (λ k _. sym (get-index_self burrow_id previous.burrows k ids)) s.next_valid.ids_distinct
          s.edges) in
    let empty : is_empty left ≡ true =
      get-is_empty left (λ k. kept-left previous next left k ids (rest k) (s.kept k)) in
    rw (v₀, v₁, r, t, done, empty)
      (check_counts_complete (index distribution_id (λ d. d) previous.distributions [])
        previous.distributions
        (λ k.
          get-index_self distribution_id previous.distributions k
            s.previous_valid.distributions_distinct)
        next.distributions s.counts)

-- `ValidateTransition` returns no error exactly if both catalogs are well formed, the revision
-- advances by one, the time advances, every Burrow of the next catalog is new and adding or moves
-- along an allowed edge, every earlier Burrow is still listed, and no distribution that both
-- catalogs list changes its number of vshards.
pub validate_transition_iff :
    (previous next : Catalog)
    → (validate_transition previous next ≡ ok tt) ↔ IsSuccessor previous next
validate_transition_iff previous next = (sound previous next, complete previous next)
