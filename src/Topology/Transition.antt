-- ===== src/Topology/Transition.antt =====
-- `ValidateTransition` of internal/topology/catalog.go.
pub mod Steps
pub mod Allowed
pub mod History
use hamstergres.Base.{
  ℕ, ◌+◌, ◌%◌, ◌^◌, String, ℤ, pos, negsuc, Bool, true, false, not, ◌==◌, ltb, Option, none, some,
  List, [], ◌∷◌, Result, ok, err, ◌>>=◌, ◌>>◌, refuse,
}
use hamstergres.Base.GoMap.{GoMap, get, delete}
use hamstergres.Base.GoMap.Index.{index}
use hamstergres.Topology.Catalog.{adding, Burrow, Distribution, Catalog, state_eq, valid_transition}
use hamstergres.Topology.Validate.{Error, validate}

pub data TransitionError : Type 0 where
  current_invalid next_invalid : Error → TransitionError
  revision_gap stale_timestamp left_catalog : TransitionError
  not_adding invalid_transition vshard_count_changed : String → TransitionError

-- a == b, of Go's `int`
abbrev pub int_eq : ℤ → ℤ → Bool
int_eq (pos a) (pos b) = a == b
int_eq (negsuc a) (negsuc b) = a == b
int_eq _ _ = false

abbrev pub or_fail :
    (Error → TransitionError) → Result Error (Unit {0}) → Result TransitionError (Unit {0})
or_fail f (ok u) = ok u
or_fail f (err e) = err (f e)

-- One Burrow of the next catalog against `old, exists := previousBurrows[burrow.ID]`.
unfoldable pub check_transition : Option Burrow → Burrow → Result TransitionError (Unit {0})
check_transition none b = refuse (not (state_eq b.state adding)) (not_adding b.name)
check_transition (some old) b =
    refuse (not (valid_transition old.state b.state)) (invalid_transition b.name)

-- `delete(previousBurrows, burrow.ID)` is skipped for a new Burrow.
abbrev pub remaining : Option Burrow → String → GoMap Burrow → GoMap Burrow
remaining none id previous = previous
remaining (some old) id previous = delete id previous

-- The loop over `next.Burrows` returns what is left of `previousBurrows`.
unfoldable pub check_transitions :
    List Burrow → GoMap Burrow → Result TransitionError (GoMap Burrow)
check_transitions [] previous = ok previous
check_transitions (b ∷ bs) previous = do
  check_transition (get b.id previous) b
  check_transitions bs (remaining (get b.id previous) b.id previous)

-- len(previousBurrows) != 0
abbrev pub is_empty {ℓ} : {V : Type ℓ} → GoMap V → Bool
is_empty [] = true
is_empty (x ∷ m) = false

abbrev pub check_count : Option Distribution → Distribution → Result TransitionError (Unit {0})
check_count none d = ok tt
check_count (some old) d =
    refuse (not (int_eq old.vshard_count d.vshard_count)) (vshard_count_changed d.id)

-- The loop over `next.Distributions`.
unfoldable pub check_counts :
    GoMap Distribution → List Distribution → Result TransitionError (Unit {0})
check_counts previous [] = ok tt
check_counts previous (d ∷ ds) = do check_count (get d.id previous) d; check_counts previous ds

-- previous.Revision+1, of uint64
abbrev pub next_revision : ℕ → ℕ
next_revision r = (r + 1) % 2 ^ 64

unfoldable pub validate_transition : Catalog → Catalog → Result TransitionError (Unit {0})
validate_transition previous next = do
  or_fail current_invalid (validate previous)
  or_fail next_invalid (validate next)
  refuse (not (next.revision == next_revision previous.revision)) revision_gap
  refuse (not (ltb previous.change.timestamp next.change.timestamp)) stale_timestamp
  left ← check_transitions next.burrows (index (λ b. b.id) (λ b. b) previous.burrows [])
  refuse (not (is_empty left)) left_catalog
  check_counts (index (λ d. d.id) (λ d. d) previous.distributions []) next.distributions
