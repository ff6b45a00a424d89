-- ===== src/Nest/TopologyStore/Replies.antt =====
-- What `TopologyStore` of internal/nest/topology.go has read or is about to send when it goes on.
use hamstergres.Base.{
  ◌≡◌, refl, sym, ap, subst, ℕ, zero, suc, ◌==◌, none, some, Result, ok, err, refuse, >>-eq-ok,
  >>=-eq-ok,
}
use hamstergres.Topology.Catalog.{Catalog}
use hamstergres.Topology.Validate.{validate}
use hamstergres.Topology.Transition.{validate_transition}
use hamstergres.Nest.Etcd.{Entry}
use hamstergres.Nest.TopologyStore.{
  invalid_topology, invalid_transition, invalid_mod_revision, StoredTopology, Stored, or_invalid,
  decoded, get_reply, Attempt, expected_of, attempt, prepare_bootstrap, prepare_update,
}

decoded-some : (o : Stored) (c : Catalog) → decoded o ≡ ok c → o ≡ some c
decoded-some none c h = cc
decoded-some (some d) c h = cc

or_invalid-ok :
    {E : Type 0} {F : Type 0} (f : E → F) (r : Result E (Unit {0}))
    → or_invalid f r ≡ ok tt
    → r ≡ ok tt
or_invalid-ok f (ok tt) h = refl
or_invalid-ok f (err e) h = cc

expected_of-positive :
    (m : ℕ) → refuse (m == 0) invalid_mod_revision ≡ ok tt → expected_of m ≡ some m
expected_of-positive zero h = cc
expected_of-positive (suc m) h = refl

-- What `Get` has read: the catalog of the entry, valid, at a revision that is not 0.
abbrev pub IsRead : Entry Stored → StoredTopology → Type 0
IsRead e s =
    (e.value ≡ some s.catalog)
    × (validate s.catalog ≡ ok tt)
    × (expected_of s.mod_revision ≡ some e.mod_revision)

-- What `Get` returns comes from an entry that holds it, at a positive revision.
pub get_reply-IsRead :
    (e : Entry Stored) (s : StoredTopology) → get_reply (some e) ≡ ok (some s) → IsRead e s
unfolding get_reply
get_reply-IsRead e s h =
    let (c, d, rest) = >>=-eq-ok (decoded e.value) _ h in
    let (v, more) = >>-eq-ok (or_invalid invalid_topology (validate c)) _ rest in
    let (p, done) = >>-eq-ok (refuse (e.mod_revision == 0) invalid_mod_revision) _ more in
    let same : record { catalog = c; mod_revision = e.mod_revision } ≡ s = cc in
    subst (IsRead e) same (
      decoded-some e.value c d,
      or_invalid-ok invalid_topology (validate c) v,
      expected_of-positive e.mod_revision p,
    )

pub prepare_update_ok :
    (s : StoredTopology) (c : Catalog) (a : Attempt)
    → prepare_update s c ≡ ok a
    → (validate_transition s.catalog c ≡ ok tt)
      × (a.expected ≡ expected_of s.mod_revision)
      × (a.catalog ≡ c)
unfolding prepare_update
prepare_update_ok s c a h =
    let (v, done) =
      >>-eq-ok (or_invalid invalid_transition (validate_transition s.catalog c)) _ h in
    let same : attempt s.mod_revision c ≡ a = cc in
    (
      or_invalid-ok invalid_transition (validate_transition s.catalog c) v,
      sym (ap (λ x. x.expected) same),
      sym (ap (λ x. x.catalog) same),
    )

pub prepare_bootstrap_ok :
    (c : Catalog) (a : Attempt)
    → prepare_bootstrap c ≡ ok a
    → (validate c ≡ ok tt) × (a.expected ≡ none) × (a.catalog ≡ c)
unfolding prepare_bootstrap
prepare_bootstrap_ok c a h =
    let (v, done) = >>-eq-ok (or_invalid invalid_topology (validate c)) _ h in
    let same : attempt 0 c ≡ a = cc in
    (
      or_invalid-ok invalid_topology (validate c) v,
      sym (ap (λ x. x.expected) same),
      sym (ap (λ x. x.catalog) same),
    )
