-- ===== src/Topology/Validate/Burrows.antt =====
-- The loop over the Burrows accepts exactly the valid, distinct ones.
use hamstergres.Base.{
  String, false, ◌≡◌, refl, sym, ◌∙◌, List, [], ◌∷◌, map, arith, contains, IsFresh, All, ok,
  >>-eq-ok, eq_iff, is_present,
}
use hamstergres.Base.GoMap.{GoMap, get, put, keys, get-put}
use hamstergres.Base.GoMap.Index.{index}
use hamstergres.Topology.Catalog.{TunnelEndpoint, Burrow, state_eq}
use hamstergres.Topology.Validate.{check_tunnels, check_labels, check_burrow, check_burrows}
use hamstergres.Topology.WellFormed.{
  burrow_id, burrow_name, tunnel_name, IsComplete, IsLabel, IsValidBurrow,
}

check_tunnels_sound :
    (n : String) (ts : List TunnelEndpoint) (seen : List String)
    → check_tunnels n ts seen ≡ ok tt
    → All IsComplete ts × IsFresh seen (map tunnel_name ts)
unfolding check_tunnels
check_tunnels_sound n [] seen h = (tt, tt)
check_tunnels_sound n (t ∷ ts) seen h = ground (
  arith,
  check_tunnels_sound n ts (t.name ∷ seen),
  eq_iff t.name "",
  eq_iff t.address "",
  eq_iff t.configuration_fingerprint "",
)

check_tunnels_complete :
    (n : String) (ts : List TunnelEndpoint) (seen : List String)
    → All IsComplete ts
    → IsFresh seen (map tunnel_name ts)
    → check_tunnels n ts seen ≡ ok tt
unfolding check_tunnels
check_tunnels_complete n [] seen h f = refl
check_tunnels_complete n (t ∷ ts) seen h f = ground (
  arith,
  check_tunnels_complete n ts (t.name ∷ seen) h.1 f.1,
  h.0.named,
  h.0.addressed,
  h.0.fingerprinted,
  eq_iff t.name "",
  eq_iff t.address "",
  eq_iff t.configuration_fingerprint "",
)

check_labels_sound : (n : String) (ks : List String) → check_labels n ks ≡ ok tt → All IsLabel ks
unfolding check_labels
check_labels_sound n [] h = tt
check_labels_sound n (k ∷ ks) h = ground (arith, check_labels_sound n ks)

check_labels_complete : (n : String) (ks : List String) → All IsLabel ks → check_labels n ks ≡ ok tt
unfolding check_labels
check_labels_complete n [] h = refl
check_labels_complete n (k ∷ ks) h = ground (arith, check_labels_complete n ks)

check_burrow_sound :
    (b : Burrow) (m : GoMap Burrow) (names : List String)
    → check_burrow b m names ≡ ok tt
    → IsValidBurrow b × (is_present (get b.id m) ≡ false) × (contains b.name names ≡ false)
unfolding check_burrow state_eq
check_burrow_sound b m names h = ground (
  arith,
  check_tunnels_sound b.name b.tunnels [],
  check_labels_sound b.name (keys b.labels),
  eq_iff b.id "",
  eq_iff b.name "",
)

check_burrow_complete :
    (b : Burrow) (m : GoMap Burrow) (names : List String)
    → IsValidBurrow b
    → is_present (get b.id m) ≡ false
    → contains b.name names ≡ false
    → check_burrow b m names ≡ ok tt
unfolding check_burrow state_eq
check_burrow_complete b m names v p q = ground (
  arith,
  check_tunnels_complete b.name b.tunnels [] v.tunnels_complete v.tunnels_distinct,
  check_labels_complete b.name (keys b.labels) v.labelled,
  eq_iff b.id "",
  eq_iff b.name "",
  v.identified,
  v.named,
  v.reachable,
)

-- The keys of a map, as a test.
abbrev pub Holds : GoMap Burrow → List String → Type 0
Holds m seen = (k : String) → is_present (get k m) ≡ contains k seen

Holds-put :
    (m : GoMap Burrow) (seen : List String) (b : Burrow)
    → Holds m seen
    → Holds (put b.id b m) (b.id ∷ seen)
Holds-put m seen b h k = ground (arith, get-put b.id k b m, h k)

pub check_burrows_sound :
    (bs : List Burrow) (m : GoMap Burrow) (seen names : List String) {m' : GoMap Burrow}
    → Holds m seen
    → check_burrows bs m names ≡ ok m'
    → All IsValidBurrow bs
      × IsFresh seen (map burrow_id bs)
      × IsFresh names (map burrow_name bs)
      × (m' ≡ index burrow_id (λ b. b) bs m)
unfolding check_burrows index
check_burrows_sound [] m seen names holds h = (tt, tt, tt, ground arith)
check_burrows_sound (b ∷ bs) m seen names holds h =
    let (ok_b, rest) = >>-eq-ok (check_burrow b m names) _ h in
    let (valid, new_id, new_name) = check_burrow_sound b m names ok_b in
    let (valids, ids, names', same) =
      check_burrows_sound bs (put b.id b m) (b.id ∷ seen) (b.name ∷ names)
        (Holds-put m seen b holds) rest in
    ((valid, valids), (sym (holds b.id) ∙ new_id, ids), (new_name, names'), same)

pub check_burrows_complete :
    (bs : List Burrow) (m : GoMap Burrow) (seen names : List String)
    → Holds m seen
    → All IsValidBurrow bs
    → IsFresh seen (map burrow_id bs)
    → IsFresh names (map burrow_name bs)
    → check_burrows bs m names ≡ ok (index burrow_id (λ b. b) bs m)
unfolding check_burrows index
check_burrows_complete [] m seen names holds v ids ns = refl
check_burrows_complete (b ∷ bs) m seen names holds v ids ns =
    rw (check_burrow_complete b m names v.0 (holds b.id ∙ ids.0) ns.0) (
      check_burrows_complete bs (put b.id b m) (b.id ∷ seen) (b.name ∷ names)
        (Holds-put m seen b holds) v.1 ids.1 ns.1)
