-- ===== src/Topology/Validate/Distributions.antt =====
-- The loops over the distributions and the tables accept exactly the valid ones.
use hamstergres.Base.{
  ℕ, ◌<◌, String, false, ◌≡◌, refl, sym, ◌∙◌, Option, none, some, List, [], ◌∷◌, map, arith, length,
  contains, IsFresh, All, ok, refuse, >>-eq-ok, eq_iff, is_present, find_by,
}
use hamstergres.Base.GoMap.{GoMap, get, put, get-put}
use hamstergres.Base.GoMap.Index.{index}
use hamstergres.Topology.Catalog.{Burrow, Distribution}
use hamstergres.Topology.Validate.{
  check_owner, check_owners, check_indexes, check_distribution, check_distributions, check_tables,
}
use hamstergres.Topology.WellFormed.{
  burrow_id, distribution_id, IsOwner, IsValidDistribution, IsPlaced,
}

-- The map `burrows` answers as a search of the slice does.
abbrev pub Answers : GoMap Burrow → List Burrow → Type 0
Answers m bs = (k : String) → get k m ≡ find_by burrow_id k bs

module _ (m : GoMap Burrow) (bs : List Burrow) (answers : Answers m bs) where
  check_owner_sound :
      (d o : String) (found : Option Burrow)
      → get o m ≡ found
      → check_owner d o found ≡ ok tt
      → IsOwner bs o
  unfolding check_owner
  check_owner_sound d o none e h = cc
  check_owner_sound d o (some b) e h = (b, sym (answers o) ∙ e, ground arith)

  check_owner_complete : (d o : String) → IsOwner bs o → check_owner d o (get o m) ≡ ok tt
  unfolding check_owner
  check_owner_complete d o (b, e, r) = rw (answers o, e, check_owner) (ground arith)

  check_owners_sound :
      (d : String) (os seen : List String)
      → check_owners d m os seen ≡ ok tt
      → All (IsOwner bs) os × IsFresh seen os
  unfolding check_owners
  check_owners_sound d [] seen h = (tt, tt)
  check_owners_sound d (o ∷ os) seen h =
      let (new, more) = >>-eq-ok (refuse (contains o seen) _) _ h in
      let (owner, rest) = >>-eq-ok (check_owner d o (get o m)) _ more in
      let (owners, fresh) = check_owners_sound d os (o ∷ seen) rest in
      ((check_owner_sound d o (get o m) refl owner, owners), (ground arith, fresh))

  check_owners_complete :
      (d : String) (os seen : List String)
      → All (IsOwner bs) os
      → IsFresh seen os
      → check_owners d m os seen ≡ ok tt
  unfolding check_owners
  check_owners_complete d [] seen h f = refl
  check_owners_complete d (o ∷ os) seen h f =
      rw (f.0, check_owner_complete d o h.0) (check_owners_complete d os (o ∷ seen) h.1 f.1)

check_indexes_sound :
    (d : String) (n : ℕ) (is : List ℕ) → check_indexes d n is ≡ ok tt → All (λ i. i < n) is
unfolding check_indexes
check_indexes_sound d n [] h = tt
check_indexes_sound d n (i ∷ is) h = ground (arith, check_indexes_sound d n is)

check_indexes_complete :
    (d : String) (n : ℕ) (is : List ℕ) → All (λ i. i < n) is → check_indexes d n is ≡ ok tt
unfolding check_indexes
check_indexes_complete d n [] h = refl
check_indexes_complete d n (i ∷ is) h = ground (arith, check_indexes_complete d n is)

abbrev HoldsDistributions : GoMap Distribution → List String → Type 0
HoldsDistributions m seen = (k : String) → is_present (get k m) ≡ contains k seen

HoldsDistributions-put :
    (m : GoMap Distribution) (seen : List String) (d : Distribution)
    → HoldsDistributions m seen
    → HoldsDistributions (put d.id d m) (d.id ∷ seen)
HoldsDistributions-put m seen d h k = ground (arith, get-put d.id k d m, h k)

module _ (m : GoMap Burrow) (bs : List Burrow) (answers : Answers m bs) where
  check_distribution_sound :
      (d : Distribution) (ds : GoMap Distribution)
      → check_distribution m d ds ≡ ok tt
      → IsValidDistribution bs d × (is_present (get d.id ds) ≡ false)
  unfolding check_distribution
  check_distribution_sound d ds h = ground (
    arith,
    check_owners_sound m bs answers d.id d.burrow_ids [],
    check_indexes_sound d.id (length d.burrow_ids) d.owner_indexes,
    eq_iff d.id "",
  )

  check_distribution_complete :
      (d : Distribution) (ds : GoMap Distribution)
      → IsValidDistribution bs d
      → is_present (get d.id ds) ≡ false
      → check_distribution m d ds ≡ ok tt
  unfolding check_distribution
  check_distribution_complete d ds v new = ground (
    arith,
    v.identified,
    check_owners_complete m bs answers d.id d.burrow_ids [] v.owners_known v.owners_distinct,
    check_indexes_complete d.id (length d.burrow_ids) d.owner_indexes v.in_range,
    eq_iff d.id "",
  )

  pub check_distributions_sound :
      (ds : List Distribution) (held : GoMap Distribution) (seen : List String)
      {held' : GoMap Distribution}
      → HoldsDistributions held seen
      → check_distributions m ds held ≡ ok held'
      → All (IsValidDistribution bs) ds
        × IsFresh seen (map distribution_id ds)
        × (held' ≡ index distribution_id (λ d. d) ds held)
  unfolding check_distributions index
  check_distributions_sound [] held seen holds h = (tt, tt, ground arith)
  check_distributions_sound (d ∷ ds) held seen holds h =
      let (ok_d, rest) = >>-eq-ok (check_distribution m d held) _ h in
      let (valid, new) = check_distribution_sound d held ok_d in
      let (valids, ids, same) =
        check_distributions_sound ds (put d.id d held) (d.id ∷ seen)
          (HoldsDistributions-put held seen d holds) rest in
      ((valid, valids), (sym (holds d.id) ∙ new, ids), same)

  pub check_distributions_complete :
      (ds : List Distribution) (held : GoMap Distribution) (seen : List String)
      → HoldsDistributions held seen
      → All (IsValidDistribution bs) ds
      → IsFresh seen (map distribution_id ds)
      → check_distributions m ds held ≡ ok (index distribution_id (λ d. d) ds held)
  unfolding check_distributions index
  check_distributions_complete [] held seen holds v ids = refl
  check_distributions_complete (d ∷ ds) held seen holds v ids =
      rw (check_distribution_complete d held v.0 (holds d.id ∙ ids.0)) (
        check_distributions_complete ds (put d.id d held) (d.id ∷ seen)
          (HoldsDistributions-put held seen d holds) v.1 ids.1)

module _ (held : GoMap Distribution) (ds : List Distribution)
    (listed : (k : String) → is_present (get k held) ≡ contains k (map distribution_id ds)) where
  pub check_tables_sound : (ts : GoMap String) → check_tables held ts ≡ ok tt → All (IsPlaced ds) ts
  unfolding check_tables
  check_tables_sound [] h = tt
  check_tables_sound ((t, d) ∷ ts) h = ground (arith, check_tables_sound ts, listed d)

  pub check_tables_complete :
      (ts : GoMap String) → All (IsPlaced ds) ts → check_tables held ts ≡ ok tt
  unfolding check_tables
  check_tables_complete [] h = refl
  check_tables_complete ((t, d) ∷ ts) h = ground (arith, check_tables_complete ts, listed d)
