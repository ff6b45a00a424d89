-- ===== src/Topology/Validate/Catalogs.antt =====
-- `Catalog.Validate` of internal/topology/catalog.go decides whether a catalog is well formed.
use hamstergres.Base.{
  String, ◌≡◌, ◌↔◌, ap, ◌∙◌, [], map, arith, contains, Distinct, ok, >>-eq-ok, >>=-eq-ok, eq_iff,
  is_present, is_present-find_by,
}
use hamstergres.Base.GoMap.{get, get-empty}
use hamstergres.Base.GoMap.Index.{index, get-index_self}
use hamstergres.Topology.Catalog.{Catalog}
use hamstergres.Topology.Validate.{check_fields, check_burrows, check_distributions, validate}
use hamstergres.Topology.Validate.Burrows.{check_burrows_sound, check_burrows_complete}
use hamstergres.Topology.Validate.Distributions.{
  Answers, check_distributions_sound, check_distributions_complete, check_tables_sound,
  check_tables_complete,
}
use hamstergres.Topology.WellFormed.{burrow_id, distribution_id, IsStamped, IsWellFormed}

check_fields_sound : (c : Catalog) → check_fields c ≡ ok tt → IsStamped c
unfolding check_fields
check_fields_sound c h = ground (
  arith,
  eq_iff c.compatibility.fingerprint "",
  eq_iff c.change.actor "",
  eq_iff c.change.reason "",
)

check_fields_complete : (c : Catalog) → IsStamped c → check_fields c ≡ ok tt
unfolding check_fields
check_fields_complete c s = ground (
  arith,
  s.schema_fingerprint,
  s.actor,
  s.reason,
  eq_iff c.compatibility.fingerprint "",
  eq_iff c.change.actor "",
  eq_iff c.change.reason "",
)

-- The map of the distributions holds the listed identifiers.
held_lists :
    (c : Catalog)
    → Distinct (map distribution_id c.distributions)
    → (k : String)
    → is_present (get k (index distribution_id (λ d. d) c.distributions []))
      ≡ contains k (map distribution_id c.distributions)
held_lists c ds k =
    ap is_present (get-index_self distribution_id c.distributions k ds)
    ∙ is_present-find_by distribution_id k c.distributions

validate_sound : (c : Catalog) → validate c ≡ ok tt → IsWellFormed c
unfolding validate
validate_sound c h =
    let (stamped, rest) = >>-eq-ok (check_fields c) _ h in
    let (m, checked, rest') = >>=-eq-ok (check_burrows c.burrows [] []) _ rest in
    let (burrows, ids, names, m_is) =
      check_burrows_sound c.burrows [] [] [] (λ k. rw get-empty) checked in
    let answers : Answers m c.burrows = λ k. rw m_is (get-index_self burrow_id c.burrows k ids) in
    let (held, checked', placed) = >>=-eq-ok (check_distributions m c.distributions []) _ rest' in
    let (distributions, ds, held_is) =
      check_distributions_sound m c.burrows answers c.distributions [] [] (λ k. rw get-empty)
        checked' in
    record {
      stamped = check_fields_sound c stamped;
      burrows_valid = burrows;
      ids_distinct = ids;
      names_distinct = names;
      distributions_valid = distributions;
      distributions_distinct = ds;
      tables_placed =
          check_tables_sound held c.distributions (λ k. rw held_is (held_lists c ds k))
            c.table_distributions placed;
    }

validate_complete : (c : Catalog) → IsWellFormed c → validate c ≡ ok tt
unfolding validate
validate_complete c w =
    rw
      (
        check_fields_complete c w.stamped,
        check_burrows_complete c.burrows [] [] [] (λ k. rw get-empty) w.burrows_valid w.ids_distinct
            w.names_distinct,
        check_distributions_complete (index burrow_id (λ b. b) c.burrows []) c.burrows
            (λ k. get-index_self burrow_id c.burrows k w.ids_distinct) c.distributions [] []
            (λ k. rw get-empty) w.distributions_valid w.distributions_distinct,
      )
      (check_tables_complete (index distribution_id (λ d. d) c.distributions []) c.distributions
        (held_lists c w.distributions_distinct) c.table_distributions w.tables_placed)

-- `Validate` returns no error exactly for well-formed catalogs.
pub validate_iff : (c : Catalog) → (validate c ≡ ok tt) ↔ IsWellFormed c
validate_iff c = (validate_sound c, validate_complete c)
