-- ===== src/Statistics/Labels/Bounded.antt =====
-- The label cache of internal/statistics/statistics.go stays within its bound, and hides nothing:
-- the label it gives is the one that `Normalize` gives.
use hamstergres.Base.{
  ◌<◌, ◌≤◌, ◌≡◌, refl, sym, ◌∙◌, String, str_eq, eq_iff, true, false, [], ◌∷◌, ◌++◌, length,
  get_elem?, get_elem?_total, contains, Distinct, Option, none, some, ltb, arith, is_present,
  Bool-cases, Option-cases, inl, inr, length-append, if-cases, subst,
}
use hamstergres.Base.GoMap.{GoMap, get, put, delete, get-empty, get-put, get-delete}
use hamstergres.Statistics.Labels.{
  Labels, no_labels, summary_label, set_at, replace_oldest, new_label, label_or_new,
}
use hamstergres.Statistics.Labels.Ring.{
  contains-append, IsFresh-append, IsFresh-set_at, length-set_at, contains-set_at,
  get_elem?-contains,
}
use hamstergres.Base.GoMap.Keys.{length-delete, length-delete_present, length-put}

module _ (normalize : String → String) where
  abbrev pub AreNormalized : GoMap String → Type 0
  AreNormalized m = (sql label : String) → get sql m ≡ some label → label ≡ normalize sql

  AreNormalized-put :
      (sql : String) (m : GoMap String)
      → AreNormalized m
      → AreNormalized (put sql (normalize sql) m)
  AreNormalized-put sql m normal k label h = elim (Bool-cases (str_eq sql k)) [
    | inl same ↦
        let key : sql ≡ k = (eq_iff sql k).0 same in
        let found : get k (put sql (normalize sql) m) ≡ some (normalize sql) =
          (rw (get-put sql k (normalize sql) m, same)) in
        let label≡ : label ≡ normalize sql = cc (h, found) in label≡ ∙ (rw key)
    | inr differs ↦
        let found : get k (put sql (normalize sql) m) ≡ get k m =
          (rw (get-put sql k (normalize sql) m, differs)) in
        normal k label (sym found ∙ h)
  ]

  AreNormalized-delete :
      (oldest : String) (m : GoMap String) → AreNormalized m → AreNormalized (delete oldest m)
  AreNormalized-delete oldest m normal k label h =
      ground (arith, get-delete oldest k m, normal k label)

  pub record IsCache (c : Labels) : Type 0 where
    pub bounded : length c.labels ≤ 100
    pub ordered : length c.labels ≤ length c.label_order
    pub next_inside : c.label_next < 100
    pub differ : Distinct c.label_order
    pub kept :
        (sql : String) → contains sql c.label_order ≡ true → is_present (get sql c.labels) ≡ true
    pub normalized : AreNormalized c.labels

  pub no_labels-IsCache : IsCache no_labels
  no_labels-IsCache = record {
    bounded = omega arith;
    ordered = omega arith;
    next_inside = omega arith;
    differ = tt;
    kept = λ sql h. cc;
    normalized = λ sql label h. cc (h, get-empty {V = String} sql);
  }

  -- What a call returns: the label that Normalize gives, with a cache that is well formed.
  abbrev pub IsLabelled : String → Option (String × Labels) → Type 0
  IsLabelled sql none = ⊥
  IsLabelled sql (some (label, c)) = (label ≡ normalize sql) × IsCache c

  absent_in_order :
      (sql : String) (c : Labels)
      → IsCache c
      → get sql c.labels ≡ none
      → contains sql c.label_order ≡ false
  absent_in_order sql c cache missing = elim (Bool-cases (contains sql c.label_order)) [
    | inl held ↦ cc (cache.kept sql held, missing)
    | inr absent ↦ absent
  ]

  kept_replaced :
      (sql oldest k : String) (c : Labels)
      → IsCache c
      → get_elem? c.label_order c.label_next ≡ some oldest
      → contains k (set_at c.label_next sql c.label_order) ≡ true
      → is_present (get k (put sql (normalize sql) (delete oldest c.labels))) ≡ true
  kept_replaced sql oldest k c cache at held = elim (Bool-cases (str_eq sql k)) [
    | inl same ↦ rw (get-put sql k (normalize sql) (delete oldest c.labels), same)
    | inr other ↦
        let (before, differs) =
          contains-set_at c.label_next sql oldest k [] c.label_order cache.differ at held other in
        (rw (
          get-put sql k (normalize sql) (delete oldest c.labels),
          other,
          get-delete oldest k c.labels,
          differs,
        ))
        ∙ cache.kept k before
  ]

  appended :
      (sql : String) (c : Labels)
      → IsCache c
      → get sql c.labels ≡ none
      → ltb (length c.labels) 100 ≡ true
      → IsCache (record c {
        labels = put sql (normalize sql) c.labels;
        label_order = c.label_order ++ sql ∷ [];
      })
  appended sql c cache missing room = record {
    bounded =
        ground (
          arith,
          length-put sql (normalize sql) c.labels,
          length-delete sql c.labels,
          cache.bounded,
        );
    ordered = ground (
      arith,
      length-put sql (normalize sql) c.labels,
      length-delete sql c.labels,
      length-append c.label_order (sql ∷ []),
      cache.ordered,
    );
    next_inside = cache.next_inside;
    differ =
        IsFresh-append sql [] c.label_order (absent_in_order sql c cache missing) refl cache.differ;
    kept = λ k h. ground (
      arith,
      contains-append k c.label_order (sql ∷ []),
      get-put sql k (normalize sql) c.labels,
      cache.kept k,
    );
    normalized = AreNormalized-put sql c.labels cache.normalized;
  }

  replaced :
      (sql oldest : String) (c : Labels)
      → IsCache c
      → get sql c.labels ≡ none
      → length c.labels ≡ 100
      → get_elem? c.label_order c.label_next ≡ some oldest
      → IsLabelled sql (replace_oldest sql (normalize sql) c (some oldest))
  replaced sql oldest c cache missing full at =
      let absent = absent_in_order sql c cache missing in
      let oldest_held =
        cache.kept oldest (get_elem?-contains c.label_next c.label_order oldest at) in
      (
        refl,
        record {
          bounded = ground (
            arith,
            length-put sql (normalize sql) (delete oldest c.labels),
            length-delete sql (delete oldest c.labels),
            length-delete_present oldest c.labels,
            cache.bounded,
          );
          ordered = ground (
            arith,
            length-put sql (normalize sql) (delete oldest c.labels),
            length-delete sql (delete oldest c.labels),
            length-delete_present oldest c.labels,
            length-set_at c.label_next sql c.label_order,
            cache.ordered,
          );
          next_inside = omega arith;
          differ = IsFresh-set_at c.label_next sql [] c.label_order absent refl cache.differ;
          kept = λ k h. kept_replaced sql oldest k c cache at h;
          normalized =
              AreNormalized-put sql (delete oldest c.labels)
                (AreNormalized-delete oldest c.labels cache.normalized);
        },
      )

  IsLabelled-new :
      (sql : String) (c : Labels)
      → IsCache c
      → get sql c.labels ≡ none
      → IsLabelled sql (new_label normalize sql c)
  IsLabelled-new sql c cache missing =
      if-cases (IsLabelled sql) (ltb (length c.labels) 100)
        (λ room. (refl, appended sql c cache missing room))
        (λ full.
          let size : length c.labels ≡ 100 = ground (arith, cache.bounded) in
          let inside : c.label_next < length c.label_order =
            omega (arith, cache.next_inside, cache.ordered) in
          let (oldest, at) = get_elem?_total c.label_order c.label_next inside in
          subst (λ o. IsLabelled sql (replace_oldest sql (normalize sql) c o)) (sym at)
            (replaced sql oldest c cache missing size at))

  -- From a well-formed cache a call of summaryLabel does not index past its ring, returns the label
  -- that Normalize returns, and leaves a well-formed cache, of 100 labels at most.
  pub summary_label-IsLabelled :
      (sql : String) (c : Labels) → IsCache c → IsLabelled sql (summary_label normalize sql c)
  unfolding summary_label
  summary_label-IsLabelled sql c cache = elim (Option-cases (get sql c.labels)) [
    | inl missing ↦
        subst (λ o. IsLabelled sql (label_or_new normalize sql c o)) (sym missing)
          (IsLabelled-new sql c cache missing)
    | inr (label, found) ↦
        subst (λ o. IsLabelled sql (label_or_new normalize sql c o)) (sym found)
          (cache.normalized sql label found, cache)
  ]
