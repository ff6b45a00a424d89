-- ===== src/Router/Predicate/Equalities.antt =====
-- What `collectEqualities` of internal/router/router.go reads off a predicate holds of each row that
-- satisfies the predicate.
use hamstergres.Base.{
  ◌≡◌, refl, ap, ◌∙◌, inl, inr, String, str_eq, eq_iff, true, List, [], ◌∷◌, Option, none, some,
  Bool-cases, is_present, subst, All,
}
use hamstergres.Base.GoMap.{GoMap, get, put, get-put}
use hamstergres.Router.Tree.{
  Node, missing, other, set_to_default, column_ref, param_ref, constant, type_cast, collate_clause,
  and_expr, other_bool_expr, a_expr, other_a_expr, row_expr, list_of, Nodes, end, node, RangeVar,
}
use hamstergres.Router.Predicate.{
  column_name, operator_name, node_list, row_items, add_value, collect_equality, and_then,
  collect_rows, is_nil, collect_operands, collect_equalities, collect_all,
}

-- The elements at the same places are related.
abbrev pub Pairs : (Node → Node → Type 0) → List Node → List Node → Type 0
Pairs Same (a ∷ as') (b ∷ bs) = Same a b × Pairs Same as' bs
Pairs Same _ _ = Unit

-- What the documentation of PostgreSQL says of a row that satisfies a predicate: each part of a
-- conjunction holds, and `=` makes its operands equal, rows of the same length element by element.
pub record IsMeaning (Holds : Node → Type 0) (Same : Node → Node → Type 0) : Type 0 where
  pub conjunction : (args : Nodes) → Holds (and_expr args) → All Holds (node_list args)
  pub equality :
      (names : List (Option String)) (a b : Node)
      → operator_name names ≡ "="
      → is_nil (row_items a) ≡ true
      → Holds (a_expr names a b)
      → Same a b
  pub rows :
      (names : List (Option String)) (a b : Node)
      → operator_name names ≡ "="
      → Holds (a_expr names a b)
      → Pairs Same (row_items a) (row_items b)
  pub symmetric : (a b : Node) → Same a b → Same b a

module _ (Holds : Node → Type 0) (Same : Node → Node → Type 0) (meaning : IsMeaning Holds Same)
    (r : RangeVar) where
  open meaning use {conjunction, equality, rows, symmetric}

  -- Each column of the map is a reference of the predicate that equals the column's value.
  abbrev pub AreEqual : GoMap Node → Type 0
  AreEqual values =
      (column : String) (n : Node)
      → get column values ≡ some n
      → (ref : Node) × (column_name r ref ≡ some column) × Same ref n

  AreEqual-put :
      (values : GoMap Node) (column : String) (ref n : Node)
      → AreEqual values
      → column_name r ref ≡ some column
      → Same ref n
      → AreEqual (put column n values)
  AreEqual-put values column ref n old named same k m found = elim (Bool-cases (str_eq column k)) [
    | inl here ↦
        let is_column : column ≡ k = (eq_iff column k).0 here in
        let is_value : n ≡ m = cc (rw (get-put, here) at found) in
        (ref, named ∙ ap some is_column, subst (Same ref) is_value same)
    | inr elsewhere ↦ old k m (rw (get-put, elsewhere) at found)
  ]

  add_value-AreEqual :
      (o : Option String) (ref n : Node) (values result : GoMap Node)
      → AreEqual values
      → column_name r ref ≡ o
      → Same ref n
      → add_value o n values ≡ some result
      → AreEqual result
  add_value-AreEqual none ref n values result old named same h =
      let unchanged : values ≡ result = cc in subst AreEqual unchanged old
  add_value-AreEqual (some c) ref n values result old named same h =
      elim (Bool-cases (is_present (get c values))) [
        | inl repeated ↦ cc (rw repeated at h)
        | inr fresh ↦
            let added : put c n values ≡ result = cc (rw fresh at h) in
            subst AreEqual added (AreEqual-put values c ref n old named same)
      ]

  collect_equality-AreEqual :
      (a b : Node) (values result : GoMap Node)
      → AreEqual values
      → Same a b
      → collect_equality r a b values ≡ some result
      → AreEqual result
  unfolding collect_equality
  collect_equality-AreEqual a b values result old same h = by_column (column_name r a) refl h
    where
      by_column :
          (o : Option String)
          → column_name r a ≡ o
          → (elim o [
            | some column ↦ add_value (some column) b values
            | none ↦ add_value (column_name r b) a values
          ])
            ≡ some result
          → AreEqual result
      by_column (some c) e j = add_value-AreEqual (some c) a b values result old e same j
      by_column none e j =
          add_value-AreEqual (column_name r b) b a values result old refl (symmetric a b same) j

  and_then-some :
      {A : Type 0} (o : Option A) (f : A → Option A) (result : A)
      → and_then o f ≡ some result
      → (a : A) × (o ≡ some a) × (f a ≡ some result)
  and_then-some none f result h = cc
  and_then-some (some a) f result h = (a, refl, h)

  collect_rows-AreEqual :
      (as' bs : List Node) (values result : GoMap Node)
      → AreEqual values
      → Pairs Same as' bs
      → collect_rows r as' bs values ≡ some result
      → AreEqual result
  unfolding collect_rows
  collect_rows-AreEqual [] [] values result old same h =
      let unchanged : values ≡ result = cc in subst AreEqual unchanged old
  collect_rows-AreEqual [] (b ∷ bs) values result old same h = cc
  collect_rows-AreEqual (a ∷ as') [] values result old same h = cc
  collect_rows-AreEqual (a ∷ as') (b ∷ bs) values result old same h =
      let (middle, first, rest) =
        and_then-some (collect_equality r a b values) (collect_rows r as' bs) result h in
      collect_rows-AreEqual as' bs middle result
        (collect_equality-AreEqual a b values middle old same.0 first) same.1 rest

  collect_operands-AreEqual :
      (names : List (Option String)) (a b : Node) (values result : GoMap Node)
      → operator_name names ≡ "="
      → AreEqual values
      → Holds (a_expr names a b)
      → collect_operands r a b values ≡ some result
      → AreEqual result
  unfolding collect_operands
  collect_operands-AreEqual names a b values result eq old holds h =
      elim (Bool-cases (is_nil (row_items a))) [
        | inr left ↦
            collect_rows-AreEqual (row_items a) (row_items b) values result old
              (rows names a b eq holds) (rw left at h)
        | inl left ↦ elim (Bool-cases (is_nil (row_items b))) [
          | inl right ↦
              collect_equality-AreEqual a b values result old (equality names a b eq left holds)
                (rw (left, right) at h)
          | inr right ↦
              collect_rows-AreEqual (row_items a) (row_items b) values result old
                (rows names a b eq holds) (rw (left, right) at h)
        ]
      ]

  unchanged :
      (values result : GoMap Node)
      → AreEqual values
      → ◌≡◌ {A = Option (GoMap Node)} (some values) (some result)
      → AreEqual result
  unchanged values result old h = let same : values ≡ result = cc in subst AreEqual same old

  mutual
    unfolding collect_equalities

    pub collect_equalities-AreEqual :
        (n : Node) (values result : GoMap Node)
        → AreEqual values
        → Holds n
        → collect_equalities r n values ≡ some result
        → AreEqual result
    collect_equalities-AreEqual (and_expr args) values result old holds h =
        collect_all-AreEqual args values result old (conjunction args holds) h
    collect_equalities-AreEqual (other_bool_expr args) values result old holds h = cc
    collect_equalities-AreEqual (a_expr names a b) values result old holds h =
        elim (Bool-cases (str_eq (operator_name names) "=")) [
          | inl eq ↦
              collect_operands-AreEqual names a b values result
                ((eq_iff (operator_name names) "=").0 eq) old holds (rw eq at h)
          | inr ne ↦
              let unchanged : values ≡ result = cc (rw ne at h) in subst AreEqual unchanged old
        ]
    collect_equalities-AreEqual missing values result old holds h = unchanged values result old h
    collect_equalities-AreEqual other values result old holds h = unchanged values result old h
    collect_equalities-AreEqual set_to_default values result old holds h =
        unchanged values result old h
    collect_equalities-AreEqual (column_ref fs) values result old holds h =
        unchanged values result old h
    collect_equalities-AreEqual (param_ref n) values result old holds h =
        unchanged values result old h
    collect_equalities-AreEqual (constant c) values result old holds h =
        unchanged values result old h
    collect_equalities-AreEqual (type_cast t a) values result old holds h =
        unchanged values result old h
    collect_equalities-AreEqual (collate_clause a) values result old holds h =
        unchanged values result old h
    collect_equalities-AreEqual (other_a_expr names a b) values result old holds h =
        unchanged values result old h
    collect_equalities-AreEqual (row_expr args) values result old holds h =
        unchanged values result old h
    collect_equalities-AreEqual (list_of args) values result old holds h =
        unchanged values result old h

    collect_all-AreEqual :
        (ns : Nodes) (values result : GoMap Node)
        → AreEqual values
        → All Holds (node_list ns)
        → collect_all r ns values ≡ some result
        → AreEqual result
    collect_all-AreEqual end values result old holds h = unchanged values result old h
    collect_all-AreEqual (node n ns) values result old holds h =
        let (middle, first, rest) =
          and_then-some (collect_equalities r n values) (collect_all r ns) result h in
        collect_all-AreEqual ns middle result
          (collect_equalities-AreEqual n values middle old holds.0 first) holds.1 rest
