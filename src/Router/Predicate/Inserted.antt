-- ===== src/Router/Predicate/Inserted.antt =====
-- The values that `insertKeyValues` of internal/router/router.go returns are those that the row of the
-- INSERT gives to the shard key.
use hamstergres.Base.{
  ◌≡◌, refl, ap, ◌∙◌, ◌⊎◌, inl, inr, ℕ, zero, suc, String, str_eq, eq_iff, Bool, true, false, ◌||◌,
  List, [], ◌∷◌, Option, none, some, ok, get_elem?, is_present, >>=-eq-ok, >>-eq-ok, refuse,
  Bool-cases,
}
use hamstergres.Base.GoMap.{GoMap, get, put, get-put, get-empty}
use hamstergres.Router.Bytes.{Bytes}
use hamstergres.Router.Decimal.{rejected}
use hamstergres.Router.Scalar.{FloatText}
use hamstergres.Router.Tree.{Node, ResTarget, InsertStmt}
use hamstergres.Router.Predicate.{
  or_rejected, by_column, single_row, ordered_values, insert_key_values,
}
use hamstergres.Router.Predicate.Texts.{or_rejected-ok}
use hamstergres.Router.Predicate.Values.{AreValues, column_types, values_of-AreValues}

-- The node stands in the row at the place of the column.
abbrev pub IsGiven : List (Option ResTarget) → List Node → String → Node → Type 0
IsGiven cols row c n =
    (k : ℕ) × (t : ResTarget) × (get_elem? cols k ≡ some (some t))
    × (t.name ≡ c)
    × (t.indirect ≡ false)
    × (get_elem? row k ≡ some n)

or_left : (a b d : Bool) → (a || b || d) ≡ false → b ≡ false
or_left true b d h = cc
or_left false true d h = cc
or_left false false d h = refl

module _ (float_text : FloatText) (parameters : List (Option Bytes)) where
  by_column-IsGiven :
      (cols : List (Option ResTarget)) (row : List Node) (values m : GoMap Node) (c : String)
      (n : Node)
      → by_column float_text parameters cols row values ≡ some m
      → get c m ≡ some n
      → IsGiven cols row c n ⊎ (get c values ≡ some n)
  unfolding by_column
  by_column-IsGiven [] [] values m c n h found =
      let same : values ≡ m = cc in inr (ap (get c) same ∙ found)
  by_column-IsGiven [] (x ∷ xs) values m c n h found = cc
  by_column-IsGiven (none ∷ ts) row values m c n h found = cc
  by_column-IsGiven (some t ∷ ts) [] values m c n h found = cc
  by_column-IsGiven (some t ∷ ts) (x ∷ xs) values m c n h found =
      elim (Bool-cases (str_eq t.name "" || t.indirect || is_present (get t.name values))) [
        | inl refused ↦ cc (rw refused at h)
        | inr fresh ↦
            step fresh (by_column-IsGiven ts xs (put t.name x values) m c n (rw fresh at h) found)
      ]
    where
      step :
          (str_eq t.name "" || t.indirect || is_present (get t.name values)) ≡ false
          → IsGiven ts xs c n ⊎ (get c (put t.name x values) ≡ some n)
          → IsGiven (some t ∷ ts) (x ∷ xs) c n ⊎ (get c values ≡ some n)
      step fresh (inl (k, u, at, named, direct, is_n)) = inl (suc k, u, at, named, direct, is_n)
      step fresh (inr put_at) = elim (Bool-cases (str_eq t.name c)) [
        | inl here ↦
            let is_value : some x ≡ some n = rw (get-put, here) at put_at in
            inl (
              zero,
              t,
              refl,
              (eq_iff t.name c).0 here,
              or_left (str_eq t.name "") t.indirect (is_present (get t.name values)) fresh,
              is_value,
            )
        | inr away ↦ inr (rw (get-put, away) at put_at)
      ]

  -- What `insertKeyValues` returns are, for each column of the shard key, the canonical text of the
  -- node at the place of that column in the only row of the INSERT: by the type of a cast around the
  -- literal if there is one, else by the type of the column.
  pub insert_key_values_sound :
      (s : InsertStmt) (columns types : List String) (vs : List Bytes)
      → insert_key_values float_text parameters s columns types ≡ ok vs
      → (rows row : List Node) × (s.values_lists ≡ some rows)
        × (single_row float_text parameters rows ≡ some row)
        × AreValues
            (IsGiven s.cols row)
            float_text
            parameters
            columns
            (column_types (IsGiven s.cols row) float_text parameters columns types)
            vs
  unfolding insert_key_values ordered_values
  insert_key_values_sound s columns types vs h =
      let (_, h₁) = >>-eq-ok (refuse s.with_clause rejected) _ h in
      let (rows, listed, h₂) = >>=-eq-ok (or_rejected s.values_lists) _ h₁ in
      let (row, single, h₃) =
        >>=-eq-ok (or_rejected (single_row float_text parameters rows)) _ h₂ in
      let (values, collected, h₄) =
        >>=-eq-ok (or_rejected (by_column float_text parameters s.cols row [])) _ h₃ in
      (
        rows,
        row,
        or_rejected-ok s.values_lists rows listed,
        or_rejected-ok (single_row float_text parameters rows) row single,
        values_of-AreValues (IsGiven s.cols row) float_text parameters values columns
            (column_types (IsGiven s.cols row) float_text parameters columns types) vs
            (λ c n found. given row c n (
              by_column-IsGiven s.cols row [] values c n
                (or_rejected-ok (by_column float_text parameters s.cols row []) values collected)
                found))
            h₄,
      )
    where
      given :
          (row : List Node) (c : String) (n : Node)
          → IsGiven s.cols row c n ⊎ (get c [] ≡ some n)
          → IsGiven s.cols row c n
      given row c n (inl g) = g
      given row c n (inr e) = cc (get-empty {V = Node} c)
