-- ===== src/Router/Predicate/Values.antt =====
-- `orderedValues` of internal/router/router.go: the texts of the nodes that a map gives to the columns
-- of the shard key.
use hamstergres.Base.{
  ◌≡◌, String, List, [], ◌∷◌, Option, some, ok, if◌then◌else◌, subst, >>=-eq-ok, ◌>>=◌, length,
  ◌==◌,
}
use hamstergres.Base.GoMap.{GoMap, get}
use hamstergres.Router.Bytes.{Bytes}
use hamstergres.Router.Scalar.{FloatText}
use hamstergres.Router.Tree.{Node}
use hamstergres.Router.Predicate.Texts.{or_rejected-ok, HasText, scalar_value-HasText}
use hamstergres.Router.Predicate.{or_rejected, scalar_value, values_of, untyped}

module _ (P : String → Node → Type 0) (float_text : FloatText)
    (parameters : List (Option Bytes)) where
  -- Each text is that of a node that `P` gives to the column, by the type of a cast or the column's.
  abbrev pub AreValues : List String → List String → List Bytes → Type 0
  AreValues [] types [] = Unit
  AreValues (c ∷ cs) (t ∷ ts) (v ∷ vs) =
      ((n : Node) × P c n × HasText float_text parameters n t v) × AreValues cs ts vs
  AreValues _ _ _ = ⊥

  -- The types of the columns; none is known if there are not as many.
  abbrev pub column_types : List String → List String → List String
  column_types columns types =
      if length types == length columns then types else untyped float_text parameters columns

  pub values_of-AreValues :
      (values : GoMap Node) (columns types : List String) (vs : List Bytes)
      → ((c : String) (n : Node) → get c values ≡ some n → P c n)
      → values_of float_text parameters values columns types ≡ ok vs
      → AreValues columns types vs
  unfolding values_of
  values_of-AreValues values [] types vs given h =
      let none_left : [] ≡ vs = cc in subst (AreValues [] types) none_left tt
  values_of-AreValues values (c ∷ cs) [] vs given h = cc
  values_of-AreValues values (c ∷ cs) (t ∷ ts) vs given h =
      let (n, found, h₁) =
        >>=-eq-ok (or_rejected (get c values))
          (λ n. scalar_value float_text parameters n t >>= λ v.
            values_of float_text parameters values cs ts >>= λ rest. ok (v ∷ rest))
          h in
      let (v, scalar, h₂) =
        >>=-eq-ok (scalar_value float_text parameters n t)
          (λ v. values_of float_text parameters values cs ts >>= λ rest. ok (v ∷ rest)) h₁ in
      let (rest, later, h₃) =
        >>=-eq-ok (values_of float_text parameters values cs ts) (λ rest. ok (v ∷ rest)) h₂ in
      let whole : v ∷ rest ≡ vs = cc in
      subst (AreValues (c ∷ cs) (t ∷ ts)) whole (
        (
          n,
          given c n (or_rejected-ok (get c values) n found),
          scalar_value-HasText float_text parameters n t v scalar,
        ),
        values_of-AreValues values cs ts rest given later,
      )
