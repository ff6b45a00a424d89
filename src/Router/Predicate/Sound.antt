-- ===== src/Router/Predicate/Sound.antt =====
-- The values that `predicateKeyValues` of internal/router/router.go returns are those that the
-- predicate gives to the shard key.
use hamstergres.Base.{◌≡◌, String, List, Option, some, ok, >>=-eq-ok, >>-eq-ok, ◌>>=◌, refuse, []}
use hamstergres.Base.GoMap.{get-empty}
use hamstergres.Router.Bytes.{Bytes}
use hamstergres.Router.Decimal.{rejected}
use hamstergres.Router.Scalar.{FloatText}
use hamstergres.Router.Tree.{Node, RangeVar}
use hamstergres.Router.Predicate.{
  column_name, collect_equalities, or_rejected, ordered_values, predicate_key_values, is_missing,
}
use hamstergres.Router.Predicate.Equalities.{IsMeaning, AreEqual, collect_equalities-AreEqual}
use hamstergres.Router.Predicate.Texts.{or_rejected-ok}
use hamstergres.Router.Predicate.Values.{AreValues, column_types, values_of-AreValues}

module _ (Holds : Node → Type 0) (Same : Node → Node → Type 0) (meaning : IsMeaning Holds Same)
    (r : RangeVar) where
  -- A value that the predicate makes equal to the column of the relation.
  abbrev pub IsKeyValue : String → Node → Type 0
  IsKeyValue c n = (ref : Node) × (column_name r ref ≡ some c) × Same ref n

  module _ (float_text : FloatText) (parameters : List (Option Bytes)) where
    -- For every meaning of predicates that conjunctions and equalities have as documented: in a row that
    -- satisfies the predicate, each column of the shard key equals a value of the predicate, and
    -- the text that `predicateKeyValues` returns for the column is the canonical text of that value,
    -- by the type of a cast around the literal if there is one, else by the type of the column.
    pub predicate_key_values_sound :
        (predicate : Node) (columns types : List String) (vs : List Bytes)
        → Holds predicate
        → predicate_key_values float_text parameters r predicate columns types ≡ ok vs
        → AreValues IsKeyValue float_text parameters columns
            (column_types IsKeyValue float_text parameters columns types)
            vs
    unfolding predicate_key_values ordered_values
    predicate_key_values_sound predicate columns types vs holds h =
        let (_, h₁) =
          >>-eq-ok (refuse (is_missing float_text parameters predicate) rejected)
            (or_rejected (collect_equalities r predicate []) >>= λ values.
              ordered_values float_text parameters values columns types)
            h in
        let (values, collected, h₂) =
          >>=-eq-ok (or_rejected (collect_equalities r predicate []))
            (λ values. ordered_values float_text parameters values columns types) h₁ in
        values_of-AreValues IsKeyValue float_text parameters values columns
          (column_types IsKeyValue float_text parameters columns types) vs
          (collect_equalities-AreEqual Holds Same meaning r predicate [] values nothing holds
            (or_rejected-ok (collect_equalities r predicate []) values collected))
          h₂
      where
        nothing : AreEqual Holds Same meaning r []
        nothing k m found = cc (get-empty {V = Node} k)
