-- ===== src/Router/Predicate/Texts.antt =====
-- The text of a node by `scalarValue` and `rawScalarValue` of internal/router/router.go.
use hamstergres.Base.{
  ℕ, ◌≡◌, ◌⊎◌, inl, inr, String, str_eq, false, List, [], ◌++◌, ◌∷◌, Option, none, some, ok,
  if◌then◌else◌, subst, >>=-eq-ok, Bool-cases, eq_iff,
}
use hamstergres.Router.Bytes.{Bytes}
use hamstergres.Router.Scalar.{FloatText, canonical_scalar}
use hamstergres.Router.Tree.{
  Node, missing, other, set_to_default, column_ref, param_ref, constant, type_cast, collate_clause,
  and_expr, other_bool_expr, a_expr, other_a_expr, row_expr, list_of, TypeName, Constant,
}
use hamstergres.Router.Predicate.{
  or_rejected, scalar_value, raw_scalar_value, operator_name, type_name, constant_bytes, parameter,
  sign_of,
}

-- A result that is no `false`.
pub or_rejected-ok : {A : Type 0} (o : Option A) (a : A) → or_rejected o ≡ ok a → o ≡ some a
or_rejected-ok none a h = cc
or_rejected-ok (some b) a h = cc

module _ (float_text : FloatText) (parameters : List (Option Bytes)) where
  -- The text of a literal or a parameter, behind its signs, and the type of the outermost cast
  -- around it, `""` where there is none. A cast reads the text that it is around by its own type.
  pub data ReadsAs : Node → Bytes → String → Type 0 where
    of_constant : {c : Constant} {v : Bytes} → constant_bytes c ≡ some v → ReadsAs (constant c) v ""
    of_parameter :
        {k : ℕ} {v : Bytes} → parameter parameters k ≡ some v → ReadsAs (param_ref k) v ""
    of_collate :
        {n : Node} {v : Bytes} {t : String} → ReadsAs n v t → ReadsAs (collate_clause n) v t
    of_plus :
        {names : List (Option String)} {n : Node} {v : Bytes} {t : String}
        → operator_name names ≡ "+"
        → ReadsAs n v t
        → ReadsAs (a_expr names missing n) (43 ∷ v) t
    of_minus :
        {names : List (Option String)} {n : Node} {v : Bytes} {t : String}
        → operator_name names ≡ "-"
        → ReadsAs n v t
        → ReadsAs (a_expr names missing n) (45 ∷ v) t
    of_cast :
        {type : Option TypeName} {n : Node} {v w : Bytes} {s t : String}
        → type_name type ≡ some t
        → ReadsAs n v s
        → canonical_scalar float_text v t ≡ ok w
        → ReadsAs (type_cast type n) w t

  -- The canonical text of a node by the type of the cast around it, if there is one, else by that
  -- of the column.
  abbrev pub HasText : Node → String → Bytes → Type 0
  HasText n column_type v =
      (raw : Bytes) × (cast : String) × ReadsAs n raw cast
      × (((cast ≡ "") × (canonical_scalar float_text raw column_type ≡ ok v))
          ⊎ ((str_eq cast "" ≡ false) × (canonical_scalar float_text raw cast ≡ ok v)))

  signed-ReadsAs :
      (names : List (Option String)) (n : Node) (sign raw : Bytes) (t : String)
      → sign_of (operator_name names) ≡ some sign
      → ReadsAs n raw t
      → ReadsAs (a_expr names missing n) (sign ++ raw) t
  signed-ReadsAs names n sign raw t h reads = elim (Bool-cases (str_eq (operator_name names) "+")) [
    | inl plus ↦
        let same : 43 ∷ [] ≡ sign = cc (rw plus at h) in
        subst (λ s. ReadsAs (a_expr names missing n) (s ++ raw) t) same
          (of_plus ((eq_iff (operator_name names) "+").0 plus) reads)
    | inr other_sign ↦ elim (Bool-cases (str_eq (operator_name names) "-")) [
      | inl minus ↦
          let same : 45 ∷ [] ≡ sign = cc (rw (other_sign, minus) at h) in
          subst (λ s. ReadsAs (a_expr names missing n) (s ++ raw) t) same
            (of_minus ((eq_iff (operator_name names) "-").0 minus) reads)
      | inr none_left ↦ cc (rw (other_sign, none_left) at h)
    ]
  ]

  raw_scalar_value-ReadsAs :
      (n : Node) (v : Bytes) (t : String)
      → raw_scalar_value float_text parameters n ≡ ok (v, t)
      → ReadsAs n v t
  unfolding raw_scalar_value
  raw_scalar_value-ReadsAs (constant c) v t h =
      let (w, known, whole) = >>=-eq-ok (or_rejected (constant_bytes c)) (λ w. ok (w, "")) h in
      let same : ◌≡◌ {A = Bytes × String} (w, "") (v, t) = cc in
      subst (λ p. ReadsAs (constant c) p.0 p.1) same
        (of_constant (or_rejected-ok (constant_bytes c) w known))
  raw_scalar_value-ReadsAs (param_ref k) v t h =
      let (w, known, whole) =
        >>=-eq-ok (or_rejected (parameter parameters k)) (λ w. ok (w, "")) h in
      let same : ◌≡◌ {A = Bytes × String} (w, "") (v, t) = cc in
      subst (λ p. ReadsAs (param_ref k) p.0 p.1) same
        (of_parameter (or_rejected-ok (parameter parameters k) w known))
  raw_scalar_value-ReadsAs (collate_clause n) v t h = of_collate (raw_scalar_value-ReadsAs n v t h)
  raw_scalar_value-ReadsAs (type_cast type n) v t h =
      let (s, named, h₁) = >>=-eq-ok (or_rejected (type_name type)) _ h in
      let ((raw, inner), read, h₂) = >>=-eq-ok (raw_scalar_value float_text parameters n) _ h₁ in
      let (w, canonical, h₃) = >>=-eq-ok (canonical_scalar float_text raw s) (λ w. ok (w, s)) h₂ in
      let same : ◌≡◌ {A = Bytes × String} (w, s) (v, t) = cc in
      subst (λ p. ReadsAs (type_cast type n) p.0 p.1) same
        (of_cast (or_rejected-ok (type_name type) s named)
          (raw_scalar_value-ReadsAs n raw inner read) canonical)
  raw_scalar_value-ReadsAs (a_expr names missing n) v t h =
      let (sign, signed, h₁) = >>=-eq-ok (or_rejected (sign_of (operator_name names))) _ h in
      let ((raw, inner), read, h₂) =
        >>=-eq-ok (raw_scalar_value float_text parameters n) (λ r. ok (sign ++ r.0, r.1)) h₁ in
      let same : ◌≡◌ {A = Bytes × String} (sign ++ raw, inner) (v, t) = cc in
      subst (λ p. ReadsAs (a_expr names missing n) p.0 p.1) same
        (signed-ReadsAs names n sign raw inner
          (or_rejected-ok (sign_of (operator_name names)) sign signed)
          (raw_scalar_value-ReadsAs n raw inner read))
  raw_scalar_value-ReadsAs missing v t h = cc
  raw_scalar_value-ReadsAs other v t h = cc
  raw_scalar_value-ReadsAs set_to_default v t h = cc
  raw_scalar_value-ReadsAs (column_ref fs) v t h = cc
  raw_scalar_value-ReadsAs (and_expr ns) v t h = cc
  raw_scalar_value-ReadsAs (other_bool_expr ns) v t h = cc
  raw_scalar_value-ReadsAs (other_a_expr os l r) v t h = cc
  raw_scalar_value-ReadsAs (row_expr ns) v t h = cc
  raw_scalar_value-ReadsAs (list_of ns) v t h = cc
  raw_scalar_value-ReadsAs (a_expr names other n) v t h = cc
  raw_scalar_value-ReadsAs (a_expr names set_to_default n) v t h = cc
  raw_scalar_value-ReadsAs (a_expr names (column_ref fs) n) v t h = cc
  raw_scalar_value-ReadsAs (a_expr names (param_ref k) n) v t h = cc
  raw_scalar_value-ReadsAs (a_expr names (constant c) n) v t h = cc
  raw_scalar_value-ReadsAs (a_expr names (type_cast ty a) n) v t h = cc
  raw_scalar_value-ReadsAs (a_expr names (collate_clause a) n) v t h = cc
  raw_scalar_value-ReadsAs (a_expr names (and_expr ns) n) v t h = cc
  raw_scalar_value-ReadsAs (a_expr names (other_bool_expr ns) n) v t h = cc
  raw_scalar_value-ReadsAs (a_expr names (a_expr os a b) n) v t h = cc
  raw_scalar_value-ReadsAs (a_expr names (other_a_expr os a b) n) v t h = cc
  raw_scalar_value-ReadsAs (a_expr names (row_expr ns) n) v t h = cc
  raw_scalar_value-ReadsAs (a_expr names (list_of ns) n) v t h = cc

  pub scalar_value-HasText :
      (n : Node) (column_type : String) (v : Bytes)
      → scalar_value float_text parameters n column_type ≡ ok v
      → HasText n column_type v
  unfolding scalar_value
  scalar_value-HasText n column_type v h =
      let ((raw, cast), read, h₁) =
        >>=-eq-ok (raw_scalar_value float_text parameters n)
          (λ r. canonical_scalar float_text r.0 (if str_eq r.1 "" then column_type else r.1)) h in
      let reads = raw_scalar_value-ReadsAs n raw cast read in
      elim (Bool-cases (str_eq cast "")) [
        | inl plain ↦ (raw, cast, reads, inl ((eq_iff cast "").0 plain, rw plain at h₁))
        | inr around ↦ (raw, cast, reads, inr (around, rw around at h₁))
      ]
