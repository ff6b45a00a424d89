-- ===== src/Base/Sort/Order.antt =====
-- The order of texts, and the order of a sorted slice.
use Prim.Native.Nat.{ℕ, Ordering, compare as compare_ℕ}
use Prim.Native.Char.{Char, code}
use Prim.Native.String.{String, then, compare}
use Prim.Native.String.compare
use mathlib.Core.Path.{◌≡◌, refl, sym, ap, ◌∙◌}
use mathlib.Core.Logic.{inl, inr}
use mathlib.Core.Bool.{Bool, true, false, ◌&&◌, ◌||◌}
use mathlib.Core.List.{List, [], ◌∷◌}
use native.Mathlib.Omega.{arith}
use text.Mathlib.TextEquality.{eq_iff, codes_equal}
use hamstergres.Base.Tests.{ltb, ◌==◌, Bool-cases}
use hamstergres.Base.Lists.{All, contains}
use hamstergres.Base.Sort.{str_le, insert, sort}

abbrev not_gt : Ordering → Bool
not_gt o = elim o [ Ordering.gt ↦ false | _ ↦ true ]

not_gt-then :
    (a b : ℕ) (o : Ordering) → not_gt ((then) (compare_ℕ a b) o) ≡ (ltb a b || a == b && not_gt o)
not_gt-then a b o = go (compare_ℕ a b)
  where
    go :
        (p : Ordering)
        → not_gt ((then) p o) ≡ (
            elim p [ Ordering.lt ↦ true | _ ↦ false ]
            || elim p [ Ordering.eq ↦ true | _ ↦ false ] && not_gt o)
    go Ordering.lt = refl
    go Ordering.eq = refl
    go Ordering.gt = refl

str_le-cons :
    (c d : Char) (s t : String)
    → str_le (String.◌∷◌ c s) (String.◌∷◌ d t)
      ≡ (ltb (code c) (code d) || code c == code d && str_le s t)
str_le-cons c d s t =
    ap not_gt (compare.cons-cons c d s t) ∙ not_gt-then (code c) (code d) (compare s t)

str_le-nil : (t : String) → str_le String.[] t ≡ true
str_le-nil String.[] = ap not_gt compare.nil-nil
str_le-nil (String.◌∷◌ d t) = ap not_gt (compare.nil-cons d t)

str_le-cons_nil : (c : Char) (s : String) → str_le (String.◌∷◌ c s) String.[] ≡ false
str_le-cons_nil c s = ap not_gt (compare.cons-nil c s)

pub str_le_trans : (a b c : String) → str_le a b ≡ true → str_le b c ≡ true → str_le a c ≡ true
str_le_trans String.[] b c h g = str_le-nil c
str_le_trans (String.◌∷◌ x a) String.[] c h g = cc (str_le-cons_nil x a)
str_le_trans (String.◌∷◌ x a) (String.◌∷◌ y b) String.[] h g = cc (str_le-cons_nil y b)
str_le_trans (String.◌∷◌ x a) (String.◌∷◌ y b) (String.◌∷◌ z c) h g =
    let h' = sym (str_le-cons x y a b) ∙ h in
    let g' = sym (str_le-cons y z b c) ∙ g in
    let later = str_le_trans a b c in str_le-cons x z a c ∙ ground arith

pub str_le_total : (a b : String) → str_le a b ≡ false → str_le b a ≡ true
str_le_total String.[] b h = cc (str_le-nil b)
str_le_total (String.◌∷◌ x a) String.[] h = str_le-nil (String.◌∷◌ x a)
str_le_total (String.◌∷◌ x a) (String.◌∷◌ y b) h =
    let h' = sym (str_le-cons x y a b) ∙ h in
    let later = str_le_total a b in str_le-cons y x b a ∙ ground arith

pub str_le_self : (a : String) → str_le a a ≡ true
str_le_self a = elim (Bool-cases (str_le a a)) [ inl h ↦ h | inr h ↦ str_le_total a a h ]

pub str_le_antisym : (a b : String) → str_le a b ≡ true → str_le b a ≡ true → a ≡ b
str_le_antisym String.[] String.[] h g = refl
str_le_antisym String.[] (String.◌∷◌ y b) h g = cc (str_le-cons_nil y b)
str_le_antisym (String.◌∷◌ x a) String.[] h g = cc (str_le-cons_nil x a)
str_le_antisym (String.◌∷◌ x a) (String.◌∷◌ y b) h g =
    let h' = sym (str_le-cons x y a b) ∙ h in
    let g' = sym (str_le-cons y x b a) ∙ g in
    let same : compare_ℕ (code x) (code y) ≡ Ordering.eq = ground arith in
    let tails = str_le_antisym a b (ground arith) (ground arith) in
    λ i. String.◌∷◌ (codes_equal x y same i) (tails i)

-- Each text is not after those behind it.
abbrev pub IsSorted : List String → Type 0
IsSorted [] = Unit
IsSorted (x ∷ xs) = All (λ y. str_le x y ≡ true) xs × IsSorted xs

All-le :
    (x y : String) (ys : List String)
    → str_le x y ≡ true
    → All (λ z. str_le y z ≡ true) ys
    → All (λ z. str_le x z ≡ true) ys
All-le x y [] h a = tt
All-le x y (z ∷ ys) h a = (str_le_trans x y z h a.0, All-le x y ys h a.1)

All-insert :
    (x s : String) (ts : List String)
    → str_le x s ≡ true
    → All (λ z. str_le x z ≡ true) ts
    → All (λ z. str_le x z ≡ true) (insert s ts)
unfolding insert
All-insert x s [] h a = (h, tt)
All-insert x s (t ∷ ts) h a = elim (Bool-cases (str_le s t)) [
  | inl first ↦ rw first (h, a)
  | inr later ↦ rw later (a.0, All-insert x s ts h a.1)
]

insert-IsSorted : (s : String) (ts : List String) → IsSorted ts → IsSorted (insert s ts)
unfolding insert
insert-IsSorted s [] h = (tt, tt)
insert-IsSorted s (t ∷ ts) h = elim (Bool-cases (str_le s t)) [
  | inl first ↦ rw first ((first, All-le s t ts first h.0), h)
  | inr later ↦ rw later (All-insert t s ts (str_le_total s t later) h.0, insert-IsSorted s ts h.1)
]

pub sort-IsSorted : (ss : List String) → IsSorted (sort ss)
unfolding sort
sort-IsSorted [] = tt
sort-IsSorted (s ∷ ss) = insert-IsSorted s (sort ss) (sort-IsSorted ss)

-- What stands in a list is not before a lower bound of the list.
pub contains-le :
    (y x : String) (ys : List String)
    → All (λ z. str_le y z ≡ true) ys
    → contains x ys ≡ true
    → str_le y x ≡ true
contains-le y x [] a h = cc
contains-le y x (z ∷ ys) a h = ground (arith, eq_iff z x, contains-le y x ys a.1, a.0)
