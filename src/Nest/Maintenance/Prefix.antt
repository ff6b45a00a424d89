-- ===== src/Nest/Maintenance/Prefix.antt =====
-- The range that `DeleteTestNamespace` of internal/nest/maintenance.go deletes.
use hamstergres.Base.{
  ℕ, ◌+◌, ◌≤◌, ◌≡◌, refl, ◌==◌, ltb, Bool, true, false, not, ◌&&◌, ◌||◌, List, [], ◌∷◌, Option,
  none, some, All, arith, subst, Bool-cases, inl, inr,
}
use hamstergres.Nest.Maintenance.{increment, range_end_from, prefix_range_end}

-- The order of keys.
abbrev pub is_less : List ℕ → List ℕ → Bool
is_less xs [] = false
is_less [] (y ∷ ys) = true
is_less (x ∷ xs) (y ∷ ys) = ltb x y || x == y && is_less xs ys

abbrev pub is_zero : List ℕ → Bool
is_zero (c ∷ []) = c == 0
is_zero _ = false

-- What the documentation of etcd says of a range: the keys from `first` on, and below `end'`,
-- unless `end'` is one zero byte.
abbrev pub in_range : List ℕ → List ℕ → List ℕ → Bool
in_range first end' key = not (is_less key first) && (is_zero end' || is_less key end')

abbrev pub has_prefix : List ℕ → List ℕ → Bool
has_prefix [] key = true
has_prefix (c ∷ cs) [] = false
has_prefix (c ∷ cs) (k ∷ key) = k == c && has_prefix cs key

abbrev pub AreBytes : List ℕ → Type 0
AreBytes = All (λ c. c ≤ 255)

increment-none :
    (c : ℕ) (o : Option (List ℕ)) → increment c o ≡ none → (o ≡ none) × (ltb c 255 ≡ false)
increment-none c none h = (refl, ground arith)
increment-none c (some e) h = cc

-- Nothing but longer keys stands above the largest bytes.
above_largest :
    (cs key : List ℕ)
    → AreBytes cs
    → AreBytes key
    → range_end_from cs ≡ none
    → not (is_less key cs) ≡ has_prefix cs key
unfolding range_end_from
above_largest [] key b k h = refl
above_largest (c ∷ cs) [] b k h = refl
above_largest (c ∷ cs) (a ∷ key) b k h =
    let (rest, largest) = increment-none c (range_end_from cs) h in
    let later = above_largest cs key b.1 k.1 rest in let top = b.0 in let fits = k.0 in ground arith

is_less-nil : (key : List ℕ) → is_less key [] ≡ false
is_less-nil [] = refl
is_less-nil (a ∷ key) = refl

-- An end that is found is not empty, not the one zero byte, and closes the range of the prefix.
record Closes (cs key e : List ℕ) : Type 0 where
  pub nonempty : is_less [] e ≡ true
  pub positive : is_zero e ≡ false
  pub exact : (not (is_less key cs) && is_less key e) ≡ has_prefix cs key

Closes-cons :
    (c : ℕ) (cs key e : List ℕ)
    → ((k : List ℕ) → AreBytes k → Closes cs k e)
    → AreBytes key
    → Closes (c ∷ cs) key (c ∷ e)
Closes-cons c cs key [] later k = let l = (later [] tt).nonempty in cc
Closes-cons c cs [] (d ∷ e) later k = record { nonempty = refl; positive = refl; exact = refl }
Closes-cons c cs (a ∷ key) (d ∷ e) later k =
    let l = (later key k.1).exact in
    record { nonempty = refl; positive = refl; exact = ground arith }

Closes-next :
    (c : ℕ) (cs key : List ℕ)
    → AreBytes cs
    → AreBytes key
    → range_end_from cs ≡ none
    → Closes (c ∷ cs) key ((c + 1) ∷ [])
Closes-next c cs [] b k h = record { nonempty = refl; positive = ground arith; exact = refl }
Closes-next c cs (a ∷ key) b k h =
    let later = above_largest cs key b k.1 h in
    let shorter = is_less-nil key in
    record { nonempty = refl; positive = ground arith; exact = ground arith }

range_end_from-Closes :
    (cs key e : List ℕ) → AreBytes cs → AreBytes key → range_end_from cs ≡ some e → Closes cs key e
unfolding range_end_from
range_end_from-Closes [] key e b k h = cc
range_end_from-Closes (c ∷ cs) key e b k h =
    step (λ k' f bytes same. range_end_from-Closes cs k' f b.1 bytes same) (range_end_from cs) refl
      h
  where
    step :
        ((k' f : List ℕ) → AreBytes k' → range_end_from cs ≡ some f → Closes cs k' f)
        → (o : Option (List ℕ)) → range_end_from cs ≡ o
        → increment c o ≡ some e
        → Closes (c ∷ cs) key e
    step later (some f) same j =
        let e' : c ∷ f ≡ e = cc in
        subst (λ x. Closes (c ∷ cs) key x) e'
          (Closes-cons c cs key f (λ k' bytes. later k' f bytes same) k)
    step later none same j = elim (Bool-cases (ltb c 255)) [
      | inl room ↦
          let e' : (c + 1) ∷ [] ≡ e = cc (rw room at j) in
          subst (λ x. Closes (c ∷ cs) key x) e' (Closes-next c cs key b.1 k same)
      | inr full ↦ cc (rw full at j)
    ]

-- For a prefix and a key of bytes: the key is in the range from the prefix to `prefixRangeEnd`
-- exactly if it starts with the prefix.
pub prefix_range_end_iff :
    (prefix key : List ℕ)
    → AreBytes prefix
    → AreBytes key
    → in_range prefix (prefix_range_end prefix) key ≡ has_prefix prefix key
unfolding prefix_range_end
prefix_range_end_iff prefix key b k = by_end (range_end_from prefix) refl
  where
    by_end :
        (o : Option (List ℕ))
        → range_end_from prefix ≡ o
        → in_range prefix (elim o [ none ↦ 0 ∷ [] | some e ↦ e ]) key ≡ has_prefix prefix key
    by_end none h = let largest = above_largest prefix key b k h in ground arith
    by_end (some e) h =
        let closes = range_end_from-Closes prefix key e b k h in rw closes.positive closes.exact
