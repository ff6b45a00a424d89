-- ===== src/Base/Lists.antt =====
-- Lists measured and indexed by native numbers, predicates over lists, and sets of texts.
use Prim.Native.Nat.{ℕ, zero, suc, ◌+◌, ◌-◌, ◌<◌, ◌≤◌}
use Prim.Native.String.{String}
use mathlib.Core.Path.{◌≡◌, refl, subst}
use mathlib.Core.Logic.{inl, inr}
use mathlib.Core.Bool.{Bool, true, false, ◌||◌}
use mathlib.Core.List.{List, [], ◌∷◌, ◌++◌, map}
use mathlib.Core.Option.{Option, none, some}
use native.Mathlib.Omega.{arith}
use text.Mathlib.Text.{◌==◌ as str_eq}
use text.Mathlib.TextEquality.{eq_iff}
use hamstergres.Base.Tests.{if◌then◌else◌, is_present, Bool-cases}

module _ {ℓ} {A : Type ℓ} where
  abbrev pub length : List A → ℕ
  length [] = 0
  length (x ∷ xs) = suc (length xs)

  abbrev pub get_elem? : List A → ℕ → Option A
  get_elem? [] i = none
  get_elem? (x ∷ xs) zero = some x
  get_elem? (x ∷ xs) (suc i) = get_elem? xs i

  abbrev pub take : ℕ → List A → List A
  take zero xs = []
  take (suc n) [] = []
  take (suc n) (x ∷ xs) = x ∷ take n xs

  abbrev pub drop : ℕ → List A → List A
  drop zero xs = xs
  drop (suc n) [] = []
  drop (suc n) (x ∷ xs) = drop n xs

  pub take-append-drop : (n : ℕ) (xs : List A) → take n xs ++ drop n xs ≡ xs
  take-append-drop zero xs = refl
  take-append-drop (suc n) [] = refl
  take-append-drop (suc n) (x ∷ xs) = rw (take-append-drop n xs)

  -- A cut within the first list does not see the second.
  pub take-append : (n : ℕ) (xs ys : List A) → n ≤ length xs → take n (xs ++ ys) ≡ take n xs
  take-append zero xs ys h = refl
  take-append (suc n) [] ys h = elim h [ ]
  take-append (suc n) (x ∷ xs) ys h = rw (take-append n xs ys (omega arith))

  pub drop-append : (n : ℕ) (xs ys : List A) → n ≤ length xs → drop n (xs ++ ys) ≡ drop n xs ++ ys
  drop-append zero xs ys h = refl
  drop-append (suc n) [] ys h = elim h [ ]
  drop-append (suc n) (x ∷ xs) ys h = drop-append n xs ys (omega arith)

  pub length-drop : (n : ℕ) (xs : List A) → length (drop n xs) ≡ length xs - n
  length-drop zero xs = omega arith
  length-drop (suc n) [] = omega arith
  length-drop (suc n) (x ∷ xs) = omega (arith, length-drop n xs)

  pub length-append : (xs ys : List A) → length (xs ++ ys) ≡ length xs + length ys
  length-append [] ys = omega arith
  length-append (x ∷ xs) ys = omega (arith, length-append xs ys)

  pub get_elem?_total : (xs : List A) (i : ℕ) → i < length xs → (a : A) × (get_elem? xs i ≡ some a)
  get_elem?_total [] i h = elim h [ ]
  get_elem?_total (x ∷ xs) zero h = (x, refl)
  get_elem?_total (x ∷ xs) (suc i) h = get_elem?_total xs i (omega arith)

  -- Every element satisfies `P`.
  abbrev pub All {κ} : (A → Type κ) → List A → Type κ
  All P [] = Unit
  All P (x ∷ xs) = P x × All P xs

-- Membership of a text in a list of texts.
abbrev pub contains : String → List String → Bool
contains x [] = false
contains x (y ∷ ys) = str_eq y x || contains x ys

-- No text of the list stands in `seen` or earlier in the list.
abbrev pub IsFresh : List String → List String → Type 0
IsFresh seen [] = Unit
IsFresh seen (x ∷ xs) = (contains x seen ≡ false) × IsFresh (x ∷ seen) xs

-- No text stands twice.
abbrev pub Distinct : List String → Type 0
Distinct xs = IsFresh [] xs

-- A text of `seen` does not stand in a list that is fresh for `seen`.
pub contains-IsFresh :
    (seen xs : List String) (k : String)
    → IsFresh seen xs
    → contains k seen ≡ true
    → contains k xs ≡ false
contains-IsFresh seen [] k h e = refl
contains-IsFresh seen (x ∷ xs) k h e =
    ground (arith, contains-IsFresh (x ∷ seen) xs k h.1, eq_iff x k)

-- Freshness reads `seen` as a set, and a smaller set leaves more fresh.
pub IsFresh-mono :
    (seen seen' xs : List String)
    → ((k : String) → contains k seen' ≡ true → contains k seen ≡ true)
    → IsFresh seen xs
    → IsFresh seen' xs
IsFresh-mono seen seen' [] sub h = tt
IsFresh-mono seen seen' (x ∷ xs) sub h = (
  ground (arith, sub x),
  IsFresh-mono (x ∷ seen) (x ∷ seen') xs (λ k p. ground (arith, sub k)) h.1,
)

-- A text that a fresh list lacks is one that the list is fresh for.
pub IsFresh-add :
    (s : String) (seen xs : List String)
    → contains s xs ≡ false
    → IsFresh seen xs
    → IsFresh (s ∷ seen) xs
IsFresh-add s seen [] absent fresh = tt
IsFresh-add s seen (x ∷ xs) absent fresh = (
  ground (arith, eq_iff s x, eq_iff x s, fresh.0),
  IsFresh-mono (s ∷ x ∷ seen) (x ∷ s ∷ seen) xs (λ k h. ground arith)
      (IsFresh-add s (x ∷ seen) xs (ground arith) fresh.1),
)

-- The first element with the key `k`.
abbrev pub find_by {ℓ} : {A : Type ℓ} → (A → String) → String → List A → Option A
find_by key k [] = none
find_by key k (x ∷ xs) = if str_eq (key x) k then some x else find_by key k xs

pub is_present-find_by {ℓ} :
    {A : Type ℓ} (key : A → String) (k : String) (xs : List A)
    → is_present (find_by key k xs) ≡ contains k (map key xs)
is_present-find_by key k [] = refl
is_present-find_by key k (x ∷ xs) = ground (arith, is_present-find_by key k xs)

pub All-map {ℓ κ μ} :
    {A : Type ℓ} {P : A → Type κ} {Q : A → Type μ} (xs : List A)
    → ((x : A) → P x → Q x)
    → All P xs
    → All Q xs
All-map [] f h = tt
All-map (x ∷ xs) f h = (f x h.0, All-map xs f h.1)

-- Where the keys differ, what satisfies `P` throughout is found to satisfy it.
pub find_by-All {ℓ κ} :
    {A : Type ℓ} (P : A → Type κ) (key : A → String) (k : String) (xs : List A) (x : A)
    → All P xs
    → find_by key k xs ≡ some x
    → P x × (key x ≡ k)
find_by-All P key k [] x h e = cc
find_by-All P key k (y ∷ ys) x h e = elim (Bool-cases (str_eq (key y) k)) [
  | inl same ↦
      let y≡x : y ≡ x = ground arith in
      (subst P y≡x h.0, subst (λ z. key z ≡ k) y≡x ((eq_iff (key y) k).0 same))
  | inr differs ↦ find_by-All P key k ys x h.1 (rw differs at e)
]

pub All-get_elem? {ℓ κ} :
    {A : Type ℓ} (P : A → Type κ) (xs : List A) (i : ℕ) (a : A)
    → All P xs
    → get_elem? xs i ≡ some a
    → P a
All-get_elem? P [] i a h e = cc
All-get_elem? P (x ∷ xs) zero a h e = let same : x ≡ a = cc in subst P same h.0
All-get_elem? P (x ∷ xs) (suc i) a h e = All-get_elem? P xs i a h.1 e
