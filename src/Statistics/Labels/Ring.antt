-- ===== src/Statistics/Labels/Ring.antt =====
-- Lemmas on a ring of different keys, one of which is replaced.
use hamstergres.Base.{
  ℕ, zero, suc, ◌≡◌, refl, String, str_eq, eq_iff, true, false, ◌||◌, List, [], ◌∷◌, ◌++◌, length,
  get_elem?, contains, IsFresh, contains-IsFresh, IsFresh-add, IsFresh-mono, some, arith,
  Bool-cases, inl, inr,
}
use hamstergres.Statistics.Labels.{set_at}

pub contains-append :
    (x : String) (xs ys : List String) → contains x (xs ++ ys) ≡ contains x xs || contains x ys
contains-append x [] ys = refl
contains-append x (z ∷ zs) ys = ground (arith, contains-append x zs ys)

pub IsFresh-append :
    (s : String) (seen xs : List String)
    → contains s xs ≡ false
    → contains s seen ≡ false
    → IsFresh seen xs
    → IsFresh seen (xs ++ s ∷ [])
IsFresh-append s seen [] absent new fresh = (new, tt)
IsFresh-append s seen (x ∷ xs) absent new fresh = (
  fresh.0,
  IsFresh-append s (x ∷ seen) xs (ground arith) (ground (arith, eq_iff s x, eq_iff x s)) fresh.1,
)

pub IsFresh-set_at :
    (i : ℕ) (s : String) (seen xs : List String)
    → contains s xs ≡ false
    → contains s seen ≡ false
    → IsFresh seen xs
    → IsFresh seen (set_at i s xs)
unfolding set_at
IsFresh-set_at i s seen [] absent new fresh = tt
IsFresh-set_at zero s seen (x ∷ xs) absent new fresh = (
  new,
  IsFresh-mono (s ∷ x ∷ seen) (s ∷ seen) xs (λ k h. ground arith)
      (IsFresh-add s (x ∷ seen) xs (ground arith) fresh.1),
)
IsFresh-set_at (suc i) s seen (x ∷ xs) absent new fresh = (
  fresh.0,
  IsFresh-set_at i s (x ∷ seen) xs (ground arith) (ground (arith, eq_iff s x, eq_iff x s)) fresh.1,
)

pub length-set_at : (i : ℕ) (s : String) (xs : List String) → length (set_at i s xs) ≡ length xs
unfolding set_at
length-set_at i s [] = refl
length-set_at zero s (x ∷ xs) = refl
length-set_at (suc i) s (x ∷ xs) = rw (length-set_at i s xs)

pub get_elem?-contains :
    (i : ℕ) (xs : List String) (x : String) → get_elem? xs i ≡ some x → contains x xs ≡ true
get_elem?-contains i [] x at = cc
get_elem?-contains zero (y ∷ ys) x at = ground (arith, eq_iff y x)
get_elem?-contains (suc i) (y ∷ ys) x at = ground (arith, get_elem?-contains i ys x)

-- What the ring holds afterwards is the new text, or one of those before other than the replaced.
pub contains-set_at :
    (i : ℕ) (s oldest x : String) (seen xs : List String)
    → IsFresh seen xs
    → get_elem? xs i ≡ some oldest
    → contains x (set_at i s xs) ≡ true
    → str_eq s x ≡ false
    → (contains x xs ≡ true) × (str_eq oldest x ≡ false)
unfolding set_at
contains-set_at i s oldest x seen [] fresh at held other = cc
contains-set_at zero s oldest x seen (y ∷ ys) fresh at held other =
    ground (arith, contains-IsFresh (y ∷ seen) ys x fresh.1, eq_iff y x, eq_iff oldest x)
contains-set_at (suc i) s oldest x seen (y ∷ ys) fresh at held other =
    elim (Bool-cases (str_eq y x)) [
      | inl same ↦
          let gone : contains x ys ≡ false =
            contains-IsFresh (y ∷ seen) ys x fresh.1 (ground arith) in
          ground (arith, get_elem?-contains i ys oldest at, eq_iff oldest x)
      | inr differs ↦
          let (within, kept) =
            contains-set_at i s oldest x (y ∷ seen) ys fresh.1 at (ground arith) other in
          (ground arith, kept)
    ]
