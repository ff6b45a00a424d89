-- ===== src/Base/GoMap/Keys.antt =====
-- The keys of a Go map, and how many there are.
use hamstergres.Base.Tests.{is_present, if◌then◌else◌, if-cases}
use Prim.Native.Nat.{suc, ◌≤◌, ◌<◌}
use Prim.Native.String.{String}
use mathlib.Core.Path.{◌≡◌, refl}
use mathlib.Core.Bool.{true, false}
use mathlib.Core.List.{List, [], ◌∷◌}
use native.Mathlib.Omega.{arith}
use text.Mathlib.Text.{◌==◌ as str_eq}
use text.Mathlib.TextEquality.{eq_iff}
use text.Mathlib.TextPositions.{eq_refl}
use hamstergres.Base.Lists.{length, contains, IsFresh, IsFresh-add, IsFresh-mono, Distinct}
use hamstergres.Base.GoMap.{GoMap, get, put, delete, keys}

module _ {ℓ} {V : Type ℓ} where
  pub length-delete : (k : String) (m : GoMap V) → length (delete k m) ≤ length m
  unfolding delete
  length-delete k [] = omega arith
  length-delete k ((j, v) ∷ m) = ground (arith, length-delete k m)

  -- A key that is present leaves the map smaller.
  pub length-delete_present :
      (k : String) (m : GoMap V) → is_present (get k m) ≡ true → length (delete k m) < length m
  unfolding get delete
  length-delete_present k [] present = cc
  length-delete_present k ((j, v) ∷ m) present =
      ground (arith, length-delete k m, length-delete_present k m)

  pub length-put :
      (k : String) (v : V) (m : GoMap V) → length (put k v m) ≡ suc (length (delete k m))
  unfolding put
  length-put k v m = refl

  pub is_present-get : (k : String) (m : GoMap V) → is_present (get k m) ≡ contains k (keys m)
  unfolding get
  is_present-get k [] = refl
  is_present-get k ((j, v) ∷ m) = ground (arith, is_present-get k m)

  contains-delete :
      (k j : String) (m : GoMap V)
      → contains j (keys (delete k m)) ≡ (if str_eq k j then false else contains j (keys m))
  unfolding delete
  contains-delete k j [] = ground arith
  contains-delete k j ((i, v) ∷ m) =
      ground (arith, contains-delete k j m, eq_iff i k, eq_iff i j, eq_iff k j)

  IsFresh-delete :
      (k : String) (seen : List String) (m : GoMap V)
      → IsFresh seen (keys m)
      → IsFresh seen (keys (delete k m))
  unfolding delete
  IsFresh-delete k seen [] fresh = tt
  IsFresh-delete k seen ((j, v) ∷ m) fresh =
      if-cases (λ (n : GoMap V). IsFresh seen (keys n)) (str_eq j k)
        (λ same.
          IsFresh-mono (j ∷ seen) seen (keys (delete k m)) (λ i h. ground arith)
            (IsFresh-delete k (j ∷ seen) m fresh.1))
        (λ differs. (fresh.0, IsFresh-delete k (j ∷ seen) m fresh.1))

  pub Distinct-delete :
      (k : String) (m : GoMap V) → Distinct (keys m) → Distinct (keys (delete k m))
  Distinct-delete k m differ = IsFresh-delete k [] m differ

  -- An assignment keeps the keys different.
  pub Distinct-put :
      (k : String) (v : V) (m : GoMap V) → Distinct (keys m) → Distinct (keys (put k v m))
  unfolding put
  Distinct-put k v m differ = (
    refl,
    IsFresh-add k [] (keys (delete k m)) (ground (arith, contains-delete k k m, eq_refl k))
        (IsFresh-delete k [] m differ),
  )
