-- ===== src/Base/GoMap/Index.antt =====
-- `for _, x := range xs { m[key(x)] = value(x) }`.
use Prim.Native.String.{String}
use mathlib.Core.Path.{◌≡◌, refl, ◌∙◌}
use mathlib.Core.Option.{Option, none, some}
use mathlib.Core.List.{List, [], ◌∷◌, map}
use native.Mathlib.Omega.{arith}
use hamstergres.Base.Lists.{IsFresh, Distinct, contains-IsFresh, find_by, is_present-find_by}
use hamstergres.Base.GoMap.{GoMap, get, put, get-put, get-empty}

module _ {ℓ κ} {A : Type ℓ} {V : Type κ} (key : A → String) (value : A → V) where
  unfoldable pub index : List A → GoMap V → GoMap V
  index [] m = m
  index (x ∷ xs) m = index xs (put (key x) (value x) m)

  abbrev pub found : Option A → Option V → Option V
  found none v = v
  found (some x) v = some (value x)

  -- Where the keys differ, the map holds the element that a search of the slice finds.
  pub get-index :
      (seen : List String) (xs : List A) (m : GoMap V) (k : String)
      → IsFresh seen (map key xs)
      → get k (index xs m) ≡ found (find_by key k xs) (get k m)
  unfolding index
  get-index seen [] m k h = refl
  get-index seen (x ∷ xs) m k h = ground (
    arith,
    get-index (key x ∷ seen) xs (put (key x) (value x) m) k h.1,
    get-put (key x) k (value x) m,
    contains-IsFresh (key x ∷ seen) (map key xs) k h.1,
    is_present-find_by key k xs,
  )

module _ {ℓ} {A : Type ℓ} (key : A → String) where
  found_self : (o : Option A) → found key (λ x. x) o none ≡ o
  found_self none = refl
  found_self (some x) = refl

  -- A map from key to element, filled from an empty one.
  pub get-index_self :
      (xs : List A) (k : String)
      → Distinct (map key xs)
      → get k (index key (λ x. x) xs []) ≡ find_by key k xs
  get-index_self xs k h =
      get-index key (λ x. x) [] xs [] k h ∙ (rw get-empty (found_self (find_by key k xs)))
