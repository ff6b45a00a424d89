-- ===== src/Base/Sort.antt =====
-- Go's `sort.Strings`, as insertion sort by the order of the bytes. Equal texts cannot be told
-- apart, so every sorting algorithm returns the same slice.
pub mod Order
use Prim.Native.String.{String, compare}
use Prim.Native.Nat.{Ordering}
use mathlib.Core.Path.{◌≡◌, refl}
use mathlib.Core.Bool.{Bool, true, false}
use mathlib.Core.List.{List, [], ◌∷◌}
use native.Mathlib.Omega.{arith}
use hamstergres.Base.Tests.{if◌then◌else◌}
use hamstergres.Base.Lists.{contains}

-- s <= t
abbrev pub str_le : String → String → Bool
str_le s t = elim (compare s t) [ Ordering.gt ↦ false | _ ↦ true ]

unfoldable pub insert : String → List String → List String
insert s [] = s ∷ []
insert s (t ∷ ts) = let rest = insert s ts in if str_le s t then s ∷ t ∷ ts else t ∷ rest

unfoldable pub sort : List String → List String
unfolding insert
sort [] = []
sort (s ∷ ss) = insert s (sort ss)

contains-insert : (x s : String) (ts : List String) → contains x (insert s ts) ≡ contains x (s ∷ ts)
unfolding insert
contains-insert x s [] = refl
contains-insert x s (t ∷ ts) = ground (arith, contains-insert x s ts)

pub contains-sort : (x : String) (ss : List String) → contains x (sort ss) ≡ contains x ss
unfolding sort
contains-sort x [] = refl
contains-sort x (s ∷ ss) = ground (arith, contains-insert x s (sort ss), contains-sort x ss)
