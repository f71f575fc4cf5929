-- ===== src/Base/Sort.antt =====
-- Python's `sorted` on texts: insertion by code points. Callers rely on which names it holds.
use Prim.Native.String.{String, compare}
use mathlib.Core.Path.{◌≡◌, refl}
use mathlib.Core.Bool.{◌||◌}
use mathlib.Core.List.{List, [], ◌∷◌}
use native.Mathlib.Omega.{arith}
use text.Mathlib.Text.{is_le}
use teehr_cloud_core.Base.Tests.{if◌then◌else◌}
use teehr_cloud_core.Base.Text.{◌==◌}
use teehr_cloud_core.Base.Lists.{contains}

place : String → List String → List String
place x [] = x ∷ []
place x (y ∷ ys) = if is_le (compare x y) then x ∷ y ∷ ys else y ∷ place x ys

unfoldable pub sorted : List String → List String
unfolding place
sorted [] = []
sorted (x ∷ xs) = place x (sorted xs)

contains-place :
    (x y : String) (ys : List String) → contains x (place y ys) ≡ (x == y || contains x ys)
unfolding place
contains-place x y [] = refl
contains-place x y (z ∷ zs) = ground (arith, contains-place x y zs)

pub contains-sorted : (x : String) (xs : List String) → contains x (sorted xs) ≡ contains x xs
unfolding sorted
contains-sorted x [] = refl
contains-sorted x (y ∷ ys) = ground (arith, contains-place x y (sorted ys), contains-sorted x ys)
