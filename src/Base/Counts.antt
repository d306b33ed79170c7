-- ===== src/Base/Counts.antt =====
-- How often a number is in a list.
use Prim.Native.Nat.{ℕ, ◌+◌}
use mathlib.Core.Path.{◌≡◌}
use mathlib.Core.List.{List, [], ◌∷◌, ◌++◌}
use native.Mathlib.Omega.{arith}
use netxy.Base.Tests.{◌==◌, if◌then◌else◌}
use netxy.Base.Lists.{total, total-append}

abbrev pub count : ℕ → List ℕ → ℕ
count id ids = total (λ k. if id == k then 1 else 0) ids

pub count-push :
    (id i : ℕ) (ids : List ℕ)
    → count id (ids ++ (i ∷ [])) ≡ count id ids + (if id == i then 1 else 0)
count-push id i ids = omega (arith, total-append (λ k. if id == k then 1 else 0) ids (i ∷ []))
