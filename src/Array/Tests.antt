-- ===== src/Array/Tests.antt =====
-- An array of two elements of two bytes, and the theorems at it.
use netxy.Base.{◌≡◌, refl, true, some, [], ◌∷◌}
use netxy.Array.{Array, new, at, set}

abbrev two : Array
two = record { buffer = 0 ∷ 0 ∷ 0 ∷ 0 ∷ []; buffer_size = 4; element_size = 2; element_num = 2 }

abbrev after_set : Array
after_set = record two { buffer = 0 ∷ 0 ∷ 7 ∷ 8 ∷ [] }

new-two : new true 2 2 ≡ some two
unfolding new
new-two = refl

set_second : set two 1 (7 ∷ 8 ∷ []) ≡ some after_set
unfolding set at
set_second = refl
