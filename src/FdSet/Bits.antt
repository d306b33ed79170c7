-- ===== src/FdSet/Bits.antt =====
-- The flag arithmetic of src/utils/fdset.c on lists of bits of one width.
use netxy.Base.{◌≡◌, refl, Bool, true, false, not, ◌&&◌, ◌||◌, List, [], ◌∷◌, length, replicate}

abbrev pub Flags : Type 0
Flags = List Bool

-- `a | b`
unfoldable pub or_flags : Flags → Flags → Flags
or_flags [] bs = []
or_flags (a ∷ as_) [] = a ∷ as_
or_flags (a ∷ as_) (b ∷ bs) = (a || b) ∷ or_flags as_ bs

-- `a & ~b`
unfoldable pub clear_flags : Flags → Flags → Flags
clear_flags [] bs = []
clear_flags (a ∷ as_) [] = a ∷ as_
clear_flags (a ∷ as_) (b ∷ bs) = (a && not b) ∷ clear_flags as_ bs

-- `a & b`
unfoldable pub common : Flags → Flags → Flags
common [] bs = []
common (a ∷ as_) [] = []
common (a ∷ as_) (b ∷ bs) = (a && b) ∷ common as_ bs

-- `a == 0`
unfoldable pub is_zero : Flags → Bool
is_zero [] = true
is_zero (a ∷ as_) = not a && is_zero as_

-- Two flag words of one width with no bit in common.
abbrev pub Apart : Flags → Flags → Type 0
Apart [] [] = Unit
Apart (a ∷ as_) (b ∷ bs) = ((a && b) ≡ false) × Apart as_ bs
Apart _ _ = ⊥

-- Setting a mask in an empty word and clearing it again leaves the empty word.
pub clear-or_zero :
    (bs : Flags) → is_zero (clear_flags (or_flags (replicate (length bs) false) bs) bs) ≡ true
unfolding or_flags clear_flags is_zero
clear-or_zero [] = refl
clear-or_zero (true ∷ bs) = clear-or_zero bs
clear-or_zero (false ∷ bs) = clear-or_zero bs
