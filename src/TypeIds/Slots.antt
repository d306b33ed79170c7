-- ===== src/TypeIds/Slots.antt =====
-- What a claim of `TypeIds` does to the values that stand there.
use netxy.Base.{
  ℕ, zero, suc, ◌+◌, ◌≡◌, ◌⊎◌, Option, none, some, List, [], ◌∷◌, ◌++◌, arith, length, get_elem?,
  replicate,
}
use netxy.TypeIds.{TypeIds, push_ids}

none_there : (n j c : ℕ) → get_elem? (replicate n none) j ≡ some (some c) → ⊥
none_there zero j c e = cc
none_there (suc n) zero c e = cc
none_there (suc n) (suc j) c e = none_there n j c e

pub kept_there :
    (vs : List (Option ℕ)) (n j c : ℕ)
    → get_elem? vs j ≡ some (some c)
    → get_elem? (vs ++ replicate n none) j ≡ some (some c)
kept_there [] n j c e = cc
kept_there (v ∷ vs) n zero c e = e
kept_there (v ∷ vs) n (suc j) c e = kept_there vs n j c e

pub was_there :
    (vs : List (Option ℕ)) (n j c : ℕ)
    → get_elem? (vs ++ replicate n none) j ≡ some (some c)
    → get_elem? vs j ≡ some (some c)
was_there [] n j c e = absurd (none_there n j c e)
was_there (v ∷ vs) n zero c e = e
was_there (v ∷ vs) n (suc j) c e = was_there vs n j c e

pub length-push_ids : (n base : ℕ) (ids : List ℕ) → length (push_ids n base ids) ≡ n + length ids
unfolding push_ids
length-push_ids zero base ids = omega arith
length-push_ids (suc n) base ids = omega (arith, length-push_ids n base ids)

-- A claim changes no value that is set, and makes the table longer if no id was free.
pub record Claimed (t after : TypeIds) : Type 0 where
  pub stays :
      (j c : ℕ) → get_elem? t.values j ≡ some (some c) → get_elem? after.values j ≡ some (some c)
  pub stood :
      (j c : ℕ) → get_elem? after.values j ≡ some (some c) → get_elem? t.values j ≡ some (some c)
  pub sizes :
      ((length after.values ≡ length t.values) × (length t.ids ≡ suc (length after.ids)))
      ⊎ ((length after.values ≡ length t.values + 100)
          × (length t.ids ≡ 0)
          × (length after.ids ≡ 99))
