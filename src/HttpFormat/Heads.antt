-- ===== src/HttpFormat/Heads.antt =====
-- The fields of a head are a map, and each of them is in the text.
use netxy.Base.{
  ℕ, ◌≡◌, refl, sym, ap, ◌∙◌, true, Option, none, some, List, [], ◌∷◌, ◌++◌, append_assoc, arith,
  if◌then◌else◌, Bool-cases, inl, inr,
}
use mathlib.Core.Option.{some-injective}
use netxy.HttpFormat.{bytes_of, same, HeadFields, add_head_value, heads_text}

pub same_self : (s : List ℕ) → same s s ≡ true
unfolding same
same_self [] = refl
same_self (c ∷ s) = ground (arith, same_self s)

pub same-eq : (s t : List ℕ) → same s t ≡ true → s ≡ t
unfolding same
same-eq [] [] e = refl
same-eq [] (d ∷ t) e = cc
same-eq (c ∷ s) [] e = cc
same-eq (c ∷ s) (d ∷ t) e = ground (arith, same-eq s t)

-- `find` of the map
unfoldable pub find_head : List ℕ → HeadFields → Option (List ℕ)
find_head field [] = none
find_head field ((k, v) ∷ heads) = if same k field then some v else find_head field heads

-- A field that is set has its value, and every other field the value that it had.
pub find_head-add_head_value :
    (field j value : List ℕ) (heads : HeadFields)
    → find_head j (add_head_value field value heads)
      ≡ (if same field j then some value else find_head j heads)
unfolding find_head add_head_value
find_head-add_head_value field j value [] = refl
find_head-add_head_value field j value ((k, v) ∷ heads) = elim (Bool-cases (same k field)) [
  | inl e ↦ ground (arith, same-eq k field e)
  | inr e ↦ ground (
    arith,
    find_head-add_head_value field j value heads,
    same-eq k j,
    same-eq field j,
    same_self k,
  )
]

-- the text of a field
unfoldable pub line : List ℕ → List ℕ → List ℕ
line field value = field ++ bytes_of ": " ++ value ++ bytes_of "\r\n"

pub heads_text-find_head :
    (field : List ℕ) (heads : HeadFields) {value : List ℕ}
    → find_head field heads ≡ some value
    → (before : List ℕ) × (after : List ℕ) × (heads_text heads
        ≡ before ++ (line field value ++ after))
unfolding find_head heads_text line
heads_text-find_head field [] e = cc
heads_text-find_head field ((k, v) ∷ heads) {value} e = elim (Bool-cases (same k field)) [
  | inl t ↦
      let equal = same-eq k field t in
      let known = some-injective _ _ (rw (t, find_head) at e) in
      ([], heads_text heads, rw (equal, known) refl)
  | inr t ↦
      let (before, after, there) = heads_text-find_head field heads (rw (t, find_head) at e) in
      (
        line k v ++ before,
        after,
        ap (λ l. line k v ++ l) there
            ∙ sym (append_assoc (line k v) before (line field value ++ after)),
      )
]
