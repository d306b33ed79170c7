-- ===== src/Coroutine/Unix/Claim.antt =====
-- The search for an empty entry in `coroutine_new` finds one whenever there is one, although it starts
-- at an entry in the middle and wraps around.
use native.Mathlib.Nat.{mod-lt, mod-eq_of_lt, add-mod_right}
use mathlib.Core.Option.{some-injective}
use netxy.Base.{
  ℕ, zero, suc, ◌+◌, ◌-◌, ◌%◌, ◌≤◌, ◌<◌, ◌≡◌, ◌≢◌, refl, sym, ap, ◌∙◌, Option, none, some, List, [],
  ◌∷◌, arith, leb, ◌==◌, length, get_elem?, get_elem?-within, Bool-cases, Option-cases, inl, inr,
  none≢some,
}
use netxy.Coroutine.{State, status, entry_num}
use netxy.Coroutine.Unix.{find_free}

-- What the search finds is an empty entry.
pub find_free-empty :
    (cos : List (Option State)) (nco cap i rounds : ℕ) {id : ℕ}
    → find_free cos nco cap i rounds ≡ some id
    → (get_elem? cos id ≡ some none)
unfolding find_free
find_free-empty cos nco cap i zero h = cc
find_free-empty cos nco cap i (suc rounds) {id} h =
    elim (Option-cases (get_elem? cos ((i + nco) % cap))) [
      | inl e ↦ absurd (none≢some (rw (e, find_free) at h))
      | inr (none, e) ↦ ap (get_elem? cos) (sym (some-injective _ _ (rw (e, find_free) at h))) ∙ e
      | inr (some st, e) ↦ find_free-empty cos nco cap (i + 1) rounds (rw (e, find_free) at h)
    ]

-- A search that finds nothing has seen only entries in use.
find_free-none :
    (cos : List (Option State)) (nco cap i rounds k : ℕ)
    → length cos ≡ cap
    → 0 < cap
    → find_free cos nco cap i rounds ≡ none
    → i ≤ k
    → k < i + rounds
    → status cos ((k + nco) % cap) ≢ none
unfolding find_free
find_free-none cos nco cap i zero k len pos h from below = absurd (omega arith)
find_free-none cos nco cap i (suc rounds) k len pos h from below =
    let here = get_elem?-within cos ((i + nco) % cap) (omega (arith, len, mod-lt (i + nco) pos)) in
    elim (Option-cases (get_elem? cos ((i + nco) % cap))) [
      | inl e ↦ absurd (none≢some (sym e ∙ here.1))
      | inr (none, e) ↦ absurd (none≢some (sym (rw (e, find_free) at h)))
      | inr (some st, e) ↦ elim (Bool-cases (k == i)) [
        | inl same ↦
            let at : k ≡ i = ground (arith, same) in
            rw at (rw (e, status) (λ bad. none≢some (sym bad)))
        | inr other ↦
            find_free-none cos nco cap (i + 1) rounds k len pos (rw (e, find_free) at h)
              (ground (arith, other, from)) (omega arith)
      ]
    ]

-- If no entry is empty, there are as many entries in use as entries.
all_in_use :
    (cos : List (Option State))
    → ((j : ℕ) → j < length cos → status cos j ≢ none)
    → entry_num cos ≡ length cos
all_in_use [] h = refl
all_in_use (none ∷ cos) h = absurd (h 0 (omega arith) refl)
all_in_use (some st ∷ cos) h = omega (arith, all_in_use cos (λ j inside. h (suc j) (omega arith)))

-- While fewer entries are in use than there are, the search finds one.
pub find_free-found :
    (cos : List (Option State)) (nco cap : ℕ)
    → length cos ≡ cap
    → entry_num cos ≡ nco
    → nco < cap
    → (id : ℕ) × (find_free cos nco cap 0 cap ≡ some id)
find_free-found cos nco cap len num below = elim (Option-cases (find_free cos nco cap 0 cap)) [
  | inr found ↦ found
  | inl missing ↦ absurd (omega (arith, all_in_use cos (λ j inside. seen j (omega arith) missing)))
]
  where
    wraps : (j : ℕ) → j < cap → (k : ℕ) × (k < cap) × ((k + nco) % cap ≡ j)
    wraps j h = elim (Bool-cases (leb nco j)) [
      | inl later ↦
          (j - nco, omega arith, ap (λ n. n % cap) (ground (arith, later)) ∙ mod-eq_of_lt h)
      | inr early ↦ (
        j + cap - nco,
        ground (arith, early, below, h),
        ap (λ n. n % cap) (ground (arith, below)) ∙ add-mod_right j cap ∙ mod-eq_of_lt h,
      )
    ]

    seen : (j : ℕ) → j < cap → find_free cos nco cap 0 cap ≡ none → status cos j ≢ none
    seen j h missing =
        let (k, inside, e) = wraps j h in
        rw e at
          (find_free-none cos nco cap 0 cap k len (omega arith) missing (omega arith) (omega arith))
