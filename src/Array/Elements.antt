-- ===== src/Array/Elements.antt =====
-- The elements of an array: what setting one, and making room for more, changes.
use mathlib.Core.Option.{some-injective}
use netxy.Base.{
  ℕ, zero, suc, ◌+◌, ◌-◌, ◌*◌, ◌≤◌, ◌<◌, ◌≢◌, ◌≡◌, refl, sym, ap, ◌∙◌, true, false, some, List, [],
  ◌∷◌, ◌++◌, arith, ltb, leb, length, take, drop, replicate, if◌then◌else◌, length-append,
  length-take, length-drop, length-replicate, take-append, drop-append, drop-append_left,
  take-append_left, drop-drop, drop-take, Bool-cases, inl, inr, none≢some,
}
use netxy.Array.{Array, at, copy_to, set, increase, element}

abbrev pub IsValid : Array → Type 0
IsValid a = (length a.buffer ≡ a.buffer_size) × (a.buffer_size ≡ a.element_num * a.element_size)

-- An element before the end ends before the end.
within : (i n k : ℕ) → i < n → i * k + k ≤ n * k
within i n k h = grind arith

take-take : (n k : ℕ) (xs : List ℕ) → n ≤ k → take n (take k xs) ≡ take n xs
take-take zero k xs h = refl
take-take (suc n) zero xs h = absurd (omega arith)
take-take (suc n) (suc k) [] h = refl
take-take (suc n) (suc k) (x ∷ xs) h = ap (λ ys. x ∷ ys) (take-take n k xs (omega arith))

-- What lies behind the first list of two.
drop-behind : (n : ℕ) (xs ys : List ℕ) → length xs ≤ n → drop n (xs ++ ys) ≡ drop (n - length xs) ys
drop-behind n [] ys h = ap (λ k. drop k ys) (omega arith)
drop-behind zero (x ∷ xs) ys h = absurd (omega arith)
drop-behind (suc n) (x ∷ xs) ys h =
    drop-behind n xs ys (omega arith) ∙ ap (λ k. drop k ys) (omega arith)

module _ (xs bytes : List ℕ) (place : ℕ) (room : place + length bytes ≤ length xs) where
  length-copy_to : length (copy_to xs place bytes) ≡ length xs
  length-copy_to = omega (
    arith,
    length-append (take place xs) (bytes ++ drop (place + length bytes) xs),
    length-append bytes (drop (place + length bytes) xs),
    length-take place xs,
    length-drop (place + length bytes) xs,
  )

  front : length (take place xs) ≡ place
  front = omega (arith, length-take place xs)

  copied : take (length bytes) (drop place (copy_to xs place bytes)) ≡ bytes
  copied =
      ap (take (length bytes)) (drop-append place (take place xs) _ front)
      ∙ take-append (length bytes) bytes _ refl

  copied_before :
      (other n : ℕ)
      → other + n ≤ place
      → take n (drop other (copy_to xs place bytes)) ≡ take n (drop other xs)
  copied_before other n h =
      let part : n ≤ length (drop other (take place xs)) =
        omega (arith, length-drop other (take place xs), front) in
      ap (take n) (drop-append_left other (take place xs) _ (omega (arith, front)))
      ∙ take-append_left n (drop other (take place xs)) _ part
      ∙ ap (take n) (drop-take other place xs)
      ∙ take-take n (place - other) (drop other xs) (omega arith)

  copied_behind :
      (other n : ℕ)
      → place + length bytes ≤ other
      → take n (drop other (copy_to xs place bytes)) ≡ take n (drop other xs)
  copied_behind other n h = ap (take n) (
      drop-behind other (take place xs) _ (omega (arith, front))
      ∙ drop-behind (other - length (take place xs)) bytes _ (omega (arith, front))
      ∙ drop-drop (other - length (take place xs) - length bytes) (place + length bytes) xs
      ∙ ap (λ k. drop k xs) (omega (arith, front)))

-- Setting an element of a valid array keeps it valid, and the element then has the first bytes of the
-- data, as many as an element has.
set_lem :
    (a : Array) (i : ℕ) (bytes : List ℕ)
    → IsValid a
    → i < a.element_num
    → a.element_size ≤ length bytes
    → (b : Array) × (set a i bytes ≡ some b) × IsValid b × (element b i ≡ take a.element_size bytes)
unfolding set at
set_lem a i bytes v h enough =
    let size = a.element_size in
    let part : length (take size bytes) ≡ size = omega (arith, length-take size bytes) in
    let room : i * size + length (take size bytes) ≤ length a.buffer =
      omega (arith, within i a.element_num size h, v.0, v.1, part) in
    let inside : ltb i a.element_num ≡ true = ground arith in
    let whole : ltb (length bytes) size ≡ false = ground arith in
    (
      record a { buffer = copy_to a.buffer (i * size) (take size bytes) },
      rw (inside, set, at) (rw (whole, set) refl),
      (length-copy_to a.buffer (take size bytes) (i * size) room ∙ v.0, v.1),
      ap (λ n. take n (drop (i * size) (copy_to a.buffer (i * size) (take size bytes)))) (sym part)
          ∙ copied a.buffer (take size bytes) (i * size) room,
    )

-- Setting an element leaves every other as it was.
set_other :
    (a : Array) (i j : ℕ) (bytes : List ℕ) {b : Array}
    → IsValid a
    → i ≢ j
    → set a i bytes ≡ some b
    → element b j ≡ element a j
unfolding set at
set_other a i j bytes v other h = elim (Bool-cases (ltb i a.element_num)) [
  | inr outside ↦ absurd (none≢some (rw (outside, set, at) at h))
  | inl inside ↦ elim (Bool-cases (ltb (length bytes) a.element_size)) [
    | inl short ↦ absurd (none≢some (rw (short, set) at (rw (inside, set, at) at h)))
    | inr whole ↦
        let size = a.element_size in
        let part : length (take size bytes) ≡ size =
          ground (arith, length-take size bytes, whole) in
        let below : i < a.element_num = ground (arith, inside) in
        let room : i * size + length (take size bytes) ≤ length a.buffer =
          omega (arith, within i a.element_num size below, v.0, v.1, part) in
        let same = some-injective _ _ (rw (whole, set) at (rw (inside, set, at) at h)) in
        rw (← same) (elim (Bool-cases (ltb j i)) [
          | inl before ↦
              copied_before a.buffer (take size bytes) (i * size) room (j * size) size
                (within j i size (ground (arith, before)))
          | inr behind ↦
              copied_behind a.buffer (take size bytes) (i * size) room (j * size) size
                (omega (arith, within i j size (after j i behind other), part))
        ])
  ]
]
  where
    after : (j i : ℕ) → ltb j i ≡ false → i ≢ j → i < j
    after j i behind other = ground (arith, behind, other)

zeros : (n d m : ℕ) → d + n ≤ m → take {A = ℕ} n (drop d (replicate m 0)) ≡ replicate {A = ℕ} n 0
zeros zero zero m h = refl
zeros zero (suc d) m h = refl
zeros (suc n) zero zero h = absurd (omega arith)
zeros (suc n) zero (suc m) h = ap (λ ys. 0 ∷ ys) (zeros n 0 m (omega arith))
zeros (suc n) (suc d) zero h = absurd (omega arith)
zeros (suc n) (suc d) (suc m) h = zeros (suc n) d m (omega arith)

-- Making room keeps a valid array valid and its elements as they were; the new ones are zero.
increase_lem :
    (a : Array) (num i : ℕ)
    → IsValid a
    → 0 < num
    → i < a.element_num + num
    → (b : Array) × (increase true a num ≡ some (true, b))
      × IsValid b
      × (element b i ≡ (if ltb i a.element_num then element a i else replicate a.element_size 0))
unfolding increase
increase_lem a num i v h below =
    let size = a.element_size in
    let some_more : leb num 0 ≡ false = ground arith in
    let split : (a.element_num + num) * size ≡ a.element_num * size + num * size = grind arith in
    let last = within i (a.element_num + num) size below in
    let zero_num = length-replicate {A = ℕ} (num * size) 0 in
    (
      record a {
        buffer = a.buffer ++ replicate (num * size) 0;
        buffer_size = a.buffer_size + num * size;
        element_num = a.element_num + num;
      },
      rw (some_more, increase) refl,
      (
        omega (arith, length-append a.buffer (replicate (num * size) 0), zero_num, v.0),
        omega (arith, v.1, split),
      ),
      elim (Bool-cases (ltb i a.element_num)) [
        | inl old ↦
            let inside = within i a.element_num size (ground (arith, old)) in
            rw old (
              ap (take size)
                (drop-append_left (i * size) a.buffer _ (omega (arith, inside, v.0, v.1)))
              ∙ take-append_left size (drop (i * size) a.buffer) _
                  (omega (arith, inside, v.0, v.1, length-drop (i * size) a.buffer)))
        | inr fresh ↦
            let behind : a.element_num * size ≤ i * size =
              before_all a.element_num i size (ground (arith, fresh)) in
            rw fresh (
              ap (take size) (drop-behind (i * size) a.buffer _ (omega (arith, behind, v.0, v.1)))
              ∙ zeros size (i * size - length a.buffer) (num * size)
                  (omega (arith, behind, last, split, v.0, v.1)))
      ],
    )
  where
    before_all : (n i k : ℕ) → n ≤ i → n * k ≤ i * k
    before_all n i k h = grind arith
