-- ===== src/Base/Lists.antt =====
-- Lists measured and cut by native numbers, under the library's names.
use Prim.Native.Nat.{ℕ, zero, suc, ◌+◌, ◌-◌, ◌≤◌, ◌<◌, min}
use mathlib.Core.Path.{◌≡◌, refl, ap, ◌∙◌, sym}
use mathlib.Core.List.{List, [], ◌∷◌, ◌++◌}
use mathlib.Core.Option.{Option, none, some}
use mathlib.Core.Option.{some-injective}
use mathlib.Core.Bool.{false}
use native.Mathlib.Omega.{arith}
use netxy.Base.Tests.{◌==◌, if◌then◌else◌}

module _ {ℓ} {A : Type ℓ} where
  abbrev pub length : List A → ℕ
  length [] = 0
  length (x ∷ xs) = suc (length xs)

  abbrev pub get_elem? : List A → ℕ → Option A
  get_elem? [] i = none
  get_elem? (x ∷ xs) zero = some x
  get_elem? (x ∷ xs) (suc i) = get_elem? xs i

  abbrev pub take : ℕ → List A → List A
  take zero xs = []
  take (suc n) [] = []
  take (suc n) (x ∷ xs) = x ∷ take n xs

  abbrev pub drop : ℕ → List A → List A
  drop zero xs = xs
  drop (suc n) [] = []
  drop (suc n) (x ∷ xs) = drop n xs

  abbrev pub replicate : ℕ → A → List A
  replicate zero a = []
  replicate (suc n) a = a ∷ replicate n a

module _ {ℓ} {A : Type ℓ} where
  pub length-append : (xs ys : List A) → length (xs ++ ys) ≡ length xs + length ys
  length-append [] ys = omega arith
  length-append (x ∷ xs) ys = omega (arith, length-append xs ys)

  pub length-take : (n : ℕ) (xs : List A) → length (take n xs) ≡ min n (length xs)
  length-take zero xs = omega arith
  length-take (suc n) [] = omega arith
  length-take (suc n) (x ∷ xs) = omega (arith, length-take n xs)

  pub length-drop : (n : ℕ) (xs : List A) → length (drop n xs) ≡ length xs - n
  length-drop zero xs = omega arith
  length-drop (suc n) [] = omega arith
  length-drop (suc n) (x ∷ xs) = omega (arith, length-drop n xs)

  pub length-replicate : (n : ℕ) (a : A) → length (replicate n a) ≡ n
  length-replicate zero a = refl
  length-replicate (suc n) a = ap suc (length-replicate n a)

  pub take-append-drop : (n : ℕ) (xs : List A) → take n xs ++ drop n xs ≡ xs
  take-append-drop zero xs = refl
  take-append-drop (suc n) [] = refl
  take-append-drop (suc n) (x ∷ xs) = ap (λ ys. x ∷ ys) (take-append-drop n xs)

  -- What lies before a mark, and behind it, in a joined list.
  pub take-append : (n : ℕ) (xs ys : List A) → length xs ≡ n → take n (xs ++ ys) ≡ xs
  take-append zero [] ys e = refl
  take-append zero (x ∷ xs) ys e = absurd (omega arith)
  take-append (suc n) [] ys e = absurd (omega arith)
  take-append (suc n) (x ∷ xs) ys e = ap (λ zs. x ∷ zs) (take-append n xs ys (omega arith))

  pub drop-append : (n : ℕ) (xs ys : List A) → length xs ≡ n → drop n (xs ++ ys) ≡ ys
  drop-append zero [] ys e = refl
  drop-append zero (x ∷ xs) ys e = absurd (omega arith)
  drop-append (suc n) [] ys e = absurd (omega arith)
  drop-append (suc n) (x ∷ xs) ys e = drop-append n xs ys (omega arith)

  pub drop-append_left :
      (n : ℕ) (xs ys : List A) → n ≤ length xs → drop n (xs ++ ys) ≡ drop n xs ++ ys
  drop-append_left zero xs ys h = refl
  drop-append_left (suc n) [] ys h = absurd (omega arith)
  drop-append_left (suc n) (x ∷ xs) ys h = drop-append_left n xs ys (omega arith)

  pub take-append_left : (n : ℕ) (xs ys : List A) → n ≤ length xs → take n (xs ++ ys) ≡ take n xs
  take-append_left zero xs ys h = refl
  take-append_left (suc n) [] ys h = absurd (omega arith)
  take-append_left (suc n) (x ∷ xs) ys h =
      ap (λ zs. x ∷ zs) (take-append_left n xs ys (omega arith))

  pub drop-nil : (n : ℕ) → drop {A = A} n [] ≡ []
  drop-nil zero = refl
  drop-nil (suc n) = refl

  pub take-nil : (n : ℕ) → take {A = A} n [] ≡ []
  take-nil zero = refl
  take-nil (suc n) = refl

  -- A short list is taken whole.
  pub take-of_le : (n : ℕ) (xs : List A) → length xs ≤ n → take n xs ≡ xs
  take-of_le zero [] h = refl
  take-of_le zero (x ∷ xs) h = absurd (omega arith)
  take-of_le (suc n) [] h = refl
  take-of_le (suc n) (x ∷ xs) h = ap (λ zs. x ∷ zs) (take-of_le n xs (omega arith))

  pub drop-take : (n k : ℕ) (xs : List A) → drop n (take k xs) ≡ take (k - n) (drop n xs)
  drop-take zero k xs = ap (λ m. take m xs) (omega arith)
  drop-take (suc n) zero xs = let e : 0 - suc n ≡ 0 = omega arith in rw e
  drop-take (suc n) (suc k) [] = sym (take-nil (suc k - suc n))
  drop-take (suc n) (suc k) (x ∷ xs) = drop-take n k xs ∙ ap (λ m. take m (drop n xs)) (omega arith)

  pub drop-drop : (n r : ℕ) (xs : List A) → drop n (drop r xs) ≡ drop (r + n) xs
  drop-drop n zero xs = ap (λ k. drop k xs) (omega arith)
  drop-drop n (suc r) [] = drop-nil n ∙ sym (drop-nil (suc r + n))
  drop-drop n (suc r) (x ∷ xs) =
      let e : suc r + n ≡ suc (r + n) = omega arith in rw e (drop-drop n r xs)

module _ {ℓ} {A : Type ℓ} where
  abbrev pub head? : List A → Option A
  head? [] = none
  head? (x ∷ xs) = some x

  abbrev pub tail : List A → List A
  tail [] = []
  tail (x ∷ xs) = xs

  -- the last element, and the list without it
  abbrev pub unsnoc : List A → Option A × List A
  unsnoc [] = (none, [])
  unsnoc (x ∷ []) = (some x, [])
  unsnoc (x ∷ (y ∷ xs)) = let (z, ys) = unsnoc (y ∷ xs) in (z, x ∷ ys)

  pub unsnoc-append : (xs : List A) (x : A) → unsnoc (xs ++ (x ∷ [])) ≡ (some x, xs)
  unsnoc-append [] x = refl
  unsnoc-append (y ∷ []) x = refl
  unsnoc-append (y ∷ (z ∷ xs)) x = rw (unsnoc-append (z ∷ xs) x)

  pub nil_of_length : (xs : List A) → length xs ≡ 0 → xs ≡ []
  nil_of_length [] h = refl
  nil_of_length (x ∷ xs) h = absurd (omega arith)

module _ {ℓ} {A : Type ℓ} where
  -- A write out of bounds changes nothing.
  abbrev pub set : List A → ℕ → A → List A
  set [] i v = []
  set (x ∷ xs) zero v = v ∷ xs
  set (x ∷ xs) (suc i) v = x ∷ set xs i v

  -- the sum of the elements' weights
  abbrev pub total : (A → ℕ) → List A → ℕ
  total weight [] = 0
  total weight (x ∷ xs) = weight x + total weight xs

  pub total-append :
      (weight : A → ℕ) (xs ys : List A)
      → total weight (xs ++ ys) ≡ total weight xs + total weight ys
  total-append weight [] ys = omega arith
  total-append weight (x ∷ xs) ys = omega (arith, total-append weight xs ys)

  pub total-set :
      (weight : A → ℕ) (xs : List A) (i : ℕ) (v : A) {x : A}
      → get_elem? xs i ≡ some x
      → total weight (set xs i v) + weight x ≡ total weight xs + weight v
  total-set weight [] i v e = cc
  total-set weight (y ∷ xs) zero v {x} e =
      let same : y ≡ x = some-injective y x e in rw same (omega arith)
  total-set weight (y ∷ xs) (suc i) v e = omega (arith, total-set weight xs i v e)

  abbrev pub weight_of : (A → ℕ) → Option A → ℕ
  weight_of weight none = 0
  weight_of weight (some x) = weight x

  pub total-unsnoc :
      (weight : A → ℕ) (xs : List A)
      → total weight xs ≡ weight_of weight (unsnoc xs).0 + total weight (unsnoc xs).1
  total-unsnoc weight [] = refl
  total-unsnoc weight (x ∷ []) = refl
  total-unsnoc weight (x ∷ (y ∷ xs)) = omega (arith, total-unsnoc weight (y ∷ xs))

  -- the list without the element at a place
  abbrev pub remove : List A → ℕ → List A
  remove [] i = []
  remove (x ∷ xs) zero = xs
  remove (x ∷ xs) (suc i) = x ∷ remove xs i

  pub total-remove :
      (weight : A → ℕ) (xs : List A) (i : ℕ) {x : A}
      → get_elem? xs i ≡ some x
      → total weight xs ≡ weight x + total weight (remove xs i)
  total-remove weight [] i e = cc
  total-remove weight (y ∷ xs) zero {x} e = let same : y ≡ x = some-injective y x e in rw same refl
  total-remove weight (y ∷ xs) (suc i) e = omega (arith, total-remove weight xs i e)

  pub get_elem?-behind : (xs : List A) (i : ℕ) → get_elem? xs i ≡ none → length xs ≤ i
  get_elem?-behind [] i e = omega arith
  get_elem?-behind (x ∷ xs) zero e = cc
  get_elem?-behind (x ∷ xs) (suc i) e = omega (arith, get_elem?-behind xs i e)

  pub get_elem?-set :
      (xs : List A) (i : ℕ) (v : A) {x : A}
      → get_elem? xs i ≡ some x
      → get_elem? (set xs i v) i ≡ some v
  get_elem?-set [] i v e = cc
  get_elem?-set (y ∷ xs) zero v e = refl
  get_elem?-set (y ∷ xs) (suc i) v e = get_elem?-set xs i v e

  pub set-set : (xs : List A) (i : ℕ) (v w : A) → set (set xs i v) i w ≡ set xs i w
  set-set [] i v w = refl
  set-set (x ∷ xs) zero v w = refl
  set-set (x ∷ xs) (suc i) v w = ap (λ ys. x ∷ ys) (set-set xs i v w)

  pub length-set : (xs : List A) (i : ℕ) (v : A) → length (set xs i v) ≡ length xs
  length-set [] i v = refl
  length-set (x ∷ xs) zero v = refl
  length-set (x ∷ xs) (suc i) v = ap suc (length-set xs i v)

  pub get_elem?-within : (xs : List A) (i : ℕ) → i < length xs → (x : A) × (get_elem? xs i ≡ some x)
  get_elem?-within [] i h = absurd (omega arith)
  get_elem?-within (x ∷ xs) zero h = (x, refl)
  get_elem?-within (x ∷ xs) (suc i) h = get_elem?-within xs i (omega arith)

  pub get_elem?-inside : (xs : List A) (i : ℕ) {x : A} → get_elem? xs i ≡ some x → i < length xs
  get_elem?-inside [] i e = cc
  get_elem?-inside (x ∷ xs) zero e = omega arith
  get_elem?-inside (x ∷ xs) (suc i) e = omega (arith, get_elem?-inside xs i e)

  pub unsnoc-nil : (xs : List A) → (unsnoc xs).0 ≡ none → xs ≡ []
  unsnoc-nil [] e = refl
  unsnoc-nil (x ∷ []) e = cc
  unsnoc-nil (x ∷ (y ∷ xs)) e = absurd (nil_apart (unsnoc-nil (y ∷ xs) e))
    where
      nil_apart : y ∷ xs ≡ [] → ⊥
      nil_apart e = cc

  pub length-unsnoc :
      (xs : List A) {x : A} → (unsnoc xs).0 ≡ some x → suc (length (unsnoc xs).1) ≡ length xs
  length-unsnoc [] e = cc
  length-unsnoc (x ∷ []) e = refl
  length-unsnoc (x ∷ (y ∷ xs)) e = ap suc (length-unsnoc (y ∷ xs) e)

  pub get_elem?-set_other :
      (xs : List A) (i : ℕ) (v : A) (k : ℕ)
      → (k == i) ≡ false
      → get_elem? (set xs i v) k ≡ get_elem? xs k
  get_elem?-set_other [] i v k e = refl
  get_elem?-set_other (x ∷ xs) zero v zero e = cc
  get_elem?-set_other (x ∷ xs) zero v (suc k) e = refl
  get_elem?-set_other (x ∷ xs) (suc i) v zero e = refl
  get_elem?-set_other (x ∷ xs) (suc i) v (suc k) e =
      get_elem?-set_other xs i v k (ground (arith, e))

  -- the elements with one more behind them
  pub get_elem?-snoc :
      (xs : List A) (x : A) (k : ℕ)
      → get_elem? (xs ++ x ∷ []) k ≡ (if k == length xs then some x else get_elem? xs k)
  get_elem?-snoc [] x zero = refl
  get_elem?-snoc [] x (suc k) = ground arith
  get_elem?-snoc (y ∷ xs) x zero = ground arith
  get_elem?-snoc (y ∷ xs) x (suc k) = ground (arith, get_elem?-snoc xs x k)
