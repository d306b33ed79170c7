-- ===== src/Heap/Model.antt =====
-- Lists sorted by the keys meet the interface.
use mathlib.Core.Option.{some-injective}
use netxy.Base.{
  ℕ, ◌+◌, ◌≤◌, ◌<◌, ◌≡◌, refl, sym, true, false, none, some, List, [], ◌∷◌, arith, ltb, length,
  count, ◌==◌, if◌then◌else◌, head?, tail, Bool-cases, inl, inr,
}
use netxy.Heap.{HeapOps, IsHeap}

abbrev insert : (ℕ → ℕ) → List ℕ → ℕ → List ℕ
insert key [] i = i ∷ []
insert key (x ∷ xs) i =
    let rest = insert key xs i in if ltb (key i) (key x) then i ∷ x ∷ xs else x ∷ rest

abbrev Sorted : (ℕ → ℕ) → List ℕ → Type 0
Sorted key [] = Unit
Sorted key (x ∷ xs) = ((j : ℕ) → 0 < count j xs → key x ≤ key j) × Sorted key xs

abbrev pub list_heap : HeapOps
list_heap = record {
  Carrier = List ℕ;
  create = λ n. [];
  increase = λ c n. c;
  top = head?;
  pop = λ key c. tail c;
  insert = insert;
}

abbrev insert_count_lem :
    (key : ℕ → ℕ) (c : List ℕ) (i id : ℕ)
    → count id (insert key c i) ≡ count id c + (if id == i then 1 else 0)
insert_count_lem key [] i id = omega arith
insert_count_lem key (x ∷ xs) i id = elim (Bool-cases (ltb (key i) (key x))) [
  | inl first ↦ rw first (omega arith)
  | inr later ↦ rw later (omega (arith, insert_count_lem key xs i id))
]

abbrev insert-Sorted :
    (key : ℕ → ℕ) (c : List ℕ) (i : ℕ) → Sorted key c → Sorted key (insert key c i)
insert-Sorted key [] i o = (λ j h. absurd (omega arith), tt)
insert-Sorted key (x ∷ xs) i o = elim (Bool-cases (ltb (key i) (key x))) [
  | inl first ↦ rw first (least first, o)
  | inr later ↦ rw later (below later, insert-Sorted key xs i o.1)
]
  where
    least : ltb (key i) (key x) ≡ true → (j : ℕ) → 0 < count j (x ∷ xs) → key i ≤ key j
    least first j h = elim (Bool-cases (j == x)) [
      | inl same ↦ let at : j ≡ x = ground (arith, same) in rw at (ground (arith, first))
      | inr other ↦ ground (arith, first, o.0 j (ground (arith, other, h)))
    ]

    below : ltb (key i) (key x) ≡ false → (j : ℕ) → 0 < count j (insert key xs i) → key x ≤ key j
    below later j h = elim (Bool-cases (j == i)) [
      | inl same ↦ let at : j ≡ i = ground (arith, same) in rw at (ground (arith, later))
      | inr other ↦ o.0 j (ground (arith, other, h, insert_count_lem key xs i j))
    ]

abbrev pub list_heap_laws : IsHeap list_heap
list_heap_laws = record {
  items = λ c. c;
  Ordered = Sorted;
  create_items = λ n. refl;
  create_ordered = λ key n. tt;
  increase_items = λ c n. refl;
  increase_ordered = λ key c n o. o;
  insert_count = insert_count_lem;
  insert_ordered = insert-Sorted;
  top_none = empty;
  top_least = least;
  pop_count = popped;
  pop_length = shorter;
  pop_ordered = rest;
  same_keys = same;
}
  where
    empty : (c : List ℕ) → head? c ≡ none → c ≡ []
    empty [] e = refl
    empty (x ∷ xs) e = cc

    least :
        (key : ℕ → ℕ) (c : List ℕ) (i j : ℕ)
        → Sorted key c
        → head? c ≡ some i
        → 0 < count j c
        → key i ≤ key j
    least key [] i j o e h = cc
    least key (x ∷ xs) i j o e h =
        let at : i ≡ x = sym (some-injective _ _ e) in
        rw at (elim (Bool-cases (j == x)) [
          | inl same ↦ let here : j ≡ x = ground (arith, same) in rw here (omega arith)
          | inr other ↦ o.0 j (ground (arith, other, h))
        ])

    popped :
        (key : ℕ → ℕ) (c : List ℕ) (i id : ℕ)
        → head? c ≡ some i
        → count id c ≡ count id (tail c) + (if id == i then 1 else 0)
    popped key [] i id e = cc
    popped key (x ∷ xs) i id e = let at : i ≡ x = sym (some-injective _ _ e) in rw at (omega arith)

    rest : (key : ℕ → ℕ) (c : List ℕ) → Sorted key c → Sorted key (tail c)
    rest key [] o = o
    rest key (x ∷ xs) o = o.1

    same :
        (key other : ℕ → ℕ) (c : List ℕ)
        → ((j : ℕ) → 0 < count j c → key j ≡ other j)
        → Sorted key c
        → Sorted other c
    same key other [] e o = o
    same key other (x ∷ xs) e o = (
      λ j h. omega (arith, e x (ground arith), e j (omega arith), o.0 j h),
      same key other xs (λ j h. e j (omega arith)) o.1,
    )

    shorter : (key : ℕ → ℕ) (c : List ℕ) (i : ℕ) → head? c ≡ some i → length c ≡ length (tail c) + 1
    shorter key [] i e = cc
    shorter key (x ∷ xs) i e = omega arith
