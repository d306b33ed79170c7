-- ===== src/Coroutine/Active.antt =====
-- The list of the coroutines that can run, against the table of all: each that is ready or suspended
-- is in the list once and no other is; and at most the one that runs has the state for it.
use netxy.Base.{
  count, count-push, ℕ, zero, suc, ◌+◌, ◌<◌, ◌≤◌, ◌≡◌, refl, sym, ap, ◌∙◌, false, Option, none,
  some, List, [], ◌∷◌, ◌++◌, arith, ◌==◌, length, set, replicate, Bool-cases, inl, inr,
}
use netxy.Coroutine.{
  State, ready, running, suspend, block, status, runnable, is_running, is_at, entry_num,
}

abbrev pub Listed : List (Option State) → List ℕ → Type 0
Listed cos ids = (id : ℕ) → count id ids ≡ runnable (status cos id)

abbrev pub RunsAt : List (Option State) → Option ℕ → Type 0
RunsAt cos at = (id : ℕ) → is_running (status cos id) ≡ is_at at id

pub status-set :
    (cos : List (Option State)) (i : ℕ) (v : Option State)
    → i < length cos
    → status (set cos i v) i ≡ v
status-set [] i v h = absurd (omega arith)
status-set (c ∷ cos) zero v h = refl
status-set (c ∷ cos) (suc i) v h = status-set cos i v (omega arith)

status-set_other :
    (cos : List (Option State)) (i : ℕ) (v : Option State) (id : ℕ)
    → (id == i) ≡ false
    → status (set cos i v) id ≡ status cos id
status-set_other [] i v id h = refl
status-set_other (c ∷ cos) zero v zero h = cc
status-set_other (c ∷ cos) zero v (suc id) h = refl
status-set_other (c ∷ cos) (suc i) v zero h = refl
status-set_other (c ∷ cos) (suc i) v (suc id) h = status-set_other cos i v id (ground (arith, h))

pub status-grow :
    (cos : List (Option State)) (n id : ℕ) → status (cos ++ replicate n none) id ≡ status cos id
status-grow [] zero id = refl
status-grow [] (suc n) zero = refl
status-grow [] (suc n) (suc id) = status-grow [] n id
status-grow (c ∷ cos) n zero = refl
status-grow (c ∷ cos) n (suc id) = status-grow cos n id

runnable_le : (e : Option State) → runnable e ≤ 1
runnable_le none = omega arith
runnable_le (some ready) = omega arith
runnable_le (some running) = omega arith
runnable_le (some suspend) = omega arith
runnable_le (some block) = omega arith

module _ (cos : List (Option State)) (i : ℕ) (v : Option State) (inside : i < length cos) where
  -- One entry changes, and the list at most by its id.
  pub Listed-set :
      (ids new_ids : List ℕ)
      → Listed cos ids
      → count i new_ids ≡ runnable v
      → ((id : ℕ) → (id == i) ≡ false → count id new_ids ≡ count id ids)
      → Listed (set cos i v) new_ids
  Listed-set ids new_ids l here others id = elim (Bool-cases (id == i)) [
    | inl same ↦
        let at : id ≡ i = ground (arith, same) in
        rw at (here ∙ sym (ap runnable (status-set cos i v inside)))
    | inr other ↦ others id other ∙ l id ∙ sym (ap runnable (status-set_other cos i v id other))
  ]

  pub Listed-push :
      (ids : List ℕ)
      → Listed cos ids
      → runnable (status cos i) ≡ 0
      → runnable v ≡ 1
      → Listed (set cos i v) (ids ++ (i ∷ []))
  Listed-push ids l before after =
      Listed-set ids (ids ++ (i ∷ [])) l (ground (arith, count-push i i ids, l i, before, after))
        (λ id other. count-push id i ids ∙ rw other (omega arith))

  pub Listed-keep :
      (ids : List ℕ)
      → Listed cos ids
      → runnable (status cos i) ≡ 0
      → runnable v ≡ 0
      → Listed (set cos i v) ids
  Listed-keep ids l before after =
      Listed-set ids ids l (l i ∙ before ∙ sym after) (λ id other. refl)

  pub Listed-pop : (ids : List ℕ) → Listed cos (i ∷ ids) → runnable v ≡ 0 → Listed (set cos i v) ids
  Listed-pop ids l after =
      Listed-set (i ∷ ids) ids l (ground (arith, l i, runnable_le (status cos i), after))
        (λ id other. rw other (omega arith))

  pub RunsAt-set :
      (at new_at : Option ℕ)
      → RunsAt cos at
      → is_running v ≡ is_at new_at i
      → ((id : ℕ) → (id == i) ≡ false → is_at new_at id ≡ is_at at id)
      → RunsAt (set cos i v) new_at
  RunsAt-set at new_at r here others id = elim (Bool-cases (id == i)) [
    | inl same ↦
        let at_i : id ≡ i = ground (arith, same) in
        rw at_i (ap is_running (status-set cos i v inside) ∙ here)
    | inr other ↦ ap is_running (status-set_other cos i v id other) ∙ r id ∙ sym (others id other)
  ]

pub entry_num-set :
    (cos : List (Option State)) (i : ℕ) (v : Option State)
    → i < length cos
    → entry_num (set cos i v) + entry_num (status cos i ∷ []) ≡ entry_num cos + entry_num (v ∷ [])
entry_num-set [] i v h = absurd (omega arith)
entry_num-set (c ∷ cos) zero v h = omega arith
entry_num-set (c ∷ cos) (suc i) v h = omega (arith, entry_num-set cos i v (omega arith))

pub entry_num-grow :
    (cos : List (Option State)) (n : ℕ) → entry_num (cos ++ replicate n none) ≡ entry_num cos
entry_num-grow [] zero = refl
entry_num-grow [] (suc n) = omega (arith, entry_num-grow [] n)
entry_num-grow (c ∷ cos) n = omega (arith, entry_num-grow cos n)

pub nothing_runs : (n id : ℕ) → status (replicate n none) id ≡ none
nothing_runs zero id = refl
nothing_runs (suc n) zero = refl
nothing_runs (suc n) (suc id) = nothing_runs n id
