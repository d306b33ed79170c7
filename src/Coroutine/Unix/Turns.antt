-- ===== src/Coroutine/Unix/Turns.antt =====
-- In any execution a coroutine that waits to run is run when its turn comes: after one call of the
-- scheduler for each coroutine that was before it in the list.
use mathlib.Core.Option.{some-injective}
use netxy.Base.{
  count, ℕ, zero, suc, ◌≤◌, ◌≡◌, refl, sym, ap, ◌∙◌, none, some, List, [], ◌∷◌, ◌++◌, arith, ltb,
  length, total, nil_of_length, get_elem?, get_elem?-inside, drop, drop-drop, drop-append_left,
  length-append, length-drop, append_assoc, append-nil, head?, tail, Bool-cases, Option-cases, inl,
  inr, none≢some,
}
use netxy.Stack.{StackOps, IsStack}
use netxy.Coroutine.{runnable, is_running}
use netxy.Coroutine.Active.{nothing_runs}
use netxy.Coroutine.Unix.{
  Act, create, schedule, yield, wait, finish, Schedule, open_schedule, goto, run_next,
  yield_current, block_current, finish_current, step, run,
}
use netxy.Coroutine.Unix.Valid.{
  queue, IsValid, yield_current-IsValid, block_current-IsValid, finish_current-IsValid,
}
use netxy.Coroutine.Unix.Scheduling.{run_next-IsValid, new_total}

-- 1 for a call of the scheduler
abbrev pub turn : Act → ℕ
turn create = 0
turn schedule = 1
turn yield = 0
turn wait = 0
turn finish = 0

abbrev pub turns : List Act → ℕ
turns acts = total turn acts

drop_one : (xs : List ℕ) → tail xs ≡ drop 1 xs
drop_one [] = refl
drop_one (x ∷ xs) = refl

head_at :
    (xs more : List ℕ) (k : ℕ) {id : ℕ}
    → get_elem? xs k ≡ some id
    → head? (drop k xs ++ more) ≡ some id
head_at [] more k e = cc
head_at (x ∷ xs) more zero e = e
head_at (x ∷ xs) more (suc k) e = head_at xs more k e

module _ (s : StackOps ℕ) (l : IsStack s) where
  run_next_busy :
      (S T : Schedule s) (id : ℕ)
      → S.current ≡ some id
      → run_next s S ≡ some T
      → (S ≡ T) × (queue s l S ≡ [])
  unfolding run_next goto
  run_next_busy S T id e h = elim (Bool-cases (ltb 0 (s.num S.active_list))) [
    | inl full ↦ elim (Option-cases (s.pop_front S.active_list).0) [
      | inl none_first ↦ absurd (none≢some (rw (full, none_first, run_next) at h))
      | inr (k, first) ↦ absurd (none≢some (rw (e, goto) at (rw (full, first, run_next) at h)))
    ]
    | inr empty ↦ (
      some-injective _ _ (rw (empty, run_next) at h),
      nil_of_length (queue s l S) (ground (arith, empty, l.num_lem S.active_list)),
    )
  ]

  -- What a step does to a valid schedule: it stays valid, and the list loses its head in a turn and
  -- gets new ids at its end only.
  step_lem :
      (S : Schedule s) (a : Act) {T : Schedule s}
      → step s S a ≡ some T
      → IsValid s l S
      → IsValid s l T × (more : List ℕ) × (queue s l T ≡ drop (turn a) (queue s l S) ++ more)
  unfolding step yield_current block_current finish_current
  step_lem S create h i =
      let (r, e, valid, empty, full, q) = new_total s l S i in
      let same : r.1 ≡ _ = some-injective _ _ (rw (e, step) at h) in
      rw (← same) (valid, r.0 ∷ [], q)
  step_lem S schedule {T} h i = elim (Option-cases S.current) [
    | inl idle ↦
        let (U, e, valid, at, rest) = run_next-IsValid s l S i idle in
        let same : U ≡ T = some-injective _ _ (sym e ∙ h) in
        rw (← same) (valid, [], rest ∙ drop_one (queue s l S) ∙ sym (append-nil _))
    | inr (id, e) ↦
        let (same, none_left) = run_next_busy S T id e h in
        rw (← same) (i, [], none_left ∙ sym (ap (λ xs. drop 1 xs ++ []) none_left))
  ]
  step_lem S yield h i = elim (Option-cases S.current) [
    | inl e ↦ absurd (none≢some (rw (e, yield_current) at h))
    | inr (id, e) ↦ (
      yield_current-IsValid s l S h i,
      id ∷ [],
      ap (queue s l) (sym (some-injective _ _ (rw (e, yield_current) at h)))
          ∙ l.push_lem S.active_list id,
    )
  ]
  step_lem S wait h i = elim (Option-cases S.current) [
    | inl e ↦ absurd (none≢some (rw (e, block_current) at h))
    | inr (id, e) ↦ (
      block_current-IsValid s l S h i,
      [],
      ap (queue s l) (sym (some-injective _ _ (rw (e, block_current) at h))) ∙ sym (append-nil _),
    )
  ]
  step_lem S finish h i = elim (Option-cases S.current) [
    | inl e ↦ absurd (none≢some (rw (e, finish_current) at h))
    | inr (id, e) ↦ (
      finish_current-IsValid s l S h i,
      [],
      ap (queue s l) (sym (some-injective _ _ (rw (e, finish_current) at h))) ∙ sym (append-nil _),
    )
  ]

  -- In any execution that starts on a valid schedule, the schedule stays valid.
  run-IsValid :
      (S : Schedule s) (acts : List Act) {T : Schedule s}
      → run s S acts ≡ some T
      → IsValid s l S
      → IsValid s l T
  unfolding run
  run-IsValid S [] h i = rw (← some-injective _ _ h) i
  run-IsValid S (a ∷ acts) h i = elim (Option-cases (step s S a)) [
    | inl e ↦ absurd (none≢some (rw (e, run) at h))
    | inr (M, e) ↦ run-IsValid M acts (rw (e, run) at h) (step_lem S a e i).0
  ]

  run_order :
      (S : Schedule s) (acts : List Act) {T : Schedule s}
      → run s S acts ≡ some T
      → IsValid s l S
      → turns acts ≤ length (queue s l S)
      → (more : List ℕ) × (queue s l T ≡ drop (turns acts) (queue s l S) ++ more)
  unfolding run
  run_order S [] h i enough = ([], sym (append-nil _ ∙ ap (queue s l) (some-injective _ _ h)))
  run_order S (a ∷ acts) h i enough = elim (Option-cases (step s S a)) [
    | inl e ↦ absurd (none≢some (rw (e, run) at h))
    | inr (M, e) ↦
        let (valid, more, first) = step_lem S a e i in
        let left : turns acts ≤ length (drop (turn a) (queue s l S)) =
          omega (arith, length-drop (turn a) (queue s l S)) in
        let (later, rest) = run_order M acts (rw (e, run) at h) valid (
          omega (
            arith,
            ap (λ xs. length {A = ℕ} xs) first,
            length-append (drop (turn a) (queue s l S)) more,
          )) in
        (
          more ++ later,
          rest
              ∙ ap (λ xs. drop (turns acts) xs ++ later) first
              ∙ ap (λ xs. xs ++ later)
                  (drop-append_left (turns acts) (drop (turn a) (queue s l S)) more left)
              ∙ append_assoc (drop (turns acts) (drop (turn a) (queue s l S))) more later
              ∙ ap (λ xs. xs ++ (more ++ later)) (drop-drop (turns acts) (turn a) (queue s l S)),
        )
  ]

  -- In any execution on a valid schedule, once there were as many calls of the scheduler as there were
  -- coroutines before a waiting one, the next call on an idle schedule runs that one.
  pub run_turn :
      (S : Schedule s) (acts : List Act) (id : ℕ) {T : Schedule s}
      → IsValid s l S
      → get_elem? (queue s l S) (turns acts) ≡ some id
      → run s S acts ≡ some T
      → T.current ≡ none
      → (U : Schedule s) × (run_next s T ≡ some U) × (U.current ≡ some id)
  run_turn S acts id {T} i place h idle =
      let (more, order) =
        run_order S acts h i (omega (arith, get_elem?-inside (queue s l S) (turns acts) place)) in
      let (U, e, valid, at, rest) = run_next-IsValid s l T (run-IsValid S acts h i) idle in
      (U, e, at ∙ ap head? order ∙ head_at (queue s l S) more (turns acts) place)

  open-IsValid : IsValid s l (open_schedule s)
  unfolding open_schedule
  open-IsValid = record {
    listed = λ id. ap (count id) (l.create_lem 1024) ∙ sym (ap runnable (nothing_runs 16 id));
    runs = λ id. ap is_running (nothing_runs 16 id);
    cap_length = refl;
    nco_num = refl;
    cap_pos = omega arith;
  }

  -- In any execution of a fresh schedule, the list holds the ready and the suspended coroutines, once
  -- each, the current coroutine and no other is in the running state, and `nco` and `cap` are the
  -- numbers of coroutines and of entries.
  pub run_open-IsValid :
      (acts : List Act) {T : Schedule s} → run s (open_schedule s) acts ≡ some T → IsValid s l T
  run_open-IsValid acts h = run-IsValid (open_schedule s) acts h open-IsValid
