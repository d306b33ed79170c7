-- ===== src/Coroutine/Unix/Valid.antt =====
-- What holds of a schedule in any execution.
use mathlib.Core.Option.{some-injective}
use netxy.Base.{
  count, ℕ, zero, suc, ◌+◌, ◌-◌, ◌*◌, ◌≤◌, ◌<◌, ◌≡◌, refl, sym, ap, ◌∙◌, true, false, Option, none,
  some, List, [], ◌∷◌, ◌++◌, arith, leb, length, get_elem?-inside, length-set, length-append,
  length-replicate, replicate, set, Bool-cases, Option-cases, inl, inr, none≢some,
}
use netxy.Stack.{StackOps, IsStack}
use netxy.Coroutine.{
  State, ready, running, suspend, block, status, runnable, is_running, is_at, entry_num,
}
use netxy.Coroutine.Active.{
  Listed, RunsAt, Listed-push, Listed-keep, Listed-pop, RunsAt-set, entry_num-set, entry_num-grow,
  status-grow,
}
use netxy.Coroutine.Unix.{find_free, Schedule, new, yield_current, block_current, finish_current}
use netxy.Coroutine.Unix.Claim.{find_free-empty}

pub status-inside :
    (cos : List (Option State)) (id : ℕ) {st : State} → status cos id ≡ some st → id < length cos
status-inside [] id e = cc
status-inside (c ∷ cos) zero e = omega arith
status-inside (c ∷ cos) (suc id) e = omega (arith, status-inside cos id e)

pub status-outside : (cos : List (Option State)) (id : ℕ) → length cos ≤ id → status cos id ≡ none
status-outside [] id h = refl
status-outside (c ∷ cos) zero h = absurd (omega arith)
status-outside (c ∷ cos) (suc id) h = status-outside cos id (omega arith)

running_of : (e : Option State) → is_running e ≡ true → e ≡ some running
running_of none h = cc
running_of (some ready) h = cc
running_of (some running) h = refl
running_of (some suspend) h = cc
running_of (some block) h = cc

module _ (s : StackOps ℕ) (l : IsStack s) where
  abbrev pub queue : Schedule s → List ℕ
  queue S = l.items S.active_list

  -- The list holds the coroutines that wait to run, once each; the current one, and no other, is in the
  -- running state; and the numbers of entries are right.
  pub record IsValid (S : Schedule s) : Type 0 where
    pub listed : Listed S.cos (queue S)
    pub runs : RunsAt S.cos S.current
    pub cap_length : length S.cos ≡ S.cap
    pub nco_num : entry_num S.cos ≡ S.nco
    pub cap_pos : 0 < S.cap

  current_runs :
      (S : Schedule s) (id : ℕ) → IsValid S → S.current ≡ some id → status S.cos id ≡ some running
  current_runs S id v e =
      running_of (status S.cos id) (v.runs id ∙ ap (λ at. is_at at id) e ∙ ground arith)

  -- an empty entry is filled
  created :
      (S : Schedule s) (cos : List (Option State)) (cap_now id : ℕ)
      → Listed cos (queue S)
      → RunsAt cos S.current
      → length cos ≡ cap_now
      → entry_num cos ≡ S.nco
      → id < cap_now
      → status cos id ≡ none
      → IsValid (record S {
        nco = S.nco + 1;
        cap = cap_now;
        cos = set cos id (some ready);
        active_list = (s.push S.active_list id).1;
      })
  created S cos cap_now id listed runs len num below empty =
      let inside : id < length cos = omega arith in
      record {
        listed =
            rw (l.push_lem S.active_list id)
              (Listed-push cos id (some ready) inside (queue S) listed (rw empty refl) refl);
        runs =
            RunsAt-set cos id (some ready) inside S.current S.current runs
              (sym (ap is_running empty) ∙ runs id) (λ k other. refl);
        cap_length = length-set cos id (some ready) ∙ len;
        nco_num =
            omega
              (arith, entry_num-set cos id (some ready) inside, ap (λ e. entry_num (e ∷ [])) empty);
        cap_pos = omega arith;
      }

  -- the current coroutine gives up, with a new entry and a new list
  gave_up :
      (S : Schedule s) (id : ℕ) (v : Option State) (list : s.Carrier) (num : ℕ)
      → IsValid S
      → S.current ≡ some id
      → Listed (set S.cos id v) (l.items list)
      → is_running v ≡ false
      → entry_num (v ∷ []) + S.nco ≡ num + 1
      → IsValid (record S { nco = num; current = none; cos = set S.cos id v; active_list = list })
  gave_up S id v list num i e listed still now =
      let at = current_runs S id i e in
      let inside = status-inside S.cos id at in
      record {
        listed = listed;
        runs =
            RunsAt-set S.cos id v inside S.current none i.runs still
              (λ k other. sym (ap (λ at. is_at at k) e ∙ other));
        cap_length = length-set S.cos id v ∙ i.cap_length;
        nco_num =
            omega
              (arith, entry_num-set S.cos id v inside, i.nco_num, ap (λ e. entry_num (e ∷ [])) at);
        cap_pos = i.cap_pos;
      }

  -- the head of the list is entered
  pub entered :
      (S : Schedule s) (id : ℕ) (st : State) (list : s.Carrier)
      → IsValid S
      → S.current ≡ none
      → status S.cos id ≡ some st
      → queue S ≡ id ∷ l.items list
      → IsValid
          (record S { current = some id; cos = set S.cos id (some running); active_list = list })
  entered S id st list i idle at first =
      let inside = status-inside S.cos id at in
      record {
        listed =
            Listed-pop S.cos id (some running) inside (l.items list)
              (λ k. sym (ap (count k) first) ∙ i.listed k) refl;
        runs =
            RunsAt-set S.cos id (some running) inside S.current (some id) i.runs (ground arith)
              (λ k other. other ∙ sym (ap (λ at. is_at at k) idle));
        cap_length = length-set S.cos id (some running) ∙ i.cap_length;
        nco_num = omega (
          arith,
          entry_num-set S.cos id (some running) inside,
          i.nco_num,
          ap (λ e. entry_num (e ∷ [])) at,
        );
        cap_pos = i.cap_pos;
      }

  pub new-IsValid :
      (S : Schedule s) {r : ℕ × Schedule s} → new s S ≡ some r → IsValid S → IsValid r.1
  unfolding new
  new-IsValid S h i = elim (Bool-cases (leb S.cap S.nco)) [
    | inl grows ↦ rw (← some-injective _ _ (rw (grows, new) at h)) (
        created S (S.cos ++ replicate S.cap none) (S.cap * 2) S.cap
          (λ id. i.listed id ∙ sym (ap runnable (status-grow S.cos S.cap id)))
          (λ id. ap is_running (status-grow S.cos S.cap id) ∙ i.runs id)
          (omega (
            arith,
            length-append S.cos (replicate S.cap none),
            length-replicate {A = Option State} S.cap none,
            i.cap_length,
          ))
          (entry_num-grow S.cos S.cap ∙ i.nco_num) (omega (arith, i.cap_pos))
          (status-grow S.cos S.cap S.cap
            ∙ status-outside S.cos S.cap (omega (arith, i.cap_length))))
    | inr fits ↦ elim (Option-cases (find_free S.cos S.nco S.cap 0 S.cap)) [
      | inl e ↦ absurd (none≢some (rw (fits, e, new) at h))
      | inr (id, e) ↦
          let here = find_free-empty S.cos S.nco S.cap 0 S.cap e in
          rw (← some-injective _ _ (rw (fits, e, new) at h)) (
            created S S.cos S.cap id i.listed i.runs i.cap_length i.nco_num
              (omega (arith, i.cap_length, get_elem?-inside S.cos id here))
              (ap (λ e. elim e as (λ x. Option State) [ none ↦ none | some entry ↦ entry ]) here))
    ]
  ]

  pub yield_current-IsValid :
      (S : Schedule s) {T : Schedule s} → yield_current s S ≡ some T → IsValid S → IsValid T
  unfolding yield_current
  yield_current-IsValid S h i = elim (Option-cases S.current) [
    | inl e ↦ absurd (none≢some (rw (e, yield_current) at h))
    | inr (id, e) ↦
        let at = current_runs S id i e in
        rw (← some-injective _ _ (rw (e, yield_current) at h)) (
          gave_up S id (some suspend) (s.push S.active_list id).1 S.nco i e
            (rw (l.push_lem S.active_list id) (
              Listed-push S.cos id (some suspend) (status-inside S.cos id at) (queue S) i.listed
                (ap runnable at) refl))
            refl (omega arith))
  ]

  pub block_current-IsValid :
      (S : Schedule s) {T : Schedule s} → block_current s S ≡ some T → IsValid S → IsValid T
  unfolding block_current
  block_current-IsValid S h i = elim (Option-cases S.current) [
    | inl e ↦ absurd (none≢some (rw (e, block_current) at h))
    | inr (id, e) ↦
        let at = current_runs S id i e in
        rw (← some-injective _ _ (rw (e, block_current) at h)) (
          gave_up S id (some block) S.active_list S.nco i e
            (Listed-keep S.cos id (some block) (status-inside S.cos id at) (queue S) i.listed
              (ap runnable at) refl)
            refl (omega arith))
  ]

  pub finish_current-IsValid :
      (S : Schedule s) {T : Schedule s} → finish_current s S ≡ some T → IsValid S → IsValid T
  unfolding finish_current
  finish_current-IsValid S h i = elim (Option-cases S.current) [
    | inl e ↦ absurd (none≢some (rw (e, finish_current) at h))
    | inr (id, e) ↦
        let at = current_runs S id i e in
        let inside = status-inside S.cos id at in
        rw (← some-injective _ _ (rw (e, finish_current) at h)) (
          gave_up S id none S.active_list (S.nco - 1) i e
            (Listed-keep S.cos id none inside (queue S) i.listed (ap runnable at) refl) refl
            (omega (
              arith,
              entry_num-set S.cos id none inside,
              ap (λ e. entry_num (e ∷ [])) at,
              i.nco_num,
            )))
  ]
