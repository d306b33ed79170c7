-- ===== src/Coroutine/Unix/Scheduling.antt =====
-- The scheduler runs the coroutines in the order in which they became ready to run, and never fails.
use netxy.Base.{
  count, ℕ, zero, suc, ◌+◌, ◌<◌, ◌≡◌, ◌⊎◌, refl, sym, ap, ◌∙◌, true, false, Option, none, some,
  List, [], ◌∷◌, ◌++◌, arith, ltb, leb, length, get_elem?, get_elem?-inside, set, replicate,
  length-replicate, ◌*◌, length-append, head?, tail, Bool-cases, inl, inr,
}
use netxy.Stack.{StackOps, IsStack}
use netxy.Coroutine.{State, ready, running, suspend, block, status, runnable}
use netxy.Coroutine.Active.{status-set}
use netxy.Coroutine.Unix.{Schedule, new, enter, goto, run_next}
use netxy.Coroutine.Unix.Claim.{find_free-found, find_free-empty}
use netxy.Coroutine.Unix.Valid.{queue, IsValid, entered, status-inside, status-outside, new-IsValid}

-- an entry whose coroutine can be entered
waiting_entry :
    (e : Option State)
    → 0 < runnable e
    → (st : State) × (e ≡ some st) × ((st ≡ ready) ⊎ (st ≡ suspend))
waiting_entry none h = absurd (omega arith)
waiting_entry (some ready) h = (ready, refl, inl refl)
waiting_entry (some running) h = absurd (omega arith)
waiting_entry (some suspend) h = (suspend, refl, inr refl)
waiting_entry (some block) h = absurd (omega arith)

entry_of_status :
    (cos : List (Option State)) (id : ℕ) {st : State}
    → status cos id ≡ some st
    → get_elem? cos id ≡ some (some st)
entry_of_status [] id e = cc
entry_of_status (c ∷ cos) zero e = ap some e
entry_of_status (c ∷ cos) (suc id) e = entry_of_status cos id e

module _ (s : StackOps ℕ) (l : IsStack s) where
  goto_waiting :
      (S : Schedule s) (id : ℕ) (st : State)
      → S.current ≡ none
      → id < S.cap
      → get_elem? S.cos id ≡ some (some st)
      → (st ≡ ready) ⊎ (st ≡ suspend)
      → goto s S id ≡ some (record S { current = some id; cos = set S.cos id (some running) })
  unfolding goto enter
  goto_waiting S id st idle below here (inl e) =
      let inside : ltb id S.cap ≡ true = ground arith in rw (idle, inside, here, e, goto) refl
  goto_waiting S id st idle below here (inr e) =
      let inside : ltb id S.cap ≡ true = ground arith in rw (idle, inside, here, e, goto) refl

  -- On a valid schedule with none running, the scheduler takes the first waiting coroutine out of the
  -- list and runs it, or does nothing if none waits; either way the schedule stays valid.
  pub run_next-IsValid :
      (S : Schedule s)
      → IsValid s l S
      → S.current ≡ none
      → (T : Schedule s) × (run_next s S ≡ some T)
        × IsValid s l T
        × (T.current ≡ head? (queue s l S))
        × (queue s l T ≡ tail (queue s l S))
  unfolding run_next
  run_next-IsValid S i idle = by_queue (queue s l S) refl
    where
      by_queue :
          (ids : List ℕ)
          → queue s l S ≡ ids
          → (T : Schedule s) × (run_next s S ≡ some T)
            × IsValid s l T
            × (T.current ≡ head? (queue s l S))
            × (queue s l T ≡ tail (queue s l S))
      by_queue [] e =
          let empty : ltb 0 (s.num S.active_list) ≡ false =
            ground (arith, l.num_lem S.active_list, ap (λ xs. length {A = ℕ} xs) e) in
          (S, rw (empty, run_next) refl, i, idle ∙ sym (ap head? e), e ∙ sym (ap tail e))
      by_queue (id ∷ ids) e =
          let full : ltb 0 (s.num S.active_list) ≡ true =
            ground (arith, l.num_lem S.active_list, ap (λ xs. length {A = ℕ} xs) e) in
          let first : (s.pop_front S.active_list).0 ≡ some id =
            l.pop_front_value S.active_list ∙ ap head? e in
          let rest : l.items (s.pop_front S.active_list).1 ≡ ids =
            l.pop_front_rest S.active_list ∙ ap tail e in
          let whole : queue s l S ≡ id ∷ l.items (s.pop_front S.active_list).1 =
            e ∙ ap (λ xs. id ∷ xs) (sym rest) in
          let count_one : 0 < runnable (status S.cos id) =
            ground (arith, i.listed id, ap (λ xs. count id xs) e) in
          let (st, at, waits) = waiting_entry (status S.cos id) count_one in
          let inside : id < S.cap = omega (arith, status-inside S.cos id at, i.cap_length) in
          let list = (s.pop_front S.active_list).1 in
          (
            record S { current = some id; cos = set S.cos id (some running); active_list = list },
            rw (full, first, run_next)
                (goto_waiting (record S { active_list = list }) id st idle inside
                  (entry_of_status S.cos id at) waits),
            entered s l S id st list i idle at whole,
            sym (ap head? e),
            rest ∙ sym (ap tail e),
          )

  -- `coroutine_new` never fails on a valid schedule: it takes an empty entry, or makes room.
  pub new_total :
      (S : Schedule s)
      → IsValid s l S
      → (r : ℕ × Schedule s) × (new s S ≡ some r)
        × IsValid s l r.1
        × (status S.cos r.0 ≡ none)
        × (status r.1.cos r.0 ≡ some ready)
        × (queue s l r.1 ≡ queue s l S ++ (r.0 ∷ []))
  unfolding new
  new_total S i = elim (Bool-cases (leb S.cap S.nco)) [
    | inl grows ↦
        let made : new s S ≡ some (S.cap, grown S) = rw (grows, new) refl in
        (
          (S.cap, grown S),
          made,
          new-IsValid s l S made i,
          status-outside S.cos S.cap (omega (arith, i.cap_length)),
          status-set (S.cos ++ replicate S.cap none) S.cap (some ready) (
              omega (
                arith,
                length-append S.cos (replicate S.cap none),
                length-replicate {A = Option State} S.cap none,
                i.cap_length,
                i.cap_pos,
              )),
          l.push_lem S.active_list S.cap,
        )
    | inr fits ↦
        let (id, found) =
          find_free-found S.cos S.nco S.cap i.cap_length i.nco_num (ground (arith, fits)) in
        let made : new s S ≡ some (id, filled S id) = rw (fits, found, new) refl in
        let here = find_free-empty S.cos S.nco S.cap 0 S.cap found in
        (
          (id, filled S id),
          made,
          new-IsValid s l S made i,
          ap (λ e. elim e as (λ x. Option State) [ none ↦ none | some entry ↦ entry ]) here,
          status-set S.cos id (some ready) (get_elem?-inside S.cos id here),
          l.push_lem S.active_list id,
        )
  ]
    where
      grown : Schedule s → Schedule s
      grown S = record S {
        nco = S.nco + 1;
        cap = S.cap * 2;
        cos = set (S.cos ++ replicate S.cap none) S.cap (some ready);
        active_list = (s.push S.active_list S.cap).1;
      }

      filled : Schedule s → ℕ → Schedule s
      filled S id = record S {
        nco = S.nco + 1;
        cos = set S.cos id (some ready);
        active_list = (s.push S.active_list id).1;
      }
