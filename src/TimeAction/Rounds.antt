-- ===== src/TimeAction/Rounds.antt =====
-- What a round of the schedule calls, when the schedule ends, and what holds in any execution.
use mathlib.Core.Option.{some-injective}
use netxy.Base.{
  ℕ, zero, suc, ◌+◌, ◌≤◌, ◌<◌, ◌≡◌, ◌⊎◌, refl, sym, ap, ◌∙◌, Bool, true, false, ◌&&◌, Option, none,
  some, List, [], ◌∷◌, arith, ltb, length, get_elem?, get_elem?-within, count, Option-cases,
  Bool-cases, inl, inr, none≢some,
}
use netxy.Stack.{StackOps, IsStack}
use netxy.Heap.{HeapOps, IsHeap}
use netxy.TimeAction.{
  Node, key_of, TimerMgr, new, del, release, round, schedule, Act, add_timer, del_timer, next_round,
  step, run,
}
use netxy.TimeAction.Valid.{pending, IsValid, new-IsValid, del-IsValid, release-IsValid}
use netxy.TimeAction.Timers.{add-IsValid}

module _ (s : StackOps ℕ) (h : HeapOps) (l : IsStack s) (o : IsHeap h) where
  -- What a round that takes the top takes, and what it calls.
  round_inv :
      (now : ℕ) (m : TimerMgr s h) {r : Option (ℕ × ℕ) × TimerMgr s h}
      → round s h now m ≡ some r
      → (id : ℕ) × (node : Node) × (h.top m.compositor_heap ≡ some id)
        × (get_elem? m.node_array id ≡ some node)
        × (release s h m id ≡ r.1)
        × (((node.callback ≡ none) × (r.0 ≡ none))
            ⊎ ((c : ℕ) × (node.callback ≡ some c)
                × (r.0 ≡ some (c, node.arg))
                × (node.left_time ≤ now)))
  unfolding round
  round_inv now m e = elim (Option-cases (h.top m.compositor_heap)) [
    | inl e1 ↦ absurd (none≢some (rw (e1, round) at e))
    | inr (id, e1) ↦ elim (Option-cases (get_elem? m.node_array id)) [
      | inl e2 ↦ absurd (none≢some (rw (e1, e2, round) at e))
      | inr (node, e2) ↦ elim (Option-cases node.callback) [
        | inl e3 ↦
            let same = some-injective _ _ (rw (e1, e2, e3, round) at e) in
            (id, node, e1, e2, ap (λ t. t.1) same, inl (e3, sym (ap (λ t. t.0) same)))
        | inr (c, e3) ↦ elim (Bool-cases (ltb now node.left_time)) [
          | inl early ↦ absurd (none≢some (rw (e1, e2, e3, early, round) at e))
          | inr late ↦
              let same = some-injective _ _ (rw (e1, e2, e3, late, round) at e) in
              (
                id,
                node,
                e1,
                e2,
                ap (λ t. t.1) same,
                inr (c, e3, sym (ap (λ t. t.0) same), ground (arith, late)),
              )
        ]
      ]
    ]
  ]

  round-IsValid :
      (now : ℕ) (m : TimerMgr s h) {r : Option (ℕ × ℕ) × TimerMgr s h}
      → round s h now m ≡ some r
      → IsValid s h l o m none
      → IsValid s h l o r.1 none
  round-IsValid now m e v =
      let (id, node, top, here, same, call) = round_inv now m e in
      rw (← same) (release-IsValid s h l o m id top v)

  -- A callback is called only when its time has come, before every timer that is pending with a later
  -- time, with the argument of its timer; the timer is then pending no more.
  pub round_due :
      (now : ℕ) (m : TimerMgr s h) (callback arg j : ℕ) {after : TimerMgr s h}
      → IsValid s h l o m none
      → 0 < pending s h l o m j
      → round s h now m ≡ some (some (callback, arg), after)
      → (id : ℕ) × (node : Node) × (get_elem? m.node_array id ≡ some node)
        × (node.callback ≡ some callback)
        × (node.arg ≡ arg)
        × (node.left_time ≤ now)
        × (node.left_time ≤ key_of m.node_array j)
        × (pending s h l o m id ≡ pending s h l o after id + 1)
  unfolding release
  round_due now m callback arg j v there e =
      let (id, node, top, here, same, call) = round_inv now m e in
      elim call [
        | inl dead ↦ absurd (none≢some (sym dead.1))
        | inr (c, live, called, late) ↦
            let both = some-injective _ _ (sym called) in
            (
              id,
              node,
              here,
              live ∙ ap (λ t. some t.0) both,
              ap (λ t. t.1) both,
              late,
              omega (
                arith,
                ap (λ e. elim e as (λ x. ℕ) [ none ↦ 0 | some n ↦ n.left_time ]) here,
                o.top_least (key_of m.node_array) m.compositor_heap id j v.ordered top there,
              ),
              ground (
                arith,
                o.pop_count (key_of m.node_array) m.compositor_heap id id top,
                ap (pending s h l o) same,
                ap (λ p. count id (o.items p.compositor_heap)) same,
              ),
            )
      ]

  -- Where a round leaves the loop, what is pending has its time in the future.
  round-none :
      (now : ℕ) (m : TimerMgr s h) (j : ℕ)
      → round s h now m ≡ none
      → IsValid s h l o m none
      → (pending s h l o m j ≡ 0) ⊎ (now < key_of m.node_array j)
  unfolding round
  round-none now m j e v = elim (Option-cases (h.top m.compositor_heap)) [
    | inl e1 ↦ inl (ap (count j) (o.top_none m.compositor_heap e1))
    | inr (id, e1) ↦
        let here : 0 < pending s h l o m id =
          ground (arith, o.pop_count (key_of m.node_array) m.compositor_heap id id e1) in
        let (node, e2) =
          get_elem?-within m.node_array id (ground (arith, here, v.ids id, v.nodes)) in
        elim (Option-cases node.callback) [
          | inl e3 ↦ absurd (none≢some (sym (rw (e1, e2, e3, round) at e)))
          | inr (c, e3) ↦ elim (Bool-cases (ltb now node.left_time)) [
            | inr late ↦ absurd (none≢some (sym (rw (e1, e2, e3, late, round) at e)))
            | inl early ↦ elim (Bool-cases (ltb 0 (pending s h l o m j))) [
              | inr nowhere ↦ inl (ground (arith, nowhere))
              | inl there ↦
                  let key : key_of m.node_array id ≡ node.left_time =
                    ap (λ e. elim e as (λ x. ℕ) [ none ↦ 0 | some n ↦ n.left_time ]) e2 in
                  let least =
                    o.top_least (key_of m.node_array) m.compositor_heap id j v.ordered e1
                      (ground (arith, there)) in
                  inr (ground (arith, early, key, least))
            ]
          ]
        ]
  ]

  run-IsValid :
      (m : TimerMgr s h) (acts : List (Act s h))
      → IsValid s h l o m none
      → IsValid s h l o (run s h m acts) none
  unfolding run step
  run-IsValid m [] v = v
  run-IsValid m (add_timer got_heap got now callback delay arg ∷ acts) v =
      run-IsValid _ acts (add-IsValid s h l o got_heap got now m callback delay arg v)
  run-IsValid m (del_timer id ∷ acts) v = run-IsValid _ acts (del-IsValid s h l o m id v)
  run-IsValid m (next_round now ∷ acts) v = elim (Option-cases (round s h now m)) [
    | inl e ↦ rw (e, run, step) (run-IsValid m acts v)
    | inr (r, e) ↦ rw (e, run, step) (run-IsValid r.1 acts (round-IsValid now m e v))
  ]

  -- However timers are added, deleted and scheduled, also by their callbacks, each id is free once or
  -- pending once, and the heap is ordered by the times in the nodes.
  pub run-new-IsValid :
      (got : Bool) (num : ℕ) (acts : List (Act s h)) {m : TimerMgr s h}
      → new s h got num ≡ some m
      → IsValid s h l o (run s h m acts) none
  run-new-IsValid got num acts {m} e = run-IsValid m acts (new-IsValid s h l o got num e)

  -- is it the deletion of a timer?
  abbrev pub is_del : Act s h → Bool
  is_del (add_timer got_heap got now callback delay arg) = false
  is_del (del_timer id) = true
  is_del (next_round now) = false

  abbrev pub all_del : List (Act s h) → Bool
  all_del [] = true
  all_del (a ∷ acts) = is_del a && all_del acts

  del-heap : (m : TimerMgr s h) (id : ℕ) → (del s h m id).compositor_heap ≡ m.compositor_heap
  unfolding del
  del-heap m id = elim (Bool-cases (ltb id m.node_num)) [
    | inr e ↦ rw (e, del) refl
    | inl e ↦ elim (Option-cases (get_elem? m.node_array id)) [
      | inl f ↦ rw (e, f, del) refl
      | inr (node, f) ↦ rw (e, f, del) refl
    ]
  ]

  run-heap :
      (m : TimerMgr s h) (acts : List (Act s h))
      → all_del acts ≡ true
      → (run s h m acts).compositor_heap ≡ m.compositor_heap
  unfolding run step
  run-heap m [] e = refl
  run-heap m (add_timer got_heap got now callback delay arg ∷ acts) e = cc
  run-heap m (next_round now ∷ acts) e = cc
  run-heap m (del_timer id ∷ acts) e = run-heap (del s h m id) acts e ∙ del-heap m id

  -- If the callbacks add no timer and start no schedule of their own, the schedule ends with one more
  -- round than there are pending timers, whatever timers the callbacks delete, and every timer that is
  -- then still pending has its time in the future.
  pub schedule_lem :
      (acts : ℕ → ℕ → List (Act s h)) (fuel now : ℕ) (m : TimerMgr s h) (j : ℕ)
      → ((callback arg : ℕ) → all_del (acts callback arg) ≡ true)
      → IsValid s h l o m none
      → length (o.items m.compositor_heap) < fuel
      → (r : List (ℕ × ℕ) × TimerMgr s h) × (schedule s h acts fuel now m ≡ some r)
        × IsValid s h l o r.1 none
        × ((pending s h l o r.1 j ≡ 0) ⊎ (now < key_of r.1.node_array j))
  unfolding schedule release
  schedule_lem acts zero now m j dels v enough = absurd (omega arith)
  schedule_lem acts (suc fuel) now m j dels v enough = elim (Option-cases (round s h now m)) [
    | inl e ↦ (([], m), rw (e, schedule) refl, v, round-none now m j e v)
    | inr (r, e) ↦
        let (id, node, top, here, same, call) = round_inv now m e in
        let fewer = o.pop_length (key_of m.node_array) m.compositor_heap id top in
        let shorter = ap (λ p. length {A = ℕ} (o.items p.compositor_heap)) (sym same) in
        let after = round-IsValid now m e v in
        elim (Option-cases r.0) [
          | inl e3 ↦
              let (q, e2, valid, rest) =
                schedule_lem acts fuel now r.1 j dels after
                  (omega (arith, enough, fewer, shorter)) in
              (q, rw (e, e3, schedule) e2, valid, rest)
          | inr ((c, a), e3) ↦
              let kept =
                ap (λ p. length {A = ℕ} (o.items p)) (run-heap r.1 (acts c a) (dels c a)) in
              let (q, e2, valid, rest) =
                schedule_lem acts fuel now (run s h r.1 (acts c a)) j dels
                  (run-IsValid r.1 (acts c a) after)
                  (omega (arith, enough, fewer, shorter, kept)) in
              (((c, a) ∷ q.0, q.1), rw (e, e3, schedule) (rw (e2, schedule) refl), valid, rest)
        ]
  ]
