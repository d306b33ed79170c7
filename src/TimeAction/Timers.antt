-- ===== src/TimeAction/Timers.antt =====
-- What adding a timer and a round of the schedule do, and any execution of them.
use mathlib.Core.Option.{some-injective}
use mathlib.Core.Path.{subst}
use netxy.Base.{
  ℕ, ◌*◌, ◌<◌, ◌≡◌, refl, sym, ap, ◌∙◌, Bool, true, false, Option, none, some, arith, length,
  get_elem?, get_elem?-set, get_elem?-within, set, count, Option-cases, inl, inr, none≢some,
}
use netxy.Stack.{StackOps, IsStack}
use netxy.Heap.{HeapOps, IsHeap}
use netxy.TimeAction.{Node, key_of, Delay, due, TimerMgr, grow, put, take_id, add}
use netxy.TimeAction.Valid.{pending, IsValid, take_id-IsValid, grow-IsValid, put-IsValid}

module _ (s : StackOps ℕ) (h : HeapOps) (l : IsStack s) (o : IsHeap h) where
  put_lem :
      (m : TimerMgr s h) (id : ℕ) (node : Node)
      → IsValid s h l o m (some id)
      → (pending s h l o m id ≡ 0)
        × (pending s h l o (put s h m id node) id ≡ 1)
        × (get_elem? (put s h m id node).node_array id ≡ some node)
  unfolding put
  put_lem m id node v =
      let inside : id < length m.node_array = ground (arith, v.ids id, v.nodes) in
      let (old, here) = get_elem?-within m.node_array id inside in
      let free : pending s h l o m id ≡ 0 = ground (arith, v.ids id) in
      (
        free,
        ground (
          arith,
          free,
          o.insert_count (key_of (set m.node_array id node)) m.compositor_heap id id,
        ),
        get_elem?-set m.node_array id node here,
      )

  pending-grow :
      (got_heap got : Bool) (m : TimerMgr s h) (num id : ℕ)
      → pending s h l o (grow s h got_heap got m num) id ≡ pending s h l o m id
  unfolding grow
  pending-grow false got m num id = refl
  pending-grow true false m num id = ap (count id) (o.increase_items m.compositor_heap num)
  pending-grow true true m num id = ap (count id) (o.increase_items m.compositor_heap num)

  -- the manager when a callback is given: no id is free at first, and room is made
  grown : Bool → Bool → TimerMgr s h → TimerMgr s h
  grown got_heap got m =
      let rest = (take_id s h m).1 in grow s h got_heap got rest (2 * rest.node_num)

  grown-IsValid :
      (got_heap got : Bool) (m : TimerMgr s h)
      → IsValid s h l o m none
      → (take_id s h m).0 ≡ none
      → IsValid s h l o (grown got_heap got m) none
  unfolding grown
  grown-IsValid got_heap got m v e =
      grow-IsValid s h l o got_heap got (take_id s h m).1 (2 * (take_id s h m).1.node_num)
        (omega arith) (subst (IsValid s h l o (take_id s h m).1) e (take_id-IsValid s h l o m v))

  pub add-IsValid :
      (got_heap got : Bool) (now : ℕ) (m : TimerMgr s h) (callback : Option ℕ) (delay : Delay)
      (arg : ℕ)
      → IsValid s h l o m none
      → IsValid s h l o (add s h got_heap got now m callback delay arg).1 none
  unfolding add grown
  add-IsValid got_heap got now m none delay arg v = v
  add-IsValid got_heap got now m (some callback) delay arg v =
      let first = take_id-IsValid s h l o m v in
      elim (Option-cases (take_id s h m).0) [
        | inr (id, e) ↦
            rw (e, add)
              (put-IsValid s h l o (take_id s h m).1 id _
                (subst (IsValid s h l o (take_id s h m).1) e first))
        | inl e ↦
            let m2 = grown got_heap got m in
            let second = take_id-IsValid s h l o m2 (grown-IsValid got_heap got m v e) in
            elim (Option-cases (take_id s h m2).0) [
              | inl e2 ↦ rw (e, e2, add) (subst (IsValid s h l o (take_id s h m2).1) e2 second)
              | inr (id, e2) ↦
                  rw (e, e2, add)
                    (put-IsValid s h l o (take_id s h m2).1 id _
                      (subst (IsValid s h l o (take_id s h m2).1) e2 second))
            ]
      ]

  -- A timer that is added gets an id that was not pending, is pending once from then on, and has its
  -- time, its callback and its argument.
  add_lem :
      (got_heap got : Bool) (now : ℕ) (m : TimerMgr s h) (callback : ℕ) (delay : Delay) (arg id : ℕ)
      {after : TimerMgr s h}
      → IsValid s h l o m none
      → add s h got_heap got now m (some callback) delay arg ≡ (some id, after)
      → IsValid s h l o after none
        × (pending s h l o m id ≡ 0)
        × (pending s h l o after id ≡ 1)
        × (get_elem? after.node_array id
            ≡ some (record { left_time = due now delay; arg = arg; callback = some callback }))
  unfolding add grown take_id
  add_lem got_heap got now m callback delay arg id {after} v added =
      let node : Node = record { left_time = due now delay; arg = arg; callback = some callback } in
      let first = take_id-IsValid s h l o m v in
      elim (Option-cases (take_id s h m).0) [
        | inr (k, e) ↦
            put_added (take_id s h m).1 k node (λ j. refl)
              (subst (IsValid s h l o (take_id s h m).1) e first) (rw (e, add) at added)
        | inl e ↦
            let m2 = grown got_heap got m in
            let second = take_id-IsValid s h l o m2 (grown-IsValid got_heap got m v e) in
            elim (Option-cases (take_id s h m2).0) [
              | inl e2 ↦ absurd (none≢some (ap (λ t. t.0) (rw (e, e2, add) at added)))
              | inr (k, e2) ↦
                  put_added (take_id s h m2).1 k node
                    (pending-grow got_heap got (take_id s h m).1 (2 * (take_id s h m).1.node_num))
                    (subst (IsValid s h l o (take_id s h m2).1) e2 second)
                    (rw (e, e2, add) at added)
            ]
      ]
    where
      put_added :
          (p : TimerMgr s h) (k : ℕ) (node : Node)
          → ((j : ℕ) → pending s h l o p j ≡ pending s h l o m j)
          → IsValid s h l o p (some k)
          → ◌≡◌ {A = Option ℕ × TimerMgr s h} (some k, put s h p k node) (some id, after)
          → IsValid s h l o after none
            × (pending s h l o m id ≡ 0)
            × (pending s h l o after id ≡ 1)
            × (get_elem? after.node_array id ≡ some node)
      put_added p k node same v e =
          let (free, once, here) = put_lem p k node v in
          let k_id : k ≡ id = some-injective _ _ (ap (λ t. t.0) e) in
          let p_after : put s h p k node ≡ after = ap (λ t. t.1) e in
          rw (← k_id, ← p_after) (put-IsValid s h l o p k node v, sym (same k) ∙ free, once, here)
