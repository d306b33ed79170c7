-- ===== src/Timers/Cancel.antt =====
-- A timer that was cancelled is not called any more.
use netxy.Base.{
  ℕ, zero, suc, ◌+◌, ◌<◌, ◌≡◌, refl, sym, ap, ◌∙◌, true, false, some, List, [], ◌∷◌, arith, ltb,
  ◌==◌, length, get_elem?, get_elem?-snoc, get_elem?-set, get_elem?-set_other, get_elem?-within,
  get_elem?-inside, total, Option-cases, Bool-cases, inl, inr,
}
use mathlib.Core.Option.{some-injective}
use netxy.Heap.{HeapOps}
use netxy.Timers.{
  Timer, Op, add_op, cancel_op, key_of, TimerMgr, add_timer, cancel, perform, perform_all,
  near_end_ms, pop, clear, fire, schedule, Event, op_event, schedule_event, near_event, clear_event,
  step, run,
}
use netxy.Timers.Valid.{of_place}

module _ (h : HeapOps) (clock : ℕ → ℕ) (acts : ℕ → ℕ → List Op) (i k : ℕ) where
  -- The timer is there and not active, and it was called so often.
  record Quiet (m : TimerMgr h) : Type 0 where
    timer : Timer
    there : get_elem? m.timers i ≡ some timer
    off : timer.active ≡ false
    calls : total (of_place i) m.calls ≡ k

  perform-Quiet : (op : Op) (m : TimerMgr h) → Quiet m → Quiet (perform h clock op m)
  unfolding perform add_timer cancel
  perform-Quiet (add_op delay_ms callback) m q =
      let t : Timer = record {
        active = true;
        callback = callback;
        end_time = delay_ms + clock m.tick;
      } in
      let other : (i == length m.timers) ≡ false =
        ground (arith, get_elem?-inside m.timers i q.there) in
      record {
        timer = q.timer;
        there = get_elem?-snoc m.timers t i ∙ rw other q.there;
        off = q.off;
        calls = q.calls;
      }
  perform-Quiet (cancel_op j) m q = elim (Option-cases (get_elem? m.timers j)) [
    | inl e ↦ rw (e, perform, cancel) q
    | inr (t, e) ↦ elim (Bool-cases (i == j)) [
      | inl same ↦
          let at : i ≡ j = ground (arith, same) in
          rw (e, perform, cancel)
            (record {
              timer = record t { active = false };
              there = rw at (get_elem?-set m.timers j (record t { active = false }) e);
              off = refl;
              calls = q.calls;
            })
      | inr other ↦
          rw (e, perform, cancel)
            (record {
              timer = q.timer;
              there =
                  get_elem?-set_other m.timers j (record t { active = false }) i other ∙ q.there;
              off = q.off;
              calls = q.calls;
            })
    ]
  ]

  perform_all-Quiet : (ops : List Op) (m : TimerMgr h) → Quiet m → Quiet (perform_all h clock ops m)
  unfolding perform_all
  perform_all-Quiet [] m q = q
  perform_all-Quiet (op ∷ ops) m q = perform_all-Quiet ops _ (perform-Quiet op m q)

  -- `Quiet` reads the timers and the calls only.
  moved : (m n : TimerMgr h) → n.timers ≡ m.timers → n.calls ≡ m.calls → Quiet m → Quiet n
  moved m n e f q = record {
    timer = q.timer;
    there = ap (λ ts. get_elem? ts i) e ∙ q.there;
    off = q.off;
    calls = ap (total (of_place i)) f ∙ q.calls;
  }

  fire-Quiet : (j now : ℕ) (m : TimerMgr h) → Quiet m → Quiet (fire h clock acts j now m)
  unfolding fire
  fire-Quiet j now m q = elim (Option-cases (get_elem? m.timers j)) [
    | inl e ↦ rw (e, fire) q
    | inr (t, e) ↦ elim (Bool-cases t.active) [
      | inr off ↦ rw (e, off, fire) q
      | inl on ↦ elim (Bool-cases (i == j)) [
        | inl same ↦
            let at : i ≡ j = ground (arith, same) in
            let one : t ≡ q.timer = some-injective _ _ (sym e ∙ rw (← at) q.there) in
            let on_off : true ≡ false = sym on ∙ ap (λ x. x.active) one ∙ q.off in cc
        | inr other ↦
            rw (e, on, fire)
              (perform_all-Quiet (acts t.callback m.tick) _ (record {
                timer = q.timer;
                there = q.there;
                off = q.off;
                calls = ground (arith, other, q.calls);
              }))
      ]
    ]
  ]

  schedule-Quiet : (n : ℕ) (m : TimerMgr h) → Quiet m → Quiet (schedule h clock acts n m).1
  unfolding schedule pop
  schedule-Quiet zero m q = q
  schedule-Quiet (suc n) m q = elim (Option-cases (h.top m.queue)) [
    | inl e ↦ rw (e, schedule) q
    | inr (j, e) ↦ elim (Bool-cases (ltb (key_of m.timers j) (clock m.tick))) [
      | inl due ↦
          rw (e, due, schedule)
            (schedule-Quiet n _ (fire-Quiet j (clock m.tick) _ (moved m _ refl refl q)))
      | inr early ↦ rw (e, early, schedule) (moved m _ refl refl q)
    ]
  ]

  clear-Quiet : (n : ℕ) (m : TimerMgr h) → Quiet m → Quiet (clear h clock n m)
  unfolding clear pop
  clear-Quiet zero m q = q
  clear-Quiet (suc n) m q = elim (Option-cases (h.top m.queue)) [
    | inl e ↦ rw (e, clear) q
    | inr (j, e) ↦ rw (e, clear) (clear-Quiet n _ (moved m _ refl refl q))
  ]

  near_end_ms-Quiet : (m : TimerMgr h) → Quiet m → Quiet (near_end_ms h clock m).1
  unfolding near_end_ms
  near_end_ms-Quiet m q = elim (Option-cases (h.top m.queue)) [
    | inl e ↦ rw (e, near_end_ms) q
    | inr (j, e) ↦ rw (e, near_end_ms) (moved m _ refl refl q)
  ]

  step-Quiet : (e : Event) (m : TimerMgr h) → Quiet m → Quiet (step h clock acts e m)
  unfolding step
  step-Quiet (op_event op) m q = perform-Quiet op m q
  step-Quiet (schedule_event n) m q = schedule-Quiet n m q
  step-Quiet near_event m q = near_end_ms-Quiet m q
  step-Quiet (clear_event n) m q = clear-Quiet n m q

  run-Quiet : (es : List Event) (m : TimerMgr h) → Quiet m → Quiet (run h clock acts es m)
  unfolding run
  run-Quiet [] m q = q
  run-Quiet (e ∷ es) m q = run-Quiet es _ (step-Quiet e m q)

  cancel-Quiet :
      (m : TimerMgr h)
      → i < length m.timers
      → total (of_place i) m.calls ≡ k
      → Quiet (cancel h clock i m)
  unfolding cancel
  cancel-Quiet m there calls =
      let (t, e) = get_elem?-within m.timers i there in
      rw (e, cancel)
        (record {
          timer = record t { active = false };
          there = get_elem?-set m.timers i (record t { active = false }) e;
          off = refl;
          calls = calls;
        })

module _ (h : HeapOps) (clock : ℕ → ℕ) (acts : ℕ → ℕ → List Op) where
  -- A timer that was made and is cancelled was called as often as it will ever be, whatever is done after.
  pub run-cancel :
      (i : ℕ) (es : List Event) (m : TimerMgr h)
      → i < length m.timers
      → total (of_place i) (run h clock acts es (cancel h clock i m)).calls
        ≡ total (of_place i) m.calls
  run-cancel i es m there =
      (run-Quiet h clock acts i (total (of_place i) m.calls) es _
        (cancel-Quiet h clock acts i (total (of_place i) m.calls) m there refl)).calls
