-- ===== src/Timers/Order.antt =====
-- The order of the calls, whatever the callbacks and the owner of the timers do.
use netxy.Base.{
  ℕ, zero, suc, ◌+◌, ◌≤◌, ◌<◌, ◌≡◌, ap, true, some, List, [], ◌∷◌, arith, ltb, get_elem?,
  Option-cases, Bool-cases, inl, inr,
}
use netxy.Heap.{HeapOps, IsHeap}
use netxy.Timers.{
  Op, get_end_ms, key_of, TimerMgr, new, near_end_ms, pop, clear, fire, schedule, Event, op_event,
  schedule_event, near_event, clear_event, step, run,
}
use netxy.Timers.Valid.{
  Inv, Falling, pending, called, new-Inv, tick-Inv, perform-Inv, perform_all-Inv, pop-Inv,
}

module _ (h : HeapOps) (o : IsHeap h) (clock : ℕ → ℕ) (acts : ℕ → ℕ → List Op)
    (rises : (k : ℕ) → clock k ≤ clock (suc k)) where
  pub fire-Inv :
      (i : ℕ) (m : TimerMgr h)
      → h.top m.queue ≡ some i
      → ltb (key_of m.timers i) (clock m.tick) ≡ true
      → Inv h o clock m
      → Inv h o clock
          (fire h clock acts i (clock m.tick) (record (pop h clock m) { tick = suc m.tick }))
  unfolding fire pop
  fire-Inv i m top due v =
      let popped : TimerMgr h = record (pop h clock m) { tick = suc m.tick } in
      let w : Inv h o clock popped =
        tick-Inv h o clock rises (pop h clock m) (pop-Inv h o clock rises i m top v) in
      elim (Option-cases (get_elem? m.timers i)) [
        | inl e ↦ rw (e, fire) w
        | inr (t, e) ↦ elim (Bool-cases t.active) [
          | inr off ↦ rw (e, off, fire) w
          | inl on ↦
              let key : key_of m.timers i ≡ t.end_time = ap get_end_ms e in
              let counts = λ (j : ℕ). o.pop_count (key_of m.timers) m.queue i j top in
              let here : 0 < pending h o clock m i = ground (arith, counts i) in
              rw (e, on, fire)
                (perform_all-Inv h o clock rises (acts t.callback (suc m.tick)) _ (record {
                  ordered = w.ordered;
                  known = λ j b. ground (arith, counts j, v.known j b, b);
                  once = λ j. ground (arith, counts j, v.once j);
                  later = λ j p. omega (
                    arith,
                    key,
                    counts j,
                    o.top_least (key_of m.timers) m.queue i j v.ordered top
                        (omega (arith, counts j, p)),
                  );
                  past = ground (arith, due, key, rises m.tick);
                  falling =
                      (omega (arith, key, v.later i here), ground (arith, due, key), v.falling);
                }))
        ]
      ]

  pub schedule-Inv :
      (n : ℕ) (m : TimerMgr h) → Inv h o clock m → Inv h o clock (schedule h clock acts n m).1
  unfolding schedule
  schedule-Inv zero m v = v
  schedule-Inv (suc n) m v = elim (Option-cases (h.top m.queue)) [
    | inl e ↦ rw (e, schedule) v
    | inr (i, e) ↦ elim (Bool-cases (ltb (key_of m.timers i) (clock m.tick))) [
      | inl due ↦ rw (e, due, schedule) (schedule-Inv n _ (fire-Inv i m e due v))
      | inr early ↦ rw (e, early, schedule) (tick-Inv h o clock rises m v)
    ]
  ]

  clear-Inv : (n : ℕ) (m : TimerMgr h) → Inv h o clock m → Inv h o clock (clear h clock n m)
  unfolding clear
  clear-Inv zero m v = v
  clear-Inv (suc n) m v = elim (Option-cases (h.top m.queue)) [
    | inl e ↦ rw (e, clear) v
    | inr (i, e) ↦ rw (e, clear) (clear-Inv n _ (pop-Inv h o clock rises i m e v))
  ]

  near_end_ms-Inv : (m : TimerMgr h) → Inv h o clock m → Inv h o clock (near_end_ms h clock m).1
  unfolding near_end_ms
  near_end_ms-Inv m v = elim (Option-cases (h.top m.queue)) [
    | inl e ↦ rw (e, near_end_ms) v
    | inr (i, e) ↦ rw (e, near_end_ms) (tick-Inv h o clock rises m v)
  ]

  step-Inv : (e : Event) (m : TimerMgr h) → Inv h o clock m → Inv h o clock (step h clock acts e m)
  unfolding step
  step-Inv (op_event op) m v = perform-Inv h o clock rises op m v
  step-Inv (schedule_event n) m v = schedule-Inv n m v
  step-Inv near_event m v = near_end_ms-Inv m v
  step-Inv (clear_event n) m v = clear-Inv n m v

  pub run-Inv :
      (es : List Event) (m : TimerMgr h) → Inv h o clock m → Inv h o clock (run h clock acts es m)
  unfolding run
  run-Inv [] m v = v
  run-Inv (e ∷ es) m v = run-Inv es _ (step-Inv e m v)

  -- However timers are added and cancelled, by callbacks too, and whenever the schedule runs, with a clock
  -- that never goes back: the timers are called in the order of their times, each when its time was past,
  -- and none is called twice, or called and still pending.
  pub run-new-Falling :
      (es : List Event)
      → Falling (run h clock acts es (new h clock)).calls
        × ((i : ℕ)
            → pending h o clock (run h clock acts es (new h clock)) i
                + called h o clock (run h clock acts es (new h clock)) i
              ≤ 1)
  run-new-Falling es = let v = run-Inv es (new h clock) (new-Inv h o clock) in (v.falling, v.once)
