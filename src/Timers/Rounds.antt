-- ===== src/Timers/Rounds.antt =====
-- The loop of `schedule` ends, and what `nearEndMs` and `clear` give.
use netxy.Base.{
  ℕ, zero, suc, ◌+◌, ◌-◌, ◌≤◌, ◌<◌, ◌≡◌, ◌⊎◌, refl, ap, ◌∙◌, true, false, some, List, [], ◌∷◌, ◌++◌,
  arith, ltb, ◌==◌, length, length-append, length-set, nil_of_length, get_elem?, set, count,
  if◌then◌else◌, Option-cases, Bool-cases, inl, inr,
}
use netxy.Heap.{HeapOps, IsHeap}
use netxy.Timers.{
  Timer, Op, add_op, cancel_op, key_of, TimerMgr, add_timer, cancel, perform, perform_all, is_empty,
  near_end_ms, pop, clear, fire, schedule,
}
use netxy.Timers.Valid.{Inv, pending, key_of-snoc, key_of-cancel}
use netxy.Timers.Order.{fire-Inv}

abbrev pub sum_below : ℕ → (ℕ → ℕ) → ℕ
sum_below zero f = 0
sum_below (suc n) f = f n + sum_below n f

sum_below-eq : (n : ℕ) (f g : ℕ → ℕ) → ((i : ℕ) → i < n → f i ≡ g i) → sum_below n f ≡ sum_below n g
sum_below-eq zero f g e = refl
sum_below-eq (suc n) f g e =
    omega (arith, e n (omega arith), sum_below-eq n f g (λ i b. e i (omega arith)))

sum_below-less :
    (n : ℕ) (f g : ℕ → ℕ) (k : ℕ)
    → ((i : ℕ) → f i ≡ g i + (if i == k then 1 else 0))
    → sum_below n f ≡ sum_below n g + (if ltb k n then 1 else 0)
sum_below-less zero f g k e = ground arith
sum_below-less (suc n) f g k e = ground (arith, e n, sum_below-less n f g k e)

sum_below-zero : (n : ℕ) (f : ℕ → ℕ) → ((i : ℕ) → f i ≡ 0) → sum_below n f ≡ 0
sum_below-zero zero f e = refl
sum_below-zero (suc n) f e = omega (arith, e n, sum_below-zero n f e)

module _ (h : HeapOps) (o : IsHeap h) (clock : ℕ → ℕ) (now : ℕ) where
  abbrev pub is_due : TimerMgr h → ℕ → ℕ
  is_due m i = if ltb (key_of m.timers i) now then pending h o clock m i else 0

  -- the timers in the queue whose time was past at `now`
  abbrev pub due : TimerMgr h → ℕ
  due m = sum_below (length m.timers) (is_due m)

  perform-due : (op : Op) (m : TimerMgr h) → clock m.tick ≡ now → due (perform h clock op m) ≡ due m
  unfolding perform add_timer cancel
  perform-due (add_op delay_ms callback) m at =
      let t : Timer = record {
        active = true;
        callback = callback;
        end_time = delay_ms + clock m.tick;
      } in
      let n = length m.timers in
      let after = perform h clock (add_op delay_ms callback) m in
      let counts = λ (i : ℕ). o.insert_count (key_of (m.timers ++ t ∷ [])) m.queue n i in
      let keys = key_of-snoc m.timers t in
      let size : length (m.timers ++ t ∷ []) ≡ suc n =
        omega (arith, length-append m.timers (t ∷ [])) in
      let last : is_due after n ≡ 0 = ground (arith, keys n, at) in
      ap (λ k. sum_below k (is_due after)) size
      ∙ omega (
        arith,
        last,
        sum_below-eq n (is_due after) (is_due m) (λ i b. ground (arith, keys i, counts i, b)),
      )
  perform-due (cancel_op j) m at = elim (Option-cases (get_elem? m.timers j)) [
    | inl e ↦ rw (e, perform, cancel) refl
    | inr (t, e) ↦
        let off = record t { active = false } in
        rw (e, perform, cancel)
          (ap (λ k. sum_below k (is_due (record m { timers = set m.timers j off })))
              (length-set m.timers j off)
            ∙ sum_below-eq (length m.timers) _ (is_due m) (λ i b.
              ap (λ k. if ltb k now then pending h o clock m i else 0)
                (key_of-cancel m.timers j i e)))
  ]

  perform-tick : (op : Op) (m : TimerMgr h) → m.tick ≤ (perform h clock op m).tick
  unfolding perform add_timer cancel
  perform-tick (add_op delay_ms callback) m = omega arith
  perform-tick (cancel_op j) m = elim (Option-cases (get_elem? m.timers j)) [
    | inl e ↦ rw (e, perform, cancel) (omega arith)
    | inr (t, e) ↦ rw (e, perform, cancel) (omega arith)
  ]

  perform_all-due :
      (ops : List Op) (m : TimerMgr h)
      → ((k : ℕ) → m.tick ≤ k → clock k ≡ now)
      → (due (perform_all h clock ops m) ≡ due m) × (m.tick ≤ (perform_all h clock ops m).tick)
  unfolding perform_all
  perform_all-due [] m still = (refl, omega arith)
  perform_all-due (op ∷ ops) m still =
      let t = perform-tick op m in
      let rest =
        perform_all-due ops (perform h clock op m) (λ k b. still k (omega (arith, b, t))) in
      (rest.0 ∙ perform-due op m (still m.tick (omega arith)), omega (arith, rest.1, t))

  module _ (acts : ℕ → ℕ → List Op) where
    fire-due :
        (i at : ℕ) (m : TimerMgr h)
        → ((k : ℕ) → m.tick ≤ k → clock k ≡ now)
        → (due (fire h clock acts i at m) ≡ due m) × (m.tick ≤ (fire h clock acts i at m).tick)
    unfolding fire
    fire-due i at m still = elim (Option-cases (get_elem? m.timers i)) [
      | inl e ↦ rw (e, fire) (refl, omega arith)
      | inr (t, e) ↦ elim (Bool-cases t.active) [
        | inr off ↦ rw (e, off, fire) (refl, omega arith)
        | inl on ↦ rw (e, on, fire) (perform_all-due (acts t.callback m.tick) _ still)
      ]
    ]

    pop-due :
        (i : ℕ) (m : TimerMgr h)
        → h.top m.queue ≡ some i
        → ltb (key_of m.timers i) now ≡ true
        → Inv h o clock m
        → due m ≡ due (pop h clock m) + 1
    unfolding pop
    pop-due i m top late v =
        let counts = λ (j : ℕ). o.pop_count (key_of m.timers) m.queue i j top in
        let inside : i < length m.timers = ground (arith, counts i, v.known i) in
        let less =
          sum_below-less (length m.timers) (is_due m) (is_due (pop h clock m)) i
            (λ j. drop_one j (counts j)) in
        ground (arith, less, inside)
      where
        drop_one :
            (j : ℕ)
            → count j (o.items m.queue)
              ≡ count j (o.items (h.pop (key_of m.timers) m.queue)) + (if j == i then 1 else 0)
            → is_due m j ≡ is_due (pop h clock m) j + (if j == i then 1 else 0)
        drop_one j e = elim (Bool-cases (j == i)) [
          | inl same ↦
              let at : j ≡ i = ground (arith, same) in
              ground (arith, e, same, ap (key_of m.timers) at, late)
          | inr other ↦ ground (arith, e, other)
        ]

    -- The loop ends, and what is then in the queue is not before now.
    schedule_left :
        ((k : ℕ) → clock k ≤ clock (suc k))
        → (n : ℕ) (m : TimerMgr h) → Inv h o clock m
        → ((k : ℕ) → m.tick ≤ k → clock k ≡ now)
        → due m < n
        → ((schedule h clock acts n m).0 ≡ true)
          × ((j : ℕ)
              → 0 < pending h o clock (schedule h clock acts n m).1 j
              → now ≤ key_of (schedule h clock acts n m).1.timers j)
    unfolding schedule
    schedule_left rises zero m v still less = absurd (omega arith)
    schedule_left rises (suc n) m v still less = elim (Option-cases (h.top m.queue)) [
      | inl e ↦
          rw (e, schedule)
            (refl, λ j p. absurd (omega (arith, p, ap (count j) (o.top_none m.queue e))))
      | inr (i, e) ↦ elim (Bool-cases (ltb (key_of m.timers i) (clock m.tick))) [
        | inr early ↦
            rw (e, early, schedule)
              (
                refl,
                λ j p. ground (
                  arith,
                  early,
                  still m.tick (omega arith),
                  o.top_least (key_of m.timers) m.queue i j v.ordered e p,
                ),
              )
        | inl late ↦
            let at = still m.tick (omega arith) in
            let popped : TimerMgr h = record (pop h clock m) { tick = suc m.tick } in
            let fired = fire-due i (clock m.tick) popped (λ k b. still k (omega (arith, b))) in
            let one = pop-due i m e (ground (arith, late, at)) v in
            rw (e, late, schedule)
              (schedule_left rises n (fire h clock acts i (clock m.tick) popped)
                (fire-Inv h o clock acts rises i m e late v)
                (λ k b. still k (omega (arith, b, fired.1))) (omega (arith, less, one, fired.0)))
      ]
    ]

    none_due :
        (m : TimerMgr h)
        → ((j : ℕ) → 0 < pending h o clock m j → now ≤ key_of m.timers j)
        → due m ≡ 0
    none_due m e = sum_below-zero (length m.timers) (is_due m) (λ j. ground (arith, e j))

    -- While the clock stands still, the schedule comes to its end within one round more than there are
    -- timers whose time is past, whatever the callbacks add or cancel, and then no timer in the queue has a
    -- time before now.
    pub schedule_ends :
        ((k : ℕ) → clock k ≤ clock (suc k))
        → (n : ℕ) (m : TimerMgr h) → Inv h o clock m
        → ((k : ℕ) → m.tick ≤ k → clock k ≡ now)
        → due m < n
        → ((schedule h clock acts n m).0 ≡ true) × (due (schedule h clock acts n m).1 ≡ 0)
    schedule_ends rises n m v still less =
        let (ends, left) = schedule_left rises n m v still less in
        (ends, none_due (schedule h clock acts n m).1 left)

module _ (h : HeapOps) (o : IsHeap h) (clock : ℕ → ℕ) where
  -- `nearEndMs` gives the time until the earliest timer in the queue, 0 if that is past; and 0 if there is
  -- none, which is when `isEmpty` says so.
  pub near_end_ms-is_empty :
      (m : TimerMgr h)
      → Inv h o clock m
      → ((is_empty h clock m ≡ true)
          × ((near_end_ms h clock m).0 ≡ 0)
          × ((j : ℕ) → pending h o clock m j ≡ 0))
        ⊎ ((is_empty h clock m ≡ false)
            × ((i : ℕ) × (0 < pending h o clock m i)
                × ((near_end_ms h clock m).0 ≡ key_of m.timers i - clock m.tick)
                × ((j : ℕ) → 0 < pending h o clock m j → key_of m.timers i ≤ key_of m.timers j)))
  unfolding is_empty near_end_ms
  near_end_ms-is_empty m v = elim (Option-cases (h.top m.queue)) [
    | inl e ↦
        inl (
          rw (e, is_empty) refl,
          rw (e, near_end_ms) refl,
          λ j. ap (count j) (o.top_none m.queue e),
        )
    | inr (i, e) ↦ inr (
      rw (e, is_empty) refl,
      (
        i,
        ground (arith, o.pop_count (key_of m.timers) m.queue i i e),
        rw (e, near_end_ms) refl,
        λ j p. o.top_least (key_of m.timers) m.queue i j v.ordered e p,
      ),
    )
  ]

  -- With as many rounds as there are timers in the queue, `clear` empties it.
  clear_lem :
      (n : ℕ) (m : TimerMgr h)
      → length (o.items m.queue) ≤ n
      → o.items (clear h clock n m).queue ≡ []
  unfolding clear pop
  clear_lem zero m b = nil_of_length _ (omega (arith, b))
  clear_lem (suc n) m b = elim (Option-cases (h.top m.queue)) [
    | inl e ↦ rw (e, clear) (o.top_none m.queue e)
    | inr (i, e) ↦
        rw (e, clear)
          (clear_lem n (pop h clock m)
            (omega (arith, b, o.pop_length (key_of m.timers) m.queue i e)))
  ]
