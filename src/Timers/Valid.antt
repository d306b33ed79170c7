-- ===== src/Timers/Valid.antt =====
-- What the queue and the calls say of each other, and that the clients' operations keep it.
use netxy.Base.{
  ℕ, suc, ◌+◌, ◌≤◌, ◌<◌, ◌≡◌, refl, sym, ap, ◌∙◌, Bool, true, false, some, List, [], ◌∷◌, ◌++◌,
  arith, ◌==◌, length, length-append, length-set, get_elem?, get_elem?-snoc, get_elem?-set,
  get_elem?-set_other, set, count, total, if◌then◌else◌, Option-cases, Bool-cases, inl, inr,
}
use netxy.Heap.{HeapOps, IsHeap}
use netxy.Timers.{
  Timer, Call, Op, add_op, cancel_op, get_end_ms, key_of, TimerMgr, new, add_timer, cancel, perform,
  perform_all, pop,
}

-- is a call that of a timer?
abbrev pub of_place : ℕ → Call → ℕ
of_place i c = if i == c.place then 1 else 0

-- the time of the last call's timer
abbrev pub newest : List Call → ℕ
newest [] = 0
newest (c ∷ cs) = c.end_time

-- From the last call back, the timers' times fall, and each was past when the timer was called.
abbrev pub Falling : List Call → Type 0
Falling [] = Unit
Falling (c ∷ cs) = (newest cs ≤ c.end_time) × (c.end_time < c.at) × Falling cs

pub key_of-snoc :
    (ts : List Timer) (t : Timer) (j : ℕ)
    → key_of (ts ++ t ∷ []) j ≡ (if j == length ts then t.end_time else key_of ts j)
key_of-snoc ts t j = ap get_end_ms (get_elem?-snoc ts t j) ∙ inside (j == length ts)
  where
    inside :
        (b : Bool)
        → get_end_ms (if b then some t else get_elem? ts j)
          ≡ (if b then t.end_time else key_of ts j)
    inside true = refl
    inside false = refl

pub key_of-cancel :
    (ts : List Timer) (i j : ℕ) {t : Timer}
    → get_elem? ts i ≡ some t
    → key_of (set ts i (record t { active = false })) j ≡ key_of ts j
key_of-cancel ts i j {t} e = elim (Bool-cases (j == i)) [
  | inl same ↦
      let at : j ≡ i = ground (arith, same) in
      rw at
        (ap get_end_ms (get_elem?-set ts i (record t { active = false }) e) ∙ sym (ap get_end_ms e))
  | inr other ↦ ap get_end_ms (get_elem?-set_other ts i (record t { active = false }) j other)
]

module _ (h : HeapOps) (o : IsHeap h) (clock : ℕ → ℕ) where
  -- how often a timer is in the queue, and how often it was called
  abbrev pub pending : TimerMgr h → ℕ → ℕ
  pending m i = count i (o.items m.queue)

  abbrev pub called : TimerMgr h → ℕ → ℕ
  called m i = total (of_place i) m.calls

  pub record Inv (m : TimerMgr h) : Type 0 where
    pub ordered : o.Ordered (key_of m.timers) m.queue
    pub known : (i : ℕ) → length m.timers ≤ i → pending m i + called m i ≡ 0
    pub once : (i : ℕ) → pending m i + called m i ≤ 1
    pub later : (i : ℕ) → 0 < pending m i → newest m.calls ≤ key_of m.timers i
    pub past : newest m.calls ≤ clock m.tick
    pub falling : Falling m.calls

  pub new-Inv : Inv (new h clock)
  unfolding new
  new-Inv = record {
    ordered = o.create_ordered _ 0;
    known = λ i b. omega (arith, ap (count i) (o.create_items 0));
    once = λ i. omega (arith, ap (count i) (o.create_items 0));
    later = λ i p. omega arith;
    past = omega arith;
    falling = tt;
  }

  module _ (rises : (k : ℕ) → clock k ≤ clock (suc k)) where
    pub tick-Inv : (m : TimerMgr h) → Inv m → Inv (record m { tick = suc m.tick })
    tick-Inv m v = record {
      ordered = v.ordered;
      known = v.known;
      once = v.once;
      later = v.later;
      past = omega (arith, v.past, rises m.tick);
      falling = v.falling;
    }

    pub add_timer-Inv :
        (delay_ms callback : ℕ) (m : TimerMgr h)
        → Inv m
        → Inv (add_timer h clock delay_ms callback m)
    unfolding add_timer
    add_timer-Inv delay_ms callback m v =
        let t : Timer = record {
          active = true;
          callback = callback;
          end_time = delay_ms + clock m.tick;
        } in
        let n = length m.timers in
        let keys = key_of-snoc m.timers t in
        let counts = λ (i : ℕ). o.insert_count (key_of (m.timers ++ t ∷ [])) m.queue n i in
        record {
          ordered = o.insert_ordered _ m.queue n (
              o.same_keys (key_of m.timers) _ m.queue (λ j p. ground (arith, keys j, p, v.known j))
                v.ordered);
          known = λ i b. ground (arith, counts i, v.known i, length-append m.timers (t ∷ []), b);
          once = λ i. ground (arith, counts i, v.known i, v.once i);
          later = λ i p. ground (arith, keys i, counts i, v.later i, v.past, p);
          past = omega (arith, v.past, rises m.tick);
          falling = v.falling;
        }

    pub cancel-Inv : (i : ℕ) (m : TimerMgr h) → Inv m → Inv (cancel h clock i m)
    unfolding cancel
    cancel-Inv i m v = elim (Option-cases (get_elem? m.timers i)) [
      | inl e ↦ rw (e, cancel) v
      | inr (t, e) ↦
          let keys = λ (j : ℕ). key_of-cancel m.timers i j e in
          rw (e, cancel)
            (record {
              ordered = o.same_keys (key_of m.timers) _ m.queue (λ j p. sym (keys j)) v.ordered;
              known = λ j b.
                  v.known j (omega (arith, b, length-set m.timers i (record t { active = false })));
              once = v.once;
              later = λ j p. omega (arith, keys j, v.later j p);
              past = v.past;
              falling = v.falling;
            })
    ]

    pub perform-Inv : (op : Op) (m : TimerMgr h) → Inv m → Inv (perform h clock op m)
    unfolding perform
    perform-Inv (add_op delay_ms callback) m v = add_timer-Inv delay_ms callback m v
    perform-Inv (cancel_op i) m v = cancel-Inv i m v

    pub perform_all-Inv : (ops : List Op) (m : TimerMgr h) → Inv m → Inv (perform_all h clock ops m)
    unfolding perform_all
    perform_all-Inv [] m v = v
    perform_all-Inv (op ∷ ops) m v = perform_all-Inv ops _ (perform-Inv op m v)

    pub pop-Inv : (i : ℕ) (m : TimerMgr h) → h.top m.queue ≡ some i → Inv m → Inv (pop h clock m)
    unfolding pop
    pop-Inv i m e v =
        let counts = λ (j : ℕ). o.pop_count (key_of m.timers) m.queue i j e in
        record {
          ordered = o.pop_ordered _ m.queue v.ordered;
          known = λ j b. omega (arith, counts j, v.known j b);
          once = λ j. omega (arith, counts j, v.once j);
          later = λ j p. v.later j (omega (arith, counts j, p));
          past = v.past;
          falling = v.falling;
        }
