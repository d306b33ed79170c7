-- ===== src/Timers.antt =====
-- src/timer/Timer.cpp and src/timer/Timer.h: `TimerMgr`, the timers of one event loop. The standard
-- library's priority_queue of pointers to timers is a `HeapOps` of their places in `timers`, the list of all
-- that were made. The clock gives a value for each reading. What a callback does, to add timers and to
-- cancel some, is a parameter.
pub mod Valid
pub mod Order
pub mod Cancel
pub mod Rounds
mod Tests
use netxy.Base.{
  ℕ, zero, suc, ◌+◌, ◌-◌, Bool, true, false, Option, none, some, List, [], ◌∷◌, ◌++◌, ltb, length,
  get_elem?, set, if◌then◌else◌,
}
use netxy.Heap.{HeapOps}

-- `Timer`, with a number for its callback
pub record Timer : Type 0 where
  pub active : Bool
  pub callback : ℕ
  pub end_time : ℕ

-- A call of a callback: which timer, its time, and the reading of the clock before it.
pub record Call : Type 0 where
  pub place : ℕ
  pub end_time : ℕ
  pub at : ℕ

-- What a client or a callback does: `addTimer`, with the delay and the callback, or `cancel`.
pub data Op : Type 0 where
  add_op : ℕ → ℕ → Op
  cancel_op : ℕ → Op

-- What the owner of the timers does
pub data Event : Type 0 where
  op_event : Op → Event
  schedule_event : ℕ → Event
  near_event : Event
  clear_event : ℕ → Event

-- `getEndMs`
abbrev pub get_end_ms : Option Timer → ℕ
get_end_ms none = 0
get_end_ms (some t) = t.end_time

abbrev pub key_of : List Timer → ℕ → ℕ
key_of timers i = get_end_ms (get_elem? timers i)

-- `calls` records the calls, the last one first, and `tick` counts the readings of the clock.
pub record TimerMgr (h : HeapOps) : Type 0 where
  pub timers : List Timer
  pub queue : h.Carrier
  pub tick : ℕ
  pub calls : List Call

module _ (h : HeapOps) (clock : ℕ → ℕ) where
  unfoldable pub new : TimerMgr h
  new = record { timers = []; queue = h.create 0; tick = 0; calls = [] }

  -- `addTimer`
  unfoldable pub add_timer : ℕ → ℕ → TimerMgr h → TimerMgr h
  add_timer delay_ms callback m =
      let timers =
        m.timers
        ++ record { active = true; callback = callback; end_time = delay_ms + clock m.tick } ∷ [] in
      record m {
        timers = timers;
        queue = h.insert (key_of timers) m.queue (length m.timers);
        tick = suc m.tick;
      }

  -- `cancel`
  unfoldable pub cancel : ℕ → TimerMgr h → TimerMgr h
  cancel i m = elim (get_elem? m.timers i) [
    | none ↦ m
    | some t ↦ record m { timers = set m.timers i (record t { active = false }) }
  ]

  unfoldable pub perform : Op → TimerMgr h → TimerMgr h
  perform (add_op delay_ms callback) m = add_timer delay_ms callback m
  perform (cancel_op i) m = cancel i m

  unfoldable pub perform_all : List Op → TimerMgr h → TimerMgr h
  perform_all [] m = m
  perform_all (o ∷ os) m = perform_all os (perform o m)

  -- `isEmpty`
  unfoldable pub is_empty : TimerMgr h → Bool
  is_empty m = elim (h.top m.queue) [ none ↦ true | some i ↦ false ]

  -- `nearEndMs`
  unfoldable pub near_end_ms : TimerMgr h → ℕ × TimerMgr h
  near_end_ms m = elim (h.top m.queue) [
    | none ↦ (0, m)
    | some i ↦ (key_of m.timers i - clock m.tick, record m { tick = suc m.tick })
  ]

  unfoldable pub pop : TimerMgr h → TimerMgr h
  pop m = record m { queue = h.pop (key_of m.timers) m.queue }

  -- `clear`, or the first rounds of its loop
  unfoldable pub clear : ℕ → TimerMgr h → TimerMgr h
  clear zero m = m
  clear (suc n) m = elim (h.top m.queue) [ none ↦ m | some i ↦ clear n (pop m) ]

  module _ (acts : ℕ → ℕ → List Op) where
    -- `operator ()` of the timer at a place, with the reading of the clock that `schedule` took before
    unfoldable pub fire : ℕ → ℕ → TimerMgr h → TimerMgr h
    fire i now m = elim (get_elem? m.timers i) [
      | none ↦ m
      | some t ↦
          if t.active
          then perform_all (acts t.callback m.tick)
              (record m { calls = record { place = i; end_time = t.end_time; at = now } ∷ m.calls })
          else m
    ]

    -- `schedule`, or the first rounds of its loop, and whether the loop came to its end
    unfoldable pub schedule : ℕ → TimerMgr h → Bool × TimerMgr h
    schedule zero m = (false, m)
    schedule (suc n) m = elim (h.top m.queue) [
      | none ↦ (true, m)
      | some i ↦ elim (ltb (key_of m.timers i) (clock m.tick)) [
        | true ↦ schedule n (fire i (clock m.tick) (record (pop m) { tick = suc m.tick }))
        | false ↦ (true, record m { tick = suc m.tick })
      ]
    ]

    unfoldable pub step : Event → TimerMgr h → TimerMgr h
    step (op_event o) m = perform o m
    step (schedule_event n) m = (schedule n m).1
    step near_event m = (near_end_ms m).1
    step (clear_event n) m = clear n m

    unfoldable pub run : List Event → TimerMgr h → TimerMgr h
    run [] m = m
    run (e ∷ es) m = run es (step e m)
