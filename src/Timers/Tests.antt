-- ===== src/Timers/Tests.antt =====
-- Timers over a sorted list. The callback 7 adds a timer that is due 5 later, and cancels the timer 1.
use netxy.Base.{
  ℕ, suc, ◌+◌, ◌≤◌, ◌≡◌, refl, true, List, [], ◌∷◌, arith, ◌==◌, total, if◌then◌else◌, map,
}
use netxy.Heap.Model.{list_heap, list_heap_laws}
use netxy.Timers.{
  Op, add_op, cancel_op, TimerMgr, new, add_timer, cancel, perform, perform_all, near_end_ms, pop,
  clear, fire, schedule, Event, op_event, schedule_event, near_event, clear_event, step, run,
}
use netxy.Timers.Valid.{Inv, Falling, pending, called, of_place, new-Inv, add_timer-Inv}
use netxy.Timers.Order.{run-new-Falling}
use netxy.Timers.Cancel.{run-cancel}
use netxy.Timers.Rounds.{due, schedule_ends}

-- A clock that goes on once.
abbrev clock : ℕ → ℕ
clock k = if k == 0 then 100 else 105

rises : (k : ℕ) → clock k ≤ clock (suc k)
rises k = ground arith

abbrev acts : ℕ → ℕ → List Op
acts callback tick = if callback == 7 then add_op 5 8 ∷ cancel_op 1 ∷ [] else []

abbrev some_events : List Event
some_events =
    op_event (add_op 0 7)
    ∷ op_event (add_op 3 9)
    ∷ schedule_event 3
    ∷ near_event
    ∷ clear_event 4
    ∷ []

-- The timer 1 is cancelled, and the timer 2 is not due.
called_first :
    map (λ c. c.place) (run list_heap clock acts some_events (new list_heap clock)).calls ≡ 0 ∷ []
unfolding run step new add_timer cancel perform perform_all near_end_ms pop clear fire schedule
called_first = refl

run-new-Falling_example :
    Falling (run list_heap clock acts some_events (new list_heap clock)).calls
    × ((i : ℕ)
        → pending list_heap list_heap_laws clock
              (run list_heap clock acts some_events (new list_heap clock))
              i
            + called list_heap list_heap_laws clock
                (run list_heap clock acts some_events (new list_heap clock))
                i
          ≤ 1)
run-new-Falling_example = run-new-Falling list_heap list_heap_laws clock acts rises some_events

-- one timer, whose time is 100
abbrev one : TimerMgr list_heap
unfolding add_timer new
one = add_timer list_heap clock 0 7 (new list_heap clock)

one-Inv : Inv list_heap list_heap_laws clock one
unfolding add_timer new
one-Inv =
    add_timer-Inv list_heap list_heap_laws clock rises 0 7 _
      (new-Inv list_heap list_heap_laws clock)

stands : (k : ℕ) → 1 ≤ k → clock k ≡ 105
stands k b = ground arith

run-cancel_example :
    total (of_place 0) (run list_heap clock acts some_events (cancel list_heap clock 0 one)).calls
    ≡ total (of_place 0) one.calls
unfolding add_timer new
run-cancel_example = run-cancel list_heap clock acts 0 some_events one (omega arith)

schedule_ends_example :
    ((schedule list_heap clock acts 2 one).0 ≡ true)
    × (due list_heap list_heap_laws clock 105 (schedule list_heap clock acts 2 one).1 ≡ 0)
unfolding add_timer new
schedule_ends_example =
    schedule_ends list_heap list_heap_laws clock 105 acts rises 2 one one-Inv stands (omega arith)

-- The clock stands at 105 then.
one_late : (near_end_ms list_heap clock one).0 ≡ 0
unfolding near_end_ms add_timer new
one_late = refl
