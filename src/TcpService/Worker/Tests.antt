-- ===== src/TcpService/Worker/Tests.antt =====
-- One timer, over a sorted list.
use netxy.Base.{ℕ, suc, ◌+◌, ◌-◌, ◌≤◌, ◌<◌, ◌≡◌, refl, List, [], ◌∷◌, arith}
use netxy.Heap.Model.{list_heap, list_heap_laws}
use netxy.Timers.{
  Op, add_op, key_of, new, add_timer, perform, is_empty, near_end_ms, Event, op_event, near_event,
  step, run,
}
use netxy.Timers.Valid.{pending}
use netxy.TcpService.Worker.{loop_timeout, run-loop_timeout}

abbrev clock : ℕ → ℕ
clock k = 100 + k

rises : (k : ℕ) → clock k ≤ clock (suc k)
rises k = omega arith

abbrev no_acts : ℕ → ℕ → List Op
no_acts callback tick = []

abbrev one_event : List Event
one_event = op_event (add_op 30 7) ∷ near_event ∷ []

-- The timer's time is 130, and the clock is read for the third time.
waits_28 :
    (loop_timeout list_heap clock (run list_heap clock no_acts one_event (new list_heap clock))).0
    ≡ 28
unfolding loop_timeout is_empty near_end_ms run step perform add_timer new
waits_28 = refl

waits_100 : (loop_timeout list_heap clock (new list_heap clock)).0 ≡ 100
unfolding loop_timeout is_empty new
waits_100 = refl

one_pending :
    0
    < pending list_heap list_heap_laws clock
        (run list_heap clock no_acts one_event (new list_heap clock))
        0
unfolding run step perform add_timer near_end_ms new
one_pending = omega arith

run-loop_timeout_example :
    (loop_timeout list_heap clock (run list_heap clock no_acts one_event (new list_heap clock))).0
    ≤ key_of (run list_heap clock no_acts one_event (new list_heap clock)).timers 0
      - clock (run list_heap clock no_acts one_event (new list_heap clock)).tick
run-loop_timeout_example =
    run-loop_timeout list_heap list_heap_laws clock no_acts rises one_event 0 one_pending
