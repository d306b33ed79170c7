-- ===== src/TcpService/Worker.antt =====
-- `TcpService::startWorkerThread` of src/net/TCPService.cpp: how long a worker's loop may wait, by its timers.
mod Tests
use netxy.Base.{
  ℕ, zero, suc, ◌+◌, ◌-◌, ◌≤◌, ◌<◌, ◌≡◌, ◌⊎◌, refl, sym, ap, ◌∙◌, Bool, true, false, List, arith,
  if◌then◌else◌, inl, inr, Bool-cases,
}
use netxy.Heap.{HeapOps, IsHeap}
use netxy.Timers.{Op, Event, key_of, TimerMgr, new, is_empty, near_end_ms, run}
use netxy.Timers.Valid.{Inv, pending, new-Inv}
use netxy.Timers.Order.{run-Inv}
use netxy.Timers.Rounds.{near_end_ms-is_empty}

module _ (h : HeapOps) (clock : ℕ → ℕ) where
  -- The time-out that the worker gives to `loop`, with `sDefaultLoopTimeOutMS` of 100.
  pub loop_timeout : TimerMgr h → ℕ × TimerMgr h
  loop_timeout m = if is_empty h clock m then (100, m) else near_end_ms h clock m

module _ (h : HeapOps) (o : IsHeap h) (clock : ℕ → ℕ) (acts : ℕ → ℕ → List Op)
    (rises : (k : ℕ) → clock k ≤ clock (suc k)) where
  -- Whatever the owner of the timers and the callbacks did, for each timer in the queue: the time-out is 0
  -- if its time has come, and else it is over when its time comes.
  pub run-loop_timeout :
      (es : List Event) (j : ℕ)
      → 0 < pending h o clock (run h clock acts es (new h clock)) j
      → (loop_timeout h clock (run h clock acts es (new h clock))).0
        ≤ key_of (run h clock acts es (new h clock)).timers j
          - clock (run h clock acts es (new h clock)).tick
  unfolding loop_timeout
  run-loop_timeout es j there =
      let m = run h clock acts es (new h clock) in
      elim (near_end_ms-is_empty h o clock m
        (run-Inv h o clock acts rises es _ (new-Inv h o clock))) [
          | inl (none_left, w, empty) ↦ absurd (omega (arith, there, empty j))
          | inr (some_left, (i, here, w, least)) ↦
              rw (some_left, loop_timeout) (omega (arith, w, least j there))
        ]
