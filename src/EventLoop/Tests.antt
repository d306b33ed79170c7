-- ===== src/EventLoop/Tests.antt =====
-- A loop that waits while one thread gives it a procedure and another tries to wake it up.
use netxy.Base.{ℕ, ◌≡◌, ◌⊎◌, refl, true, some, List, [], ◌∷◌, ◌++◌, arith, length, replicate}
use netxy.EventLoop.{
  EventLoop, Act, push_async, go_other, call_loop, get_events, go_loop, waiting, new, begin_other,
  wakeup, enter, step, run,
}
use netxy.EventLoop.Wakeup.{run-new_awake}
use netxy.EventLoop.Order.{run-new_order}
use netxy.EventLoop.Serve.{wake_event, run-waiting_serves}

-- The second thread finds that the first has woken up the loop.
abbrev some_acts : List (Act ℕ)
some_acts =
    call_loop 100
    ∷ push_async 0 7
    ∷ push_async 1 8
    ∷ go_other 1
    ∷ go_other 0
    ∷ go_other 0
    ∷ go_other 1
    ∷ go_other 0
    ∷ []

abbrev asleep : EventLoop ℕ
asleep = record (new 2) {
  at = waiting 100;
  is_already_post_wakeup = true;
  signal = true;
  async_procs = 7 ∷ 8 ∷ [];
  given = 7 ∷ 8 ∷ [];
}

run-asleep : run some_acts (new 2) ≡ some asleep
unfolding run step new begin_other wakeup enter
run-asleep = refl

asleep_at : asleep.at ≡ waiting 100
unfolding new
asleep_at = refl

run-new_awake_example :
    (length asleep.async_procs ≡ 0 ⊎ asleep.signal ≡ true)
    × (length asleep.after_loop_procs ≡ 0 ⊎ ◌≡◌ {A = ℕ} 100 0)
unfolding new
run-new_awake_example = run-new_awake 2 some_acts asleep 100 run-asleep refl refl

run-new_order_example :
    (asleep.ran ++ (asleep.copy_async_procs ++ asleep.async_procs) ≡ asleep.given)
    × (asleep.after_ran ++ (asleep.copy_after_loop_procs ++ asleep.after_loop_procs)
        ≡ asleep.after_given)
run-new_order_example = run-new_order 2 some_acts run-asleep

run-waiting_serves_example :
    (u : EventLoop ℕ) × (run
        (get_events (wake_event ∷ []) ∷ replicate 5 go_loop
          ++ replicate (length asleep.async_procs) go_loop)
        asleep
      ≡ some u)
    × (u.ran ≡ asleep.ran ++ asleep.async_procs)
    × (u.async_procs ≡ [])
unfolding new
run-waiting_serves_example = run-waiting_serves asleep 100 refl refl (omega arith) refl
