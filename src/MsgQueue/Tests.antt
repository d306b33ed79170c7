-- ===== src/MsgQueue/Tests.antt =====
-- A run of the queue, and the claim at it.
use netxy.Base.{ℕ, ◌+◌, ◌==◌, total, if◌then◌else◌, ◌≡◌, refl, List, [], ◌∷◌, ◌++◌}
use netxy.MsgQueue.{
  MsgQueue, push, try_sync_write, push_fronts, force_locked, force_sync_write, pop_front, pop_back,
  clear, sync_read,
}
use netxy.MsgQueue.Fifo.{
  Action, push_action, try_action, force_action, force_late_action, pop_action, sync_read_action,
  step, run, contents, run-order, cleared, pop_back_action, clear_action, run-total,
}

abbrev none_yet : MsgQueue ℕ
none_yet = record { read_list = []; write_list = []; shared_list = [] }

abbrev turns : List (Action ℕ)
turns =
    push_action 1
    ∷ try_action
    ∷ push_action 2
    ∷ push_action 3
    ∷ force_action
    ∷ sync_read_action
    ∷ push_action 4
    ∷ force_late_action
    ∷ pop_action
    ∷ pop_action
    ∷ []

run-turns :
    run turns none_yet
    ≡ (1 ∷ 2 ∷ [], record { read_list = 3 ∷ []; write_list = []; shared_list = 4 ∷ [] })
unfolding run step push try_sync_write push_fronts force_locked force_sync_write pop_front sync_read
run-turns = refl

run-order_example : (run turns none_yet).0 ++ contents (run turns none_yet).1 ≡ 1 ∷ 2 ∷ 3 ∷ 4 ∷ []
run-order_example = run-order turns none_yet refl

-- With three elements to read, the last is taken first, and the others are dropped.
abbrev odd_turns : List (Action ℕ)
odd_turns =
    push_action 5
    ∷ push_action 6
    ∷ push_action 7
    ∷ force_action
    ∷ sync_read_action
    ∷ pop_back_action
    ∷ clear_action
    ∷ []

run-odd_turns : run odd_turns none_yet ≡ (7 ∷ [], none_yet)
unfolding run step push try_sync_write push_fronts force_locked force_sync_write pop_back clear
    sync_read
run-odd_turns = refl

-- counts the element 6
abbrev sixes : ℕ → ℕ
sixes k = if k == 6 then 1 else 0

odd_turns-total :
    total sixes (run odd_turns none_yet).0
      + total sixes (contents (run odd_turns none_yet).1)
      + total sixes (cleared odd_turns none_yet)
    ≡ total sixes [] + total sixes (5 ∷ 6 ∷ 7 ∷ [])
odd_turns-total = run-total sixes odd_turns none_yet
