-- ===== src/TcpService/Listen/Tests.antt =====
-- Two loops: a connection that is accepted, one that a loop's thread adds to its own loop, one that asks
-- for TLS, and one that is accepted when the listening was closed.
use netxy.Base.{
  ℕ, ◌+◌, ◌≤◌, ◌≡◌, refl, true, false, none, some, List, [], ◌∷◌, arith, ◌==◌, length, count, total,
  if◌then◌else◌,
}
use netxy.TcpService.Listen.{
  ended, Service, start, find_loop, post_channel, help_add_channel, on_accept, add_data_socket,
  on_enter_event_loop, take_posted, Turn, accept_fails, accept_gives, test_run, close_listen,
  add_turn, enter_turn, came, accept, listen_at, turn, run,
}
use netxy.TcpService.Listen.Valid.{has, outside}
use netxy.TcpService.Listen.Arrival.{all_allowed, run-start_accounts}

abbrev some_turns : List Turn
some_turns =
    accept_fails
    ∷ accept_gives 5 7
    ∷ test_run
    ∷ add_turn 6 false true (λ i. i == 0) true false 0
    ∷ add_turn 7 true false (λ i. false) true true 0
    ∷ enter_turn 1 true true
    ∷ enter_turn 0 true false
    ∷ close_listen
    ∷ accept_gives 8 0
    ∷ test_run
    ∷ []

abbrev after_turns : Service
after_turns = record {
  loop_num = 2;
  run_listen = false;
  listener = ended;
  posted = [];
  arrived = 5 ∷ 6 ∷ 7 ∷ 8 ∷ [];
  entered = (1, 5) ∷ [];
  closed = 6 ∷ 7 ∷ [];
  lost = 8 ∷ [];
}

some_turns_end : run some_turns (start 2) ≡ some after_turns
unfolding run turn listen_at accept came on_accept help_add_channel find_loop post_channel
    add_data_socket on_enter_event_loop take_posted start
some_turns_end = refl

-- A thread that is no loop's adds a connection bound to its loop.
added_outside : run (add_turn 6 false true (λ i. false) true true 0 ∷ []) (start 2) ≡ none
unfolding run turn came help_add_channel find_loop add_data_socket start
added_outside = refl

some_turns_allowed : all_allowed 2 some_turns ≡ true
unfolding find_loop
some_turns_allowed = refl

run-start_accounts_example :
    (s : Service) × (run some_turns (start 2) ≡ some s)
    × ((fd : ℕ)
        → total (has fd) s.posted + total (has fd) s.entered + count fd s.closed + count fd s.lost
          ≡ count fd s.arrived)
    × (total (outside 2) s.posted + total (outside 2) s.entered ≡ 0)
    × (length s.lost + (if s.run_listen then 1 else 0) ≤ 1)
run-start_accounts_example = run-start_accounts 2 some_turns (omega arith) some_turns_allowed
