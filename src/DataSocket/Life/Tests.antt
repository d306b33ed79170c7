-- ===== src/DataSocket/Life/Tests.antt =====
-- Runs of a connection, and the claims at them.
use netxy.Base.{
  ℕ, ◌+◌, ◌≡◌, refl, true, false, none, some, List, [], ◌∷◌, ◌++◌, arith, length, min, ◌⊎◌,
}
use netxy.DataSocket.{
  disconnect_proc, flush_proc, DataSocket, new, is_open, run_after_flush, send_packet_in_loop,
  check_write, close_socket, on_close, proc_close_in_loop,
}
use netxy.DataSocket.Flush.{
  Answer, flush, flush_steps, write_round, wait_write, gather, gather_quick, has_work, erase_sent,
  unsent,
}
use netxy.DataSocket.Queue.{pending, callbacks}
use netxy.DataSocket.Rounds.{AllWithin}
use netxy.DataSocket.Life.{
  Event, send_event, proc_event, close_event, call_proc, run_first, step, run, flushes, disconnects,
}
use netxy.DataSocket.Life.Next.{sent_bytes, sent_calls, AllAllowed}
use netxy.DataSocket.Life.Promises.{run-new_stream, run-new_closed_once, run-new_wake}

-- a system that takes two bytes at most
abbrev two_at_most : ℕ → List ℕ → Answer
two_at_most k ready = record { count = min 2 (length ready); would_block = true }

two_at_most-AllWithin : AllWithin two_at_most
two_at_most-AllWithin k ready = omega arith

abbrev talk : List Event
talk =
    send_event (5 ∷ 6 ∷ 7 ∷ []) (some 1)
    ∷ proc_event two_at_most
    ∷ send_event (8 ∷ []) (some 2)
    ∷ []

talk-AllAllowed : AllAllowed talk
talk-AllAllowed = (tt, (two_at_most-AllWithin, (tt, tt)))

abbrev after_talk : DataSocket
after_talk = record {
  fd = some 3;
  is_post_final_close = false;
  can_write = false;
  send_list =
      record { bytes = 5 ∷ 6 ∷ 7 ∷ []; left = 1; callback = some 1 }
      ∷ record { bytes = 8 ∷ []; left = 1; callback = some 2 }
      ∷ [];
  is_post_flush = true;
  write_watch = true;
  after_procs = flush_proc ∷ [];
  closed = [];
  shut = false;
  written = 5 ∷ 6 ∷ [];
  completed = [];
  disconnected = 0;
}

run-talk : run talk (new 3) ≡ some after_talk
unfolding run step run_first call_proc new send_packet_in_loop run_after_flush is_open flush
    flush_steps write_round wait_write check_write gather gather_quick has_work erase_sent unsent
run-talk = refl

run-new_stream_example :
    (t : DataSocket) × (run talk (new 3) ≡ some t)
    × (t.written ++ pending t.send_list ≡ sent_bytes talk)
    × (t.completed ++ callbacks t.send_list ≡ sent_calls talk)
run-new_stream_example = run-new_stream 3 talk talk-AllAllowed

run-new_wake_example : flushes (flush_proc ∷ []) ≡ 1 ⊎ (false ≡ false) × (true ≡ true)
unfolding is_open
run-new_wake_example = run-new_wake 3 talk after_talk talk-AllAllowed run-talk refl refl refl

abbrev farewell : List Event
farewell = close_event ∷ close_event ∷ []

abbrev after_farewell : DataSocket
after_farewell = record {
  fd = none;
  is_post_final_close = true;
  can_write = false;
  send_list = [];
  is_post_flush = false;
  write_watch = false;
  after_procs = disconnect_proc ∷ [];
  closed = 3 ∷ [];
  shut = false;
  written = [];
  completed = [];
  disconnected = 0;
}

run-farewell : run farewell (new 3) ≡ some after_farewell
unfolding run step new proc_close_in_loop on_close close_socket is_open
run-farewell = refl

run-new_closed_once_example :
    (0 + disconnects (disconnect_proc ∷ []) ≡ 1) × (length {A = ℕ} (3 ∷ []) ≡ 1)
unfolding is_open
run-new_closed_once_example =
    run-new_closed_once 3 farewell after_farewell (tt, (tt, tt)) run-farewell
