-- ===== src/DataSocket/Tests.antt =====
-- Flushes, reads and checks of connections, and the claims at them.
use netxy.Base.{
  ℕ, ◌≡◌, refl, Bool, true, false, Option, none, some, List, [], ◌∷◌, ◌++◌, arith, length, min,
  ◌==◌, replicate, length-replicate, ◌⊎◌, inl,
}
use netxy.Buffer.{Buffer}
use netxy.Buffer.Bounds.{IsValid, get_write_valid_count_lem}
use netxy.DataSocket.{Pending, DataSocket, is_open, proc_close_in_loop}
use netxy.DataSocket.Flush.{Answer, flush}
use netxy.DataSocket.Queue.{pending, callbacks}
use netxy.DataSocket.Whole.{flush_lem, flush_whole}
use netxy.DataSocket.Receive.{DataCallback, Receiver, grow_recv_buffer, recv}
use netxy.DataSocket.Receive.Room.{AllSized, Grown, grow_recv_buffer_lem}
use netxy.DataSocket.Receive.Loop.{Ended, recv_lem}
use netxy.DataSocket.Ping.{fire, set_check_time, set_check_time_cancelled}

abbrev waiting_list : List Pending
waiting_list =
    record { bytes = 5 ∷ 6 ∷ 7 ∷ []; left = 1; callback = some 1 }
    ∷ record { bytes = 8 ∷ []; left = 1; callback = none }
    ∷ []

abbrev socket_with : List Pending → DataSocket
socket_with ps = record {
  fd = some 3;
  is_post_final_close = false;
  can_write = true;
  send_list = ps;
  is_post_flush = false;
  write_watch = false;
  after_procs = [];
  closed = [];
  shut = false;
  written = 5 ∷ 6 ∷ [];
  completed = [];
  disconnected = 0;
}

abbrev one_at_most : ℕ → List ℕ → Answer
one_at_most k ready = record { count = min 1 (length ready); would_block = false }

abbrev all_of_it : ℕ → List ℕ → Answer
all_of_it k ready = record { count = length ready; would_block = false }

flush_lem_example :
    (core : DataSocket) × (flush false true one_at_most (socket_with waiting_list) ≡ some core
      ⊎ flush false true one_at_most (socket_with waiting_list) ≡ some (proc_close_in_loop core))
    × (core.written ++ pending core.send_list ≡ (5 ∷ 6 ∷ []) ++ pending waiting_list)
    × (core.completed ++ callbacks core.send_list ≡ callbacks waiting_list)
flush_lem_example =
    flush_lem false true one_at_most (socket_with waiting_list) (λ k ready. omega arith)
      (omega arith, (omega arith, tt))

flush_whole_example :
    (t : DataSocket) × (flush true true all_of_it (socket_with waiting_list) ≡ some t)
    × (t.send_list ≡ [])
    × (t.written ≡ (5 ∷ 6 ∷ []) ++ pending waiting_list)
    × (t.completed ≡ callbacks waiting_list)
unfolding is_open
flush_whole_example =
    flush_whole true true all_of_it (socket_with waiting_list) (λ k ready. refl)
      (omega arith, omega arith, (omega arith, omega arith, tt)) refl refl

abbrev nothing : List Pending
nothing = record { bytes = []; left = 0; callback = some 4 } ∷ []

abbrev zeros : ℕ → List ℕ
zeros n = replicate n 0

zeros-AllSized : AllSized zeros
zeros-AllSized n = length-replicate n 0

abbrev small_buffer : Buffer
small_buffer = record { bytes = 1 ∷ 2 ∷ 3 ∷ 4 ∷ []; data_len = 4; write_pos = 3; read_pos = 1 }

small_buffer-IsValid : IsValid small_buffer
small_buffer-IsValid = record {
  storage = refl;
  small = omega arith;
  ordered = omega arith;
  within = omega arith;
}

grow_recv_buffer_lem_example :
    (grown : Buffer) × (grow_recv_buffer 4096 zeros small_buffer ≡ some grown)
    × Grown 4096 small_buffer grown
grow_recv_buffer_lem_example =
    grow_recv_buffer_lem 4096 zeros small_buffer (omega arith) zeros-AllSized small_buffer-IsValid

abbrev receiver : Receiver
receiver = record {
  connected = true;
  buffer = small_buffer;
  recv_data = false;
  incoming = 5 ∷ 6 ∷ [];
  consumed = 1 ∷ [];
}

-- uses a byte each time, and closes the connection at the second
abbrev use_one : ℕ → Option DataCallback
use_one k = some (λ bytes. (min 1 (length bytes), k == 1))

abbrev fails_third : ℕ → Bool
fails_third k = k == 2

recv_lem_example :
    (must_close : Bool) × (after : Receiver) × (recv 4096 zeros use_one fails_third true receiver
      ≡ some (must_close, after))
    × Ended 4096 fails_third true receiver must_close after
recv_lem_example =
    recv_lem 4096 zeros use_one fails_third true receiver (omega arith) zeros-AllSized
      (λ k bytes. omega arith) small_buffer-IsValid (omega arith)
      (inl (omega (arith, get_write_valid_count_lem small_buffer-IsValid)))

set_check_time_cancelled_example :
    fire false (
      set_check_time (some 70) (
        set_check_time none
          (record { recv_data = false; check_time = some 500; timer = some true })))
    ≡ (false, record { recv_data = false; check_time = some 70; timer = none })
set_check_time_cancelled_example = set_check_time_cancelled false (some 500) true 70
