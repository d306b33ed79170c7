-- ===== src/Connector/Tests.antt =====
-- Two requests, one of which is refused, over a poll set that keeps nothing.
use netxy.Base.{
  ℕ, ◌+◌, ◌≡◌, refl, true, false, none, some, List, [], ◌∷◌, ltb, count, total, ◌≤◌, arith,
}
use netxy.MsgQueue.{
  push, push_fronts, try_sync_write, force_locked, force_sync_write, sync_read, pop_back,
}
use netxy.MsgQueue.Fifo.{contents}
use netxy.Connector.{
  PollOps, ConnectAnswer, refused, in_progress, Connector, new, Turn, ask, round, turn, run,
  async_connect, complete, is_complete, is_failed, complete_all, check_connect_status, expire,
  check_timeout, connect_one, poll_connect_request, put_info, put_fd, find_info, erase_info,
  erase_fd,
}
use netxy.Connector.Counts.{has_fd}
use netxy.Connector.Rounds.{asks, holds, tells, gives}
use netxy.Connector.Requests.{run-new_once}
use netxy.Connector.Served.{gets, poll_connect_request-served}

-- An answer lists the descriptors that are writable.
abbrev plain : PollOps
plain = record {
  Carrier = List ℕ;
  Answer = List ℕ;
  create = [];
  add = λ c fd. c;
  del = λ c fd. c;
  poll = λ answer c. (true, answer);
  has_error = λ c fd. false;
  is_writable = λ c fd. ltb 0 (count fd c);
}

abbrev some_turns : List (Turn plain)
some_turns =
    ask (record { timeout = 1000; uid = 5 })
    ∷ ask (record { timeout = 1000; uid = 6 })
    ∷ round [] (λ fd. true) (in_progress 3 100 ∷ refused 4 ∷ []) 150
    ∷ round (3 ∷ []) (λ fd. true) [] 160
    ∷ []

abbrev ended : Connector plain
ended = record {
  connect_requests = record { read_list = []; write_list = []; shared_list = [] };
  connecting_infos = [];
  connecting_fds = [];
  fd_set = 3 ∷ [];
  calls = (none, 5) ∷ (some 3, 6) ∷ [];
  asked = 5 ∷ 6 ∷ [];
  opened = 3 ∷ 4 ∷ [];
  closed = 4 ∷ [];
}

some_turns_end : run plain some_turns (new plain) ≡ some ended
unfolding run turn new async_connect complete is_complete is_failed complete_all
    check_connect_status expire check_timeout connect_one poll_connect_request put_info put_fd
    find_info erase_info erase_fd push push_fronts try_sync_write force_locked force_sync_write
    sync_read pop_back
some_turns_end = refl

run-new_once_example :
    ((uid : ℕ)
      → total (tells uid) ended.calls
          + total (holds uid) ended.connecting_infos
          + total (asks uid) (contents ended.connect_requests)
        ≡ count uid ended.asked)
    × ((fd : ℕ)
        → total (gives fd) ended.calls
            + total (has_fd fd) ended.connecting_infos
            + count fd ended.closed
          ≡ count fd ended.opened)
    × ((fd : ℕ) → count fd ended.connecting_fds ≡ total (has_fd fd) ended.connecting_infos)
run-new_once_example = run-new_once plain some_turns some_turns_end

abbrev asked : Connector plain
asked = record ended {
  connect_requests = record {
    read_list = record { timeout = 1000; uid = 5 } ∷ record { timeout = 1000; uid = 6 } ∷ [];
    write_list = [];
    shared_list = [];
  };
}

abbrev two_answers : List ConnectAnswer
two_answers = in_progress 3 100 ∷ refused 4 ∷ []

two_fresh : (fd : ℕ) → total (gets fd) two_answers + total (has_fd fd) asked.connecting_infos ≤ 1
two_fresh fd = ground arith

poll_connect_request-served_example :
    (t : Connector plain) × (poll_connect_request plain two_answers asked ≡ some t)
    × (t.connect_requests.read_list ≡ [])
poll_connect_request-served_example =
    poll_connect_request-served plain two_answers asked (omega arith) two_fresh
