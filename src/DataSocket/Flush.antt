-- ===== src/DataSocket/Flush.antt =====
-- src/net/DataSocket.cpp: `flush`, with `quickFlush` for Linux and `normalFlush` for TLS and Windows.
-- The system's answers to the calls of `writev` or `send` are an argument. Sums of lengths are not bounded.
-- Completion callbacks are recorded; one that sends or closes within a flush is not modelled.
use netxy.Base.{
  ℕ, zero, suc, ◌+◌, ◌-◌, Bool, true, false, not, Option, none, some, List, [], ◌∷◌, ◌++◌, ltb, leb,
  ◌==◌, length, take, drop, if◌then◌else◌,
}
use netxy.DataSocket.{Pending, DataSocket, is_empty, is_open, proc_close_in_loop, check_write}

-- what a call of `writev` or `send` returned, 0 for an error too, and whether `sErrno` then says
-- S_EWOULDBLOCK
pub record Answer : Type 0 where
  pub count : ℕ
  pub would_block : Bool

-- the bytes of a packet that are left
unfoldable pub unsent : Pending → List ℕ
unsent p = take p.left (drop (length p.bytes - p.left) p.bytes)

abbrev pub max_iovec : ℕ
max_iovec = 1024

abbrev pub sendbuf_size : ℕ
sendbuf_size = 32768

-- the loop of `quickFlush` over `iov`: `num` packets so far
unfoldable pub gather_quick : ℕ → List Pending → List ℕ
gather_quick num [] = []
gather_quick num (p ∷ ps) =
    let rest = gather_quick (num + 1) ps in
    unsent p ++ (if leb max_iovec (num + 1) then [] else rest)

-- the loop of `normalFlush` into `threadLocalSendBuf`, with `wait_send_size` so far
unfoldable pub gather_normal : Bool → ℕ → List Pending → List ℕ
gather_normal first size [] = []
gather_normal first size (p ∷ ps) =
    let rest = gather_normal false (size + p.left) ps in
    if leb (size + p.left) sendbuf_size then unsent p ++ rest else if first then unsent p else []

-- the bytes that a round offers to the system
unfoldable pub gather : Bool → List Pending → List ℕ
gather quick ps = if quick then gather_quick 0 ps else gather_normal true 0 ps

-- whether a round calls the system
unfoldable pub has_work : Bool → List Pending → Bool
has_work quick ps = if quick then not (is_empty ps) else ltb 0 (length (gather false ps))

abbrev pub callback_of : Pending → List ℕ
callback_of p = elim p.callback [ none ↦ [] | some c ↦ c ∷ [] ]

-- the loop that erases the packets that are sent: what is left, and the callbacks it calls
unfoldable pub erase_sent : ℕ → List Pending → List Pending × List ℕ
erase_sent tmp_len [] = ([], [])
erase_sent tmp_len (p ∷ ps) =
    let rest = erase_sent (tmp_len - p.left) ps in
    if leb p.left tmp_len
    then (rest.0, callback_of p ++ rest.1)
    else (record p { left = p.left - tmp_len } ∷ ps, [])

-- what a round says: whether to go back to SEND_PROC, and `must_close`
pub record Round : Type 0 where
  pub again : Bool
  pub must_close : Bool
  pub socket : DataSocket

-- the branches that wait until the socket is writable
unfoldable pub wait_write : Bool → DataSocket → Round
wait_write check s =
    let checked = check_write check (record s { can_write = false }) in
    record { again = false; must_close = not checked.0; socket = checked.1 }

-- what a round does with the system's answer
unfoldable pub write_round : Bool → List ℕ → Answer → DataSocket → Round
write_round check ready answer s =
    let erased = erase_sent answer.count s.send_list in
    let sent : DataSocket = record s {
      send_list = erased.0;
      completed = s.completed ++ erased.1;
      written = s.written ++ take answer.count ready;
    } in
    if ltb 0 answer.count
    then if answer.count == length ready
      then record { again = not (is_empty erased.0); must_close = false; socket = sent }
      else wait_write check sent
    else if answer.would_block
    then wait_write check s
    else record { again = false; must_close = true; socket = s }

-- `quickFlush` and `normalFlush`: call `k` of the system gets the answer `answers k`
unfoldable pub flush_steps :
    Bool → Bool → (ℕ → List ℕ → Answer) → ℕ → ℕ → DataSocket → Option DataSocket
flush_steps quick check answers k zero s = none
flush_steps quick check answers k (suc fuel) s =
    let ready = gather quick s.send_list in
    let round = write_round check ready (answers k ready) s in
    let more = flush_steps quick check answers (suc k) fuel round.socket in
    if has_work quick s.send_list
    then if round.again
      then more
      else some (if round.must_close then proc_close_in_loop round.socket else round.socket)
    else some s

-- `flush`, with a round for each packet
unfoldable pub flush : Bool → Bool → (ℕ → List ℕ → Answer) → DataSocket → Option DataSocket
flush quick check answers s =
    if s.can_write
    then if is_open s
      then flush_steps quick check answers 0 (suc (length s.send_list)) s
      else some s
    else some s
