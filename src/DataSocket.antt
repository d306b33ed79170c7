-- ===== src/DataSocket.antt =====
-- src/net/DataSocket.cpp, built for Linux: a connection in the thread of its event loop. The record also
-- holds what the connection does to the system: the descriptor's watch, the procedures that it gave to the
-- loop, the bytes the system took, and the callbacks that were called. `none` for `fd` is SOCKET_ERROR.
pub mod Flush
pub mod Queue
pub mod Rounds
pub mod Ends
pub mod Whole
pub mod Receive
pub mod Ping
mod Tests
pub mod Life
use netxy.Base.{
  ℕ, zero, suc, ◌+◌, ◌-◌, Bool, true, false, not, Option, none, some, List, [], ◌∷◌, ◌++◌, ltb, leb,
  ◌==◌, length, take, drop, if◌then◌else◌,
}

-- `struct pending_packet`; a completion callback is its number
pub record Pending : Type 0 where
  pub bytes : List ℕ
  pub left : ℕ
  pub callback : Option ℕ

-- what the connection gives to `pushAfterLoopProc`
pub data AfterProc : Type 0 where
  flush_proc : AfterProc
  disconnect_proc : AfterProc
  shutdown_proc : AfterProc

pub record DataSocket : Type 0 where
  pub fd : Option ℕ
  pub is_post_final_close : Bool
  pub can_write : Bool
  pub send_list : List Pending
  pub is_post_flush : Bool
  pub write_watch : Bool
  pub after_procs : List AfterProc
  pub closed : List ℕ
  pub shut : Bool
  pub written : List ℕ
  pub completed : List ℕ
  pub disconnected : ℕ

-- the constructor, after `linkChannel`
pub new : ℕ → DataSocket
new fd = record {
  fd = some fd;
  is_post_final_close = false;
  can_write = true;
  send_list = [];
  is_post_flush = false;
  write_watch = false;
  after_procs = [];
  closed = [];
  shut = false;
  written = [];
  completed = [];
  disconnected = 0;
}

pub is_open : DataSocket → Bool
is_open s = elim s.fd [ none ↦ false | some fd ↦ true ]

abbrev pub is_empty : List Pending → Bool
is_empty [] = true
is_empty (p ∷ ps) = false

-- `runAfterFlush`
pub run_after_flush : DataSocket → DataSocket
run_after_flush s =
    if s.is_post_flush
    then s
    else if is_empty s.send_list
    then s
    else if is_open s
    then record s { after_procs = s.after_procs ++ flush_proc ∷ []; is_post_flush = true }
    else s

-- `sendPacketInLoop`, and the procedure that `sendPacket` posts
pub send_packet_in_loop : List ℕ → Option ℕ → DataSocket → DataSocket
send_packet_in_loop packet callback s = run_after_flush (record s {
  send_list =
      s.send_list ++ record { bytes = packet; left = length packet; callback = callback } ∷ [];
})

-- `removeCheckWrite`
pub remove_check_write : DataSocket → DataSocket
remove_check_write s = if is_open s then record s { write_watch = false } else s

-- `canSend`
pub can_send : DataSocket → DataSocket
can_send s = run_after_flush (record (remove_check_write s) { can_write = true })

-- `closeSocket`
pub close_socket : DataSocket → DataSocket
close_socket s = elim s.fd [
  | none ↦ s
  | some fd ↦ record s { can_write = false; fd = none; closed = s.closed ++ fd ∷ [] }
]

-- `onClose`
pub on_close : DataSocket → DataSocket
on_close s =
    if s.is_post_final_close
    then s
    else record (close_socket (record s { after_procs = s.after_procs ++ disconnect_proc ∷ [] })) {
      is_post_final_close = true;
    }

-- `procCloseInLoop`
pub proc_close_in_loop : DataSocket → DataSocket
proc_close_in_loop s = if is_open s then on_close s else s

-- `procShutdownInLoop`
pub proc_shutdown_in_loop : DataSocket → DataSocket
proc_shutdown_in_loop s = if is_open s then record s { shut = true; can_write = false } else s

-- the procedure that `postShutdown` posts
pub shutdown_in_loop : DataSocket → DataSocket
shutdown_in_loop s =
    if is_open s then record s { after_procs = s.after_procs ++ shutdown_proc ∷ [] } else s

-- `checkWrite`: the answer is true on Linux, and the argument elsewhere
pub check_write : Bool → DataSocket → Bool × DataSocket
check_write ok s = (ok, if ok then record s { write_watch = true } else s)
