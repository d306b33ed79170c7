-- ===== src/DataSocket/Life.antt =====
-- The life of a connection: what its event loop and its owner do with it, and the invariant of it.
pub mod Keep
pub mod Data
pub mod Next
pub mod Runs
pub mod Promises
mod Tests
use netxy.Base.{
  ℕ, zero, suc, ◌+◌, ◌≡◌, Bool, true, false, not, Option, none, some, List, [], ◌∷◌, ◌++◌, length,
  if◌then◌else◌, ◌⊎◌,
}
use netxy.DataSocket.{
  AfterProc, flush_proc, disconnect_proc, shutdown_proc, DataSocket, is_empty, is_open,
  send_packet_in_loop, can_send, proc_close_in_loop, proc_shutdown_in_loop, shutdown_in_loop,
}
use netxy.DataSocket.Flush.{Answer, flush}
use netxy.DataSocket.Queue.{AllFit}

-- The procedures that the connection gave to the loop
pub call_proc : (ℕ → List ℕ → Answer) → AfterProc → DataSocket → Option DataSocket
call_proc answers flush_proc s = flush true true answers (record s { is_post_flush = false })
call_proc answers disconnect_proc s = some (record s { disconnected = suc s.disconnected })
call_proc answers shutdown_proc s = some (proc_shutdown_in_loop s)

-- The loop takes the first of them off its list and calls it.
pub run_first : (ℕ → List ℕ → Answer) → List AfterProc → DataSocket → Option DataSocket
run_first answers [] s = some s
run_first answers (proc ∷ procs) s = call_proc answers proc (record s { after_procs = procs })

-- What happens to a connection: a packet is sent, the system says that it is writable, the loop calls a
-- procedure, the connection is closed (by its owner, or after a failure), and its owner shuts it down.
pub data Event : Type 0 where
  send_event : List ℕ → Option ℕ → Event
  writable_event : Event
  proc_event : (ℕ → List ℕ → Answer) → Event
  close_event : Event
  shutdown_event : Event

pub step : Event → DataSocket → Option DataSocket
step (send_event packet callback) s = some (send_packet_in_loop packet callback s)
step writable_event s = some (can_send s)
step (proc_event answers) s = run_first answers s.after_procs s
step close_event s = some (proc_close_in_loop s)
step shutdown_event s = some (shutdown_in_loop s)

pub run : List Event → DataSocket → Option DataSocket
run [] s = some s
run (e ∷ es) s = elim (step e s) [ none ↦ none | some t ↦ run es t ]

-- The procedures in the loop, counted.
abbrev pub flushes : List AfterProc → ℕ
flushes [] = 0
flushes (p ∷ ps) =
    (elim p [ flush_proc ↦ 1 | disconnect_proc ↦ 0 | shutdown_proc ↦ 0 ]) + flushes ps

abbrev pub disconnects : List AfterProc → ℕ
disconnects [] = 0
disconnects (p ∷ ps) =
    (elim p [ flush_proc ↦ 0 | disconnect_proc ↦ 1 | shutdown_proc ↦ 0 ]) + disconnects ps

-- The counts of a connection: one flush is posted if the flag says so, one disconnect once it is
-- closed, as one descriptor is; and an open connection that is not writable is watched.
pub record IsQuiet (s : DataSocket) : Type 0 where
  pub fit : AllFit s.send_list
  pub posted : flushes s.after_procs ≡ (if s.is_post_flush then 1 else 0)
  pub once : s.disconnected + disconnects s.after_procs ≡ (if s.is_post_final_close then 1 else 0)
  pub final : is_open s ≡ not s.is_post_final_close
  pub closed_once : length s.closed ≡ (if s.is_post_final_close then 1 else 0)
  pub watched : is_open s ≡ true → s.shut ≡ false → s.can_write ≡ false → s.write_watch ≡ true

-- A connection is well-formed: packets of an open one wait for a flush, or until it is writable.
pub record IsValid (s : DataSocket) : Type 0 where
  pub quiet : IsQuiet s
  pub wake :
      is_open s ≡ true
      → s.shut ≡ false
      → is_empty s.send_list ≡ false
      → s.is_post_flush ≡ true ⊎ s.can_write ≡ false
