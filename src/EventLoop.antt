-- ===== src/EventLoop.antt =====
-- src/net/EventLoop.cpp, on Linux: one thread that waits for events and runs what others give it, and
-- threads that give it procedures and wake it up. What a thread does between two accesses to shared
-- state is one action; an execution is a list of actions of any threads, `none` one that its thread
-- cannot do now. The kernel's part is that the eventfd reads as written until it is drained, and that
-- `epoll_wait` reports it only while it is so; timers are left out.
mod Flags
mod Turns
pub mod Wakeup
pub mod Order
pub mod Serve
mod Tests
use netxy.Base.{
  ℕ, ◌+◌, Bool, true, false, not, ◌&&◌, Option, none, some, List, [], ◌∷◌, ◌++◌, ltb, leb, ◌==◌,
  length, get_elem?, set, replicate, if◌then◌else◌,
}

-- an `epoll_event`; channel 0 is the `WakeupChannel`
pub record Event : Type 0 where
  pub channel : ℕ
  pub rdhup : Bool
  pub readable : Bool
  pub writable : Bool

-- the calls of a channel
pub data Call : Type 0 where
  can_recv : ℕ → Call
  can_send : ℕ → Call
  on_close : ℕ → Call

-- the body of the loop over the events
unfoldable pub dispatch : Event → List Call
dispatch e =
    if e.rdhup
    then can_recv e.channel ∷ on_close e.channel ∷ []
    else (if e.readable then can_recv e.channel ∷ [] else [])
      ++ (if e.writable then can_send e.channel ∷ [] else [])

-- Does an event call `canRecv` of the `WakeupChannel`, which reads the eventfd until it is empty?
abbrev pub drains : Event → Bool
drains e = e.channel == 0 && (if e.rdhup then true else e.readable)

abbrev pub any_drains : List Event → Bool
any_drains [] = false
any_drains (e ∷ es) = if drains e then true else any_drains es

-- Where another thread stands in `pushAsyncProc` and `wakeup`: outside; before it reads `mIsInBlock`;
-- before the exchange; before the write to the eventfd.
pub data OtherAt : Type 0 where
  idle pushed exchanging writing : OtherAt

-- Where the loop's thread stands in `loop`: outside; in `epoll_wait`; behind it, before `mIsInBlock` is
-- false; before the rest of the events; behind the reset of `mIsAlreadyPostWakeup`; with `mIsInBlock`
-- true again; in `processAsyncProcs` behind the swap; in `processAfterLoopProcs` behind the swap.
pub data LoopAt : Type 0 where
  outside : LoopAt
  waiting : ℕ → LoopAt
  polled : List Event → LoopAt
  handling : List Event → LoopAt
  reset : LoopAt
  ready : LoopAt
  running : LoopAt
  finishing : LoopAt

-- May the thread that runs the loop do something else there: is it in a callback, or outside?
abbrev pub is_free : LoopAt → Bool
is_free outside = true
is_free (handling es) = true
is_free running = true
is_free finishing = true
is_free (waiting t) = false
is_free (polled es) = false
is_free reset = false
is_free ready = false

abbrev pub is_empty {ℓ} : {A : Type ℓ} → List A → Bool
is_empty [] = true
is_empty (x ∷ xs) = false

module _ (P : Type 0) where
  -- `EventLoop`, with what was given to it and what it ran: `given` and `ran` for the procedures of
  -- other threads, `called` for those that it gave itself, `after_given` and `after_ran` for those for
  -- the loop's end, `calls` for the channels.
  pub record EventLoop : Type 0 where
    pub at : LoopAt
    pub others : List OtherAt
    pub is_in_block : Bool
    pub is_already_post_wakeup : Bool
    pub signal : Bool
    pub async_procs : List P
    pub copy_async_procs : List P
    pub after_loop_procs : List P
    pub copy_after_loop_procs : List P
    pub event_entries_num : ℕ
    pub num_complete : ℕ
    pub given : List P
    pub ran : List P
    pub called : List P
    pub after_given : List P
    pub after_ran : List P
    pub calls : List Call

  -- An action: a thread gives a procedure or wakes up the loop, or goes on in what it does; the loop's
  -- thread gives a procedure, calls `loop`, gets events, or goes on.
  pub data Act : Type 0 where
    push_async : ℕ → P → Act
    call_wakeup : ℕ → Act
    go_other : ℕ → Act
    push_own : P → Act
    push_after : P → Act
    call_loop : ℕ → Act
    get_events : List Event → Act
    go_loop : Act

module _ {P : Type 0} where
  -- the constructor, with a number of other threads
  unfoldable pub new : ℕ → EventLoop P
  new threads = record {
    at = outside;
    others = replicate threads idle;
    is_in_block = true;
    is_already_post_wakeup = false;
    signal = false;
    async_procs = [];
    copy_async_procs = [];
    after_loop_procs = [];
    copy_after_loop_procs = [];
    event_entries_num = 1024;
    num_complete = 0;
    given = [];
    ran = [];
    called = [];
    after_given = [];
    after_ran = [];
    calls = [];
  }

  -- `pushAsyncProc` by another thread, up to the unlock, and the call of `wakeup`
  unfoldable pub begin_other : ℕ → Option P → OtherAt → EventLoop P → Option (EventLoop P)
  begin_other i (some f) idle s = some (record s {
    others = set s.others i pushed;
    async_procs = s.async_procs ++ f ∷ [];
    given = s.given ++ f ∷ [];
  })
  begin_other i none idle s = some (record s { others = set s.others i pushed })
  begin_other i o pushed s = none
  begin_other i o exchanging s = none
  begin_other i o writing s = none

  -- `wakeup` by another thread
  unfoldable pub wakeup : ℕ → OtherAt → EventLoop P → Option (EventLoop P)
  wakeup i idle s = none
  wakeup i pushed s =
      some (record s { others = set s.others i (if s.is_in_block then exchanging else idle) })
  wakeup i exchanging s = some (record s {
    others = set s.others i (if s.is_already_post_wakeup then idle else writing);
    is_already_post_wakeup = true;
  })
  wakeup i writing s = some (record s { others = set s.others i idle; signal = true })

  -- `pushAsyncProc` and `pushAfterLoopProc` by the loop's own thread
  unfoldable pub push_in_loop : P → EventLoop P → Option (EventLoop P)
  push_in_loop f s = if is_free s.at then some (record s { called = s.called ++ f ∷ [] }) else none

  unfoldable pub push_after_loop_proc : P → EventLoop P → Option (EventLoop P)
  push_after_loop_proc f s =
      if is_free s.at
      then some (record s {
        after_loop_procs = s.after_loop_procs ++ f ∷ [];
        after_given = s.after_given ++ f ∷ [];
      })
      else none

  -- `loop` up to `epoll_wait`
  unfoldable pub enter : ℕ → LoopAt → EventLoop P → Option (EventLoop P)
  enter timeout outside s =
      some (record s { at = waiting (if is_empty s.after_loop_procs then timeout else 0) })
  enter timeout (waiting t) s = none
  enter timeout (polled es) s = none
  enter timeout (handling es) s = none
  enter timeout reset s = none
  enter timeout ready s = none
  enter timeout running s = none
  enter timeout finishing s = none

  -- `epoll_wait` returns: with the eventfd only if it reads, and with at most as many events as fit
  unfoldable pub wait : List Event → LoopAt → EventLoop P → Option (EventLoop P)
  wait es (waiting t) s =
      if (if any_drains es then s.signal else true) && leb (length es) s.event_entries_num
      then some (record s { at = polled es; num_complete = length es })
      else none
  wait es outside s = none
  wait es (polled _) s = none
  wait es (handling _) s = none
  wait es reset s = none
  wait es ready s = none
  wait es running s = none
  wait es finishing s = none

  -- one procedure of `processAsyncProcs`, or its end and the swap of `processAfterLoopProcs`
  unfoldable pub process_async_procs : List P → EventLoop P → EventLoop P
  process_async_procs [] s = record s {
    at = finishing;
    copy_after_loop_procs = s.after_loop_procs;
    after_loop_procs = s.copy_after_loop_procs;
  }
  process_async_procs (f ∷ fs) s = record s { ran = s.ran ++ f ∷ []; copy_async_procs = fs }

  -- one procedure of `processAfterLoopProcs`, or its end and the growth of the array of events
  unfoldable pub process_after_loop_procs : List P → EventLoop P → EventLoop P
  process_after_loop_procs [] s = record s {
    at = outside;
    event_entries_num =
        if s.num_complete == s.event_entries_num
        then s.event_entries_num + 128
        else s.event_entries_num;
  }
  process_after_loop_procs (f ∷ fs) s = record s {
    after_ran = s.after_ran ++ f ∷ [];
    copy_after_loop_procs = fs;
  }

  -- `loop` behind `epoll_wait`
  unfoldable pub loop : LoopAt → EventLoop P → Option (EventLoop P)
  loop outside s = none
  loop (waiting t) s = none
  loop (polled es) s = some (record s { at = handling es; is_in_block = false })
  loop (handling (e ∷ es)) s = some (record s {
    at = handling es;
    signal = if drains e then false else s.signal;
    calls = s.calls ++ dispatch e;
  })
  loop (handling []) s = some (record s { at = reset; is_already_post_wakeup = false })
  loop reset s = some (record s { at = ready; is_in_block = true })
  loop ready s = some (record s {
    at = running;
    copy_async_procs = s.async_procs;
    async_procs = s.copy_async_procs;
  })
  loop running s = some (process_async_procs s.copy_async_procs s)
  loop finishing s = some (process_after_loop_procs s.copy_after_loop_procs s)

  unfoldable pub step : Act P → EventLoop P → Option (EventLoop P)
  step (push_async i f) s = elim (get_elem? s.others i) [
    | none ↦ none
    | some o ↦ begin_other i (some f) o s
  ]
  step (call_wakeup i) s = elim (get_elem? s.others i) [
    | none ↦ none
    | some o ↦ begin_other i none o s
  ]
  step (go_other i) s = elim (get_elem? s.others i) [ none ↦ none | some o ↦ wakeup i o s ]
  step (push_own f) s = push_in_loop f s
  step (push_after f) s = push_after_loop_proc f s
  step (call_loop timeout) s = enter timeout s.at s
  step (get_events es) s = wait es s.at s
  step go_loop s = loop s.at s

  unfoldable pub run : List (Act P) → EventLoop P → Option (EventLoop P)
  run [] s = some s
  run (a ∷ acts) s = elim (step a s) [ none ↦ none | some t ↦ run acts t ]
