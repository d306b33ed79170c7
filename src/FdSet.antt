-- ===== src/FdSet.antt =====
-- src/utils/fdset.c: the descriptors that `poll` is asked about, with the events wanted of each. A
-- descriptor is only compared, so it is a number; a `short` of flags is the list of its bits. The
-- three masks are platform constants, and what `malloc` and `poll` answer is an argument.
pub mod Bits
pub mod Table
pub mod Interest
mod Tests
use netxy.Base.{
  ℕ, ◌+◌, Bool, true, false, not, ◌||◌, ◌&&◌, Option, none, some, List, [], ◌∷◌, ◌++◌, ◌==◌, ltb,
  length, is_some, if◌then◌else◌,
}
use netxy.FdSet.Bits.{Flags, or_flags, clear_flags, common, is_zero}

-- `struct pollfd`
pub record PollFd : Type 0 where
  pub fd : ℕ
  pub events : Flags
  pub revents : Flags

-- `struct fdset_s`: the first `nfds` entries of `pollFds`, and the size of the array. The entries
-- behind them are never read.
pub record FdSet : Type 0 where
  pub poll_fds : List PollFd
  pub limit_size : ℕ

-- the bits of `enum CheckType` that `type` has
pub record Checks : Type 0 where
  pub read : Bool
  pub write : Bool
  pub error : Bool

-- CHECK_READ_FLAG, CHECK_WRITE_FLAG and CHECK_ERROR_FLAG
pub record Masks : Type 0 where
  pub read : Flags
  pub write : Flags
  pub error : Flags

-- `upstepPollfd`: `got` is whether `malloc` succeeds.
pub upstep_pollfd : Bool → FdSet → ℕ → FdSet
upstep_pollfd got f up_size =
    if ltb 0 up_size && got then record f { limit_size = f.limit_size + up_size } else f

-- `ox_fdset_new`, with what its two allocations give
pub new : Bool → Bool → Option FdSet
unfolding upstep_pollfd
new false array = none
new true array = some (upstep_pollfd array (record { poll_fds = []; limit_size = 0 }) 1024)

-- `findPollfd`
pub find : List PollFd → ℕ → Option PollFd
find [] fd = none
find (p ∷ ps) fd = if p.fd == fd then some p else find ps fd

-- a write through the pointer that `findPollfd` returned
pub change : (PollFd → PollFd) → List PollFd → ℕ → List PollFd
change edit [] fd = []
change edit (p ∷ ps) fd = if p.fd == fd then edit p ∷ ps else p ∷ change edit ps fd

-- `TryRemovePollFd`: the entries behind the first match move down by one.
pub try_remove : List PollFd → ℕ → List PollFd
try_remove [] fd = []
try_remove (p ∷ ps) fd = if p.fd == fd then ps else p ∷ try_remove ps fd

-- the first test of `ox_fdset_add`
pub grow : Bool → FdSet → FdSet
grow got f = if f.limit_size == length f.poll_fds then upstep_pollfd got f 128 else f

-- the real add: an entry at the end for a descriptor that has none
pub with_entry : PollFd → List PollFd → List PollFd
with_entry fresh ps = if is_some (find ps fresh.fd) then ps else ps ++ (fresh ∷ [])

module _ (m : Masks) where
  -- the assignments of `ox_fdset_add`; it sets nothing for an error check
  pub wanted : Checks → Flags → Flags
  wanted c events =
      let with_read = if c.read then or_flags events m.read else events in
      if c.write then or_flags with_read m.write else with_read

  -- `ox_fdset_add`; `stale` is what the memory of a new entry holds in its field `revents`, and
  -- `zero` is 0 in the width of the flags.
  pub add : Bool → Flags → Flags → FdSet → ℕ → Checks → FdSet
  add got zero stale f fd c =
      let g = grow got f in
      let fresh : PollFd = record { fd = fd; events = zero; revents = stale } in
      if ltb (length g.poll_fds) g.limit_size
      then record g {
        poll_fds =
            change (λ p. record p { events = wanted c p.events }) (with_entry fresh g.poll_fds) fd;
      }
      else g

  -- the assignments of `ox_fdset_del`
  pub unwanted : Checks → Flags → Flags
  unwanted c events =
      let less_read = if c.read then clear_flags events m.read else events in
      let less_write = if c.write then clear_flags less_read m.write else less_read in
      if c.error then clear_flags less_write m.error else less_write

  -- the rest of `ox_fdset_del`, at the entry found
  pub del_found : FdSet → ℕ → Checks → PollFd → FdSet
  del_found f fd c p =
      let entries = change (λ q. record q { events = unwanted c q.events }) f.poll_fds fd in
      if is_zero (unwanted c p.events)
      then record f { poll_fds = try_remove entries fd }
      else record f { poll_fds = entries }

  -- `ox_fdset_del`
  pub del : FdSet → ℕ → Checks → FdSet
  del f fd c = elim (find f.poll_fds fd) [ none ↦ f | some p ↦ del_found f fd c p ]

  -- `ox_fdset_check`
  pub check : FdSet → ℕ → Checks → Bool
  check f fd c = elim (find f.poll_fds fd) [
    | none ↦ false
    | some p ↦
        (c.read && not (is_zero (common p.revents m.read)))
        || ((c.write && not (is_zero (common p.revents m.write)))
            || (c.error && not (is_zero (common p.revents m.error))))
  ]

-- How `poll` ends: with an error, EINTR or another, or with a number of descriptors and the events of
-- each entry.
pub data PollAnswer : Type 0 where
  interrupted failed : PollAnswer
  ready : ℕ → List Flags → PollAnswer

-- what `ox_fdset_poll` returns: -1, or a number
pub data PollResult : Type 0 where
  minus_one : PollResult
  count : ℕ → PollResult

report : List PollFd → List Flags → List PollFd
report [] found = []
report (p ∷ ps) [] = p ∷ ps
report (p ∷ ps) (r ∷ found) = record p { revents = r } ∷ report ps found

-- `ox_fdset_poll`
pub poll : FdSet → PollAnswer → PollResult × FdSet
poll f interrupted = (count 0, f)
poll f failed = (minus_one, f)
poll f (ready n found) = (count n, record f { poll_fds = report f.poll_fds found })
