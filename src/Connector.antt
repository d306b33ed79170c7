-- ===== src/Connector.antt =====
-- src/net/Connector.cpp: a thread that makes connections for others. Requests come over a `MsgQueue`; what
-- the system answers is part of an action, and the poll set is an interface, which `FdSet` meets. `none`
-- is for answers that the system cannot give: a new descriptor that is pending already, or fewer answers
-- than requests to read. A call of `asyncConnect` stands before or behind a round: the only thing that both
-- change is the shared list, which a round takes at one point.
pub mod Counts
pub mod Rounds
pub mod Requests
mod Late
pub mod Served
mod OverFdSet
mod Tests
use netxy.Base.{
  ℕ, zero, suc, ◌+◌, ◌<◌, Bool, true, false, ◌&&◌, not, Option, none, some, List, [], ◌∷◌, ◌++◌,
  ltb, leb, ◌==◌, length, is_some, if◌then◌else◌,
}
use netxy.MsgQueue.{MsgQueue, push, force_sync_write, sync_read, pop_back}

-- `AsyncConnectAddr`, without the address
pub record AsyncConnectAddr : Type 0 where
  pub timeout : ℕ
  pub uid : ℕ

-- An entry of `mConnectingInfos`, with its descriptor
pub record ConnectingInfo : Type 0 where
  pub fd : ℕ
  pub start_connect_time : ℕ
  pub timeout : ℕ
  pub uid : ℕ

-- What the thread asks of the poll set, always for writing and errors: to add and to delete a descriptor,
-- to poll, which says if a descriptor is ready, and to check one.
pub record PollOps : Type 1 where
  pub Carrier : Type 0
  pub Answer : Type 0
  pub create : Carrier
  pub add : Carrier → ℕ → Carrier
  pub del : Carrier → ℕ → Carrier
  pub poll : Answer → Carrier → Bool × Carrier
  pub has_error : Carrier → ℕ → Bool
  pub is_writable : Carrier → ℕ → Bool

-- the assignment to an entry of `mConnectingInfos`, a map in the order of the descriptors
unfoldable pub put_info : ConnectingInfo → List ConnectingInfo → List ConnectingInfo
put_info c [] = c ∷ []
put_info c (d ∷ infos) =
    if ltb c.fd d.fd
    then c ∷ d ∷ infos
    else if c.fd == d.fd
    then c ∷ infos
    else d ∷ put_info c infos

-- `insert` of `mConnectingFds`
unfoldable pub put_fd : ℕ → List ℕ → List ℕ
put_fd fd [] = fd ∷ []
put_fd fd (d ∷ fds) =
    if ltb fd d then fd ∷ d ∷ fds else if fd == d then fd ∷ fds else d ∷ put_fd fd fds

-- `find` and `erase`
unfoldable pub find_info : ℕ → List ConnectingInfo → Option ConnectingInfo
find_info fd [] = none
find_info fd (c ∷ infos) = if c.fd == fd then some c else find_info fd infos

unfoldable pub erase_info : ℕ → List ConnectingInfo → List ConnectingInfo
erase_info fd [] = []
erase_info fd (c ∷ infos) = if c.fd == fd then infos else c ∷ erase_info fd infos

unfoldable pub erase_fd : ℕ → List ℕ → List ℕ
erase_fd fd [] = []
erase_fd fd (d ∷ fds) = if d == fd then fds else d ∷ erase_fd fd fds

-- How `ox_socket_create` and `connect` end: with no descriptor; or with one, and an error, EINPROGRESS at
-- a time, or success.
pub data ConnectAnswer : Type 0 where
  no_socket : ConnectAnswer
  refused : ℕ → ConnectAnswer
  in_progress : ℕ → ℕ → ConnectAnswer
  connected : ℕ → ConnectAnswer

module _ (o : PollOps) where
  -- `ThreadConnector` and `ConnectorWorkThread`. `calls` are those of the callback, with the descriptor, or
  -- none for -1, and the uid; `asked`, `opened` and `closed` record the requests and the descriptors.
  pub record Connector : Type 0 where
    pub connect_requests : MsgQueue AsyncConnectAddr
    pub connecting_infos : List ConnectingInfo
    pub connecting_fds : List ℕ
    pub fd_set : o.Carrier
    pub calls : List (Option ℕ × ℕ)
    pub asked : List ℕ
    pub opened : List ℕ
    pub closed : List ℕ

  unfoldable pub new : Connector
  new = record {
    connect_requests = record { read_list = []; write_list = []; shared_list = [] };
    connecting_infos = [];
    connecting_fds = [];
    fd_set = o.create;
    calls = [];
    asked = [];
    opened = [];
    closed = [];
  }

  -- `asyncConnect`, without the wake-up
  unfoldable pub async_connect : AsyncConnectAddr → Connector → Connector
  async_connect addr s = record s {
    connect_requests = force_sync_write (push addr s.connect_requests);
    asked = s.asked ++ addr.uid ∷ [];
  }

  -- the body of the second loop of `checkConnectStatus`, for a descriptor that failed or not
  unfoldable pub complete : ℕ → Bool → Connector → Connector
  complete fd failed s =
      let t : Connector = record s {
        fd_set = o.del s.fd_set fd;
        connecting_fds = erase_fd fd s.connecting_fds;
      } in
      elim (find_info fd s.connecting_infos) [
        | none ↦ t
        | some c ↦
            if failed
            then record t {
              connecting_infos = erase_info fd s.connecting_infos;
              closed = s.closed ++ fd ∷ [];
              calls = s.calls ++ (none, c.uid) ∷ [];
            }
            else record t {
              connecting_infos = erase_info fd s.connecting_infos;
              calls = s.calls ++ (some fd, c.uid) ∷ [];
            }
      ]

  -- Is a descriptor in the first loop's complete_fds, and is it in failed_fds? `succeeds` tells what
  -- `getsockopt` says of it, in `isConnectSuccess`.
  unfoldable pub is_complete : o.Carrier → ℕ → Bool
  is_complete f fd = if o.has_error f fd then true else o.is_writable f fd

  unfoldable pub is_failed : (ℕ → Bool) → o.Carrier → ℕ → Bool
  is_failed succeeds f fd = if o.has_error f fd then true else not (succeeds fd)

  -- The second loop, with the poll set as it was in the first one, over the descriptors as they were then
  unfoldable pub complete_all : (ℕ → Bool) → o.Carrier → List ℕ → Connector → Connector
  complete_all succeeds polled [] s = s
  complete_all succeeds polled (fd ∷ fds) s =
      complete_all succeeds polled fds
        (if is_complete polled fd then complete fd (is_failed succeeds polled fd) s else s)

  -- `checkConnectStatus`
  unfoldable pub check_connect_status : o.Answer → (ℕ → Bool) → Connector → Connector
  check_connect_status answer succeeds s =
      let (ready, polled) = o.poll answer s.fd_set in
      if ready
      then complete_all succeeds polled s.connecting_fds (record s { fd_set = polled })
      else record s { fd_set = polled }

  -- the loop of `checkTimeout`, with the entries that it has passed and those before it
  unfoldable pub expire : ℕ → List ConnectingInfo → List ConnectingInfo → Connector → Connector
  expire now passed [] s = record s { connecting_infos = passed }
  expire now passed (c ∷ infos) s =
      let gone : Connector = record s {
        fd_set = o.del s.fd_set c.fd;
        connecting_fds = erase_fd c.fd s.connecting_fds;
        closed = s.closed ++ c.fd ∷ [];
        calls = s.calls ++ (none, c.uid) ∷ [];
      } in
      elim (leb (c.start_connect_time + c.timeout) now) [
        | true ↦ expire now passed infos gone
        | false ↦ expire now (passed ++ c ∷ []) infos s
      ]

  -- `checkTimeout`
  unfoldable pub check_timeout : ℕ → Connector → Connector
  check_timeout now s = expire now [] s.connecting_infos s

  -- the body of the loop of `pollConnectRequest`
  unfoldable pub connect_one : AsyncConnectAddr → ConnectAnswer → Connector → Option Connector
  connect_one addr no_socket s = some (record s { calls = s.calls ++ (none, addr.uid) ∷ [] })
  connect_one addr (refused fd) s = some (record s {
    opened = s.opened ++ fd ∷ [];
    closed = s.closed ++ fd ∷ [];
    calls = s.calls ++ (none, addr.uid) ∷ [];
  })
  connect_one addr (in_progress fd now) s =
      if is_some (find_info fd s.connecting_infos)
      then none
      else some (record s {
        opened = s.opened ++ fd ∷ [];
        connecting_infos =
            put_info
              (record { fd = fd; start_connect_time = now; timeout = addr.timeout; uid = addr.uid })
              s.connecting_infos;
        connecting_fds = put_fd fd s.connecting_fds;
        fd_set = o.add s.fd_set fd;
      })
  connect_one addr (connected fd) s =
      some (record s { opened = s.opened ++ fd ∷ []; calls = s.calls ++ (some fd, addr.uid) ∷ [] })

  -- `pollConnectRequest`, with an answer for each round
  unfoldable pub poll_connect_request : List ConnectAnswer → Connector → Option Connector
  poll_connect_request [] s = elim (pop_back s.connect_requests).0 [
    | none ↦ some s
    | some addr ↦ none
  ]
  poll_connect_request (a ∷ answers) s = elim (pop_back s.connect_requests).0 [
    | none ↦ some s
    | some addr ↦
        elim (connect_one addr a
          (record s { connect_requests = (pop_back s.connect_requests).1 })) [
            | none ↦ none
            | some t ↦ poll_connect_request answers t
          ]
  ]

  -- what the threads do: a call of `asyncConnect`, or a round of `run`
  pub data Turn : Type 0 where
    ask : AsyncConnectAddr → Turn
    round : o.Answer → (ℕ → Bool) → List ConnectAnswer → ℕ → Turn

  unfoldable pub turn : Turn → Connector → Option Connector
  turn (ask addr) s = some (async_connect addr s)
  turn (round answer succeeds answers now) s =
      let t = check_connect_status answer succeeds s in
      elim (poll_connect_request answers
        (record t { connect_requests = sync_read t.connect_requests })) [
          | none ↦ none
          | some u ↦ some (check_timeout now u)
        ]

  unfoldable pub run : List Turn → Connector → Option Connector
  run [] s = some s
  run (a ∷ turns) s = elim (turn a s) [ none ↦ none | some t ↦ run turns t ]
