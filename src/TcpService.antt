-- ===== src/TcpService.antt =====
-- src/net/TCPService.cpp: how a session id names a connection. The part of `TcpService` for one loop is
-- the table of its connections over `TypeIds`, and runs in that loop's thread only; `none` is a failed
-- assert, an exception, or a use of a connection that was deleted.
mod Ids
mod Valid
mod Entering
mod Closing
pub mod Names
pub mod Cached
pub mod Listen
pub mod Worker
mod Tests
use netxy.Base.{
  ℕ, zero, suc, ◌+◌, ◌*◌, ◌/◌, ◌%◌, ◌^◌, Bool, true, false, ◌&&◌, ◌||◌, Option, none, some, List,
  [], ◌∷◌, ◌++◌, ltb, ◌==◌, length, get_elem?, set, total, count, replicate, if◌then◌else◌,
}
use netxy.TypeIds.{new as new_ids, TypeIds, claim_id, reclaim_id, set_value, get_value}

-- `SessionId`, as the integer that its fields make in memory, the first one lowest
unfoldable pub pack : ℕ → ℕ → ℕ → ℕ
pack loop_index index iid = loop_index % 2 ^ 16 + index % 2 ^ 16 * 2 ^ 16 + iid % 2 ^ 32 * 2 ^ 32

unfoldable pub loop_index_of : ℕ → ℕ
loop_index_of id = id % 2 ^ 16

unfoldable pub index_of : ℕ → ℕ
index_of id = id / 2 ^ 16 % 2 ^ 16

unfoldable pub iid_of : ℕ → ℕ
iid_of id = id / 2 ^ 32 % 2 ^ 32

-- The entries of one loop in `mDataSockets` and `mIncIds`, and its connections: the user data of each
-- that entered, in that order, `none` for one that was deleted. `given` and `calls` record the ids that
-- were given out, and the connections that were called, each with the id.
pub record Sessions : Type 0 where
  pub data_sockets : TypeIds
  pub inc_id : ℕ
  pub sockets : List (Option ℕ)
  pub given : List ℕ
  pub calls : List (ℕ × ℕ)

-- `MakeID`
unfoldable pub make_id : ℕ → Sessions → Option (ℕ × Sessions)
make_id loop_index s = elim (claim_id s.data_sockets) [
  | none ↦ none
  | some (index, after) ↦
      some
        (pack loop_index index s.inc_id, record s { data_sockets = after; inc_id = s.inc_id + 1 })
]

-- the enter callback that `helpAddChannel` sets
unfoldable pub on_enter : ℕ → Sessions → Option Sessions
on_enter loop_index s = elim (make_id loop_index s) [
  | none ↦ none
  | some (id, t) ↦ elim (set_value (some (length t.sockets)) (index_of id) t.data_sockets) [
    | none ↦ none
    | some after ↦ some (record t {
      data_sockets = after;
      sockets = t.sockets ++ some id ∷ [];
      given = t.given ++ id ∷ [];
    })
  ]
]

-- `procDataSocketClose` of a connection with its user data, and the `delete` behind it
unfoldable pub proc_data_socket_close : ℕ → ℕ → Sessions → Option Sessions
proc_data_socket_close c id s = elim (set_value none (index_of id) s.data_sockets) [
  | none ↦ none
  | some t ↦ elim (reclaim_id (index_of id) t) [
    | none ↦ none
    | some after ↦ some (record s { data_sockets = after; sockets = set s.sockets c none })
  ]
]

-- `getUserData`
unfoldable pub user_data : ℕ → Sessions → Option ℕ
user_data c s = elim (get_elem? s.sockets c) [ none ↦ none | some o ↦ o ]

-- the test of `send` and `postSessionAsyncProc`, and the connection that it finds
unfoldable pub find : ℕ → Sessions → Option (Option ℕ)
find id s = elim (get_value (index_of id) s.data_sockets) [
  | none ↦ none
  | some none ↦ some none
  | some (some c) ↦ elim (user_data c s) [
    | none ↦ none
    | some ud ↦ some (if ud == id then some c else none)
  ]
]

-- what `send` and `postSessionAsyncProc` do in the loop's thread
unfoldable pub call : ℕ → Sessions → Option Sessions
call id s = elim (find id s) [
  | none ↦ none
  | some none ↦ some s
  | some (some c) ↦ some (record s { calls = s.calls ++ (id, c) ∷ [] })
]

unfoldable pub new : Sessions
unfolding new_ids
new = record { data_sockets = new_ids; inc_id = 0; sockets = []; given = []; calls = [] }

-- connections that were not deleted
abbrev pub alive : Option ℕ → ℕ
alive none = 0
alive (some id) = 1

-- The limits of the types: the 16 bits of an index, with the steps of 100 in which the table grows, and
-- the `int` that is counted up.
unfoldable pub has_room : Sessions → Bool
has_room s = ltb (total alive s.sockets) 65500 && ltb (length s.sockets) (2 ^ 31)

-- A connection enters; one is closed, if it is there; a procedure for an id runs.
pub data Event : Type 0 where
  enter_event : Event
  close_event : ℕ → Event
  call_event : ℕ → Event

unfoldable pub step : ℕ → Event → Sessions → Option Sessions
step loop_index enter_event s = on_enter loop_index s
step loop_index (close_event c) s = elim (user_data c s) [
  | none ↦ some s
  | some id ↦ proc_data_socket_close c id s
]
step loop_index (call_event id) s = call id s

unfoldable pub run : ℕ → List Event → Sessions → Option Sessions
run loop_index [] s = some s
run loop_index (e ∷ es) s = elim (step loop_index e s) [
  | none ↦ none
  | some t ↦ run loop_index es t
]

-- Does a connection enter within the limits, and is an id that is called one that was given out?
abbrev pub is_allowed : Event → Sessions → Bool
is_allowed enter_event s = has_room s
is_allowed (close_event c) s = true
is_allowed (call_event id) s = ltb 0 (count id s.given)

abbrev pub goes_on : (Sessions → Bool) → Option Sessions → Bool
goes_on test none = true
goes_on test (some s) = test s

-- and so for a run, event by event
unfoldable pub all_allowed : ℕ → List Event → Sessions → Bool
all_allowed loop_index [] s = true
all_allowed loop_index (e ∷ es) s =
    is_allowed e s && goes_on (all_allowed loop_index es) (step loop_index e s)
