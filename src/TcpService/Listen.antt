-- ===== src/TcpService/Listen.antt =====
-- src/net/TCPService.cpp, built without OpenSSL: how descriptors come to the loops, by the listening thread
-- and by `addDataSocket`, until `DataSocket::onEnterEventLoop`. The answers of the system, of `rand`, and of
-- `isInLoopThread` are part of the turns. `none` is a failed assert: the `delete` of an open connection.
pub mod Valid
pub mod Arrival
mod Tests
use netxy.Base.{
  ℕ, zero, suc, ◌+◌, ◌%◌, Bool, true, false, ◌&&◌, ◌||◌, not, Option, none, some, List, [], ◌∷◌,
  ◌++◌, ◌==◌, is_some, if◌then◌else◌,
}

-- Where the listening thread is: in `accept`, at the test of its outer loop, or behind it
pub data Listener : Type 0 where
  accepting : Listener
  testing : Listener
  ended : Listener

-- `posted` holds the loops and the descriptors for which `onEnterEventLoop` waits. `arrived`, `entered`,
-- `closed` and `lost` record what came, what entered a loop, what was closed, and what was dropped open.
pub record Service : Type 0 where
  pub loop_num : ℕ
  pub run_listen : Bool
  pub listener : Listener
  pub posted : List (ℕ × ℕ)
  pub arrived : List ℕ
  pub entered : List (ℕ × ℕ)
  pub closed : List ℕ
  pub lost : List ℕ

-- `startWorkerThread`, then `startListen` up to the first `accept`
unfoldable pub start : ℕ → Service
start loop_num = record {
  loop_num = loop_num;
  run_listen = true;
  listener = accepting;
  posted = [];
  arrived = [];
  entered = [];
  closed = [];
  lost = [];
}

-- the first loop whose thread is the caller's
unfoldable pub find_loop : (ℕ → Bool) → ℕ → Option ℕ
find_loop in_thread zero = none
find_loop in_thread (suc n) = elim (find_loop in_thread n) [
  | some i ↦ some i
  | none ↦ if in_thread n then some n else none
]

-- `onEnterEventLoop`, with the answers of `linkChannel` and `checkRead`, and the `delete` behind it
unfoldable pub on_enter_event_loop : ℕ → ℕ → Bool → Bool → Service → Service
on_enter_event_loop l fd linked read s =
    if linked && read
    then record s { entered = s.entered ++ (l, fd) ∷ [] }
    else record s { closed = s.closed ++ fd ∷ [] }

-- `pushAsyncProc` of the loop, which runs the procedure at once in the loop's own thread
unfoldable pub post_channel : (ℕ → Bool) → Bool → Bool → ℕ → ℕ → Service → Service
post_channel in_thread linked read l fd s =
    if in_thread l
    then on_enter_event_loop l fd linked read s
    else record s { posted = s.posted ++ (l, fd) ∷ [] }

-- `helpAddChannel`
unfoldable pub help_add_channel : Bool → (ℕ → Bool) → Bool → Bool → ℕ → ℕ → Service → Bool × Service
help_add_channel force_same_thread_loop in_thread linked read rand fd s =
    if s.loop_num == 0
    then (false, s)
    else if force_same_thread_loop
    then elim (find_loop in_thread s.loop_num) [
      | none ↦ (false, s)
      | some l ↦ (true, post_channel in_thread linked read l fd s)
    ]
    else (true, post_channel in_thread linked read (rand % s.loop_num) fd s)

-- the callback that `startListen` gives to the listening thread, which is no loop's
unfoldable pub on_accept : ℕ → ℕ → Service → Option Service
on_accept rand fd s =
    let added = help_add_channel false (λ i. false) false false rand fd s in
    if added.0 then some added.1 else none

-- `addDataSocket`
unfoldable pub add_data_socket :
    ℕ → Bool → Bool → (ℕ → Bool) → Bool → Bool → ℕ → Service → Option (Bool × Service)
add_data_socket fd is_use_ssl force_same_thread_loop in_thread linked read rand s =
    if is_use_ssl
    then some (false, record s { closed = s.closed ++ fd ∷ [] })
    else let added = help_add_channel force_same_thread_loop in_thread linked read rand fd s in
      if added.0 then some (true, added.1) else none

-- the first descriptor that waits for a loop, and those that wait then
unfoldable pub take_posted : ℕ → List (ℕ × ℕ) → Option ℕ × List (ℕ × ℕ)
take_posted l [] = (none, [])
take_posted l ((k, fd) ∷ posted) =
    let rest = take_posted l posted in
    if k == l then (some fd, posted) else (rest.0, (k, fd) ∷ rest.1)

-- `runListen`: `accept` fails; or it gives a descriptor, for which the callback runs with a number of `rand`;
-- or the outer loop is tested. Then `closeListenThread`, `addDataSocket`, and a procedure that a loop runs.
pub data Turn : Type 0 where
  accept_fails : Turn
  accept_gives : (fd rand : ℕ) → Turn
  test_run : Turn
  close_listen : Turn
  add_turn :
      (fd : ℕ) (is_use_ssl force_same_thread_loop : Bool) (in_thread : ℕ → Bool)
      (linked read : Bool) (rand : ℕ)
      → Turn
  enter_turn : (l : ℕ) (linked read : Bool) → Turn

unfoldable pub came : ℕ → Service → Service
came fd s = record s { arrived = s.arrived ++ fd ∷ [] }

unfoldable pub accept : ℕ → ℕ → Service → Option Service
accept fd rand s =
    if s.run_listen
    then on_accept rand fd (record (came fd s) { listener = testing })
    else some (record (came fd s) { listener = testing; lost = s.lost ++ fd ∷ [] })

unfoldable pub listen_at : Listener → Turn → Service → Option Service
listen_at accepting (accept_gives fd rand) s = accept fd rand s
listen_at testing test_run s =
    some (record s { listener = if s.run_listen then accepting else ended })
listen_at at t s = some s

unfoldable pub turn : Turn → Service → Option Service
turn close_listen s = some (record s { run_listen = false })
turn (add_turn fd is_use_ssl force in_thread linked read rand) s =
    elim (add_data_socket fd is_use_ssl force in_thread linked read rand (came fd s)) [
      | none ↦ none
      | some (ret, t) ↦ some t
    ]
turn (enter_turn l linked read) s = elim (take_posted l s.posted).0 [
  | none ↦ some s
  | some fd ↦
      some (on_enter_event_loop l fd linked read (record s { posted = (take_posted l s.posted).1 }))
]
turn t s = listen_at s.listener t s

unfoldable pub run : List Turn → Service → Option Service
run [] s = some s
run (t ∷ ts) s = elim (turn t s) [ none ↦ none | some u ↦ run ts u ]
