-- ===== src/DataSocket/Receive.antt =====
-- src/net/DataSocket.cpp: `recv` with `growRecvBuffer`, over the buffer of src/utils/buffer.c, on Linux.
-- The bytes that the system has for the connection, and whether it is gone behind them, are part of the
-- state; `recv` of the system gives all that it has, up to the room, or fails, as an argument says for each
-- round. What `malloc` returns is an argument. A room of 2^31 bytes or more, whose cast to `int` is not the
-- room, has no result.
pub mod Room
pub mod Round
pub mod Loop
use netxy.Base.{
  ℕ, zero, suc, ◌+◌, ◌*◌, ◌-◌, ◌^◌, Bool, true, false, not, ◌&&◌, ◌||◌, Option, none, some, List,
  [], ◌∷◌, ◌++◌, ltb, leb, ◌==◌, length, take, drop, if◌then◌else◌,
}
use netxy.Buffer.{
  Buffer, new, copy_in, get_read_valid_count, get_write_valid_count, get_write_ptr, adjust_to_head,
  add_write_pos, add_read_pos, write,
}

-- `GROW_BUFFER_SIZE`
abbrev pub grow_buffer_size : ℕ
grow_buffer_size = 1024

-- the bytes from the read position on, as the data callback sees them
abbrev pub readable : Buffer → List ℕ
readable b = take (get_read_valid_count b) (drop b.read_pos b.bytes)

-- `growRecvBuffer`, of a buffer that there is: the size may reach `max`
pub grow_recv_buffer : ℕ → (ℕ → List ℕ) → Buffer → Option Buffer
grow_recv_buffer max storage b =
    let size = b.data_len + grow_buffer_size in
    if leb size max
    then elim (new true (some (storage size)) size) [
      | none ↦ none
      | some fresh ↦ elim (write fresh (readable b)) [
        | none ↦ none
        | some (done, filled) ↦ some filled
      ]
    ]
    else some b

-- the first `growRecvBuffer`, of the constructor
pub new_recv_buffer : (ℕ → List ℕ) → Option Buffer
new_recv_buffer storage =
    let size = 16 * 1024 + grow_buffer_size in new true (some (storage size)) size

-- `DataCallback`: how many bytes it used, and whether it closed the connection, which `postDisConnect`
-- does at once in the loop's own thread
abbrev pub DataCallback : Type 0
DataCallback = List ℕ → ℕ × Bool

-- The connection, as `recv` sees it: whether `mFD` is not SOCKET_ERROR, its buffer and `mRecvData`, the
-- bytes that the system has for it, and those that the data callback used.
pub record Receiver : Type 0 where
  pub connected : Bool
  pub buffer : Buffer
  pub recv_data : Bool
  pub incoming : List ℕ
  pub consumed : List ℕ

-- the call of the system, into the room behind the write position
pub receive : Receiver → Option Receiver
receive r =
    let room = get_write_valid_count r.buffer in
    let chunk = take room r.incoming in
    if leb (2 ^ 31) room
    then none
    else elim (copy_in r.buffer.bytes (get_write_ptr r.buffer) chunk) [
      | none ↦ none
      | some bytes ↦ some (record r {
        buffer = add_write_pos (record r.buffer { bytes = bytes }) (length chunk);
        incoming = drop room r.incoming;
      })
    ]

-- the call of the data callback; whether the round goes on
pub hand_over : Option DataCallback → Receiver → Bool × Receiver
hand_over none r = (true, r)
hand_over (some callback) r =
    let (used, closes) = callback (readable r.buffer) in
    if leb used (get_read_valid_count r.buffer)
    then (
      true,
      record r {
        connected = r.connected && not closes;
        buffer = add_read_pos r.buffer used;
        recv_data = true;
        consumed = r.consumed ++ take used (readable r.buffer);
      },
    )
    else (false, record r { connected = r.connected && not closes; recv_data = true })

-- the end of a round
pub make_room : Buffer → Buffer
make_room b =
    if (get_write_valid_count b == 0) || (get_read_valid_count b == 0) then adjust_to_head b else b

-- a round in which the system gives bytes
pub round : ℕ → (ℕ → List ℕ) → Option DataCallback → Receiver → Option (Bool × Receiver)
round max storage callback r = elim (receive r) [
  | none ↦ none
  | some got ↦
      let b = got.buffer in
      elim (if get_read_valid_count b == b.data_len
        then grow_recv_buffer max storage b
        else some b) [
          | none ↦ none
          | some grown ↦
              let (again, after) = hand_over callback (record got { buffer = grown }) in
              some
                (again, if again then record after { buffer = make_room after.buffer } else after)
        ]
]

-- `recv`, and `must_close`; round `k` has the callback `callbacks k`, and fails if `fails k`
pub recv_steps :
    ℕ
    → (ℕ → List ℕ)
    → (ℕ → Option DataCallback)
    → (ℕ → Bool)
    → Bool
    → ℕ
    → ℕ
    → Receiver
    → Option (Bool × Receiver)
recv_steps max storage callbacks fails gone k zero r = none
recv_steps max storage callbacks fails gone k (suc fuel) r =
    if not r.connected
    then some (false, r)
    else if get_write_valid_count r.buffer == 0
    then some (false, r)
    else if fails k
    then some (true, r)
    else if length r.incoming == 0
    then some (gone, r)
    else elim (round max storage (callbacks k) r) [
      | none ↦ none
      | some (again, after) ↦
          let rest = recv_steps max storage callbacks fails gone (suc k) fuel after in
          if again then rest else some (false, after)
    ]

-- the loop, with a round for each byte and one more
pub recv :
    ℕ
    → (ℕ → List ℕ)
    → (ℕ → Option DataCallback)
    → (ℕ → Bool)
    → Bool
    → Receiver
    → Option (Bool × Receiver)
recv max storage callbacks fails gone r =
    recv_steps max storage callbacks fails gone 0 (suc (length r.incoming)) r
