-- ===== src/HttpServer.antt =====
-- src/net/http/HttpServer.cpp: what `handleHttp` does with the bytes of a connection that speaks
-- WebSocket, over the frames of `WebSocket`. The callback gets the bytes that are not yet consumed and
-- returns how many it consumed; `none` is the failed assert.
pub mod Chunks
pub mod Messages
pub mod Served
pub mod Limit
mod Tests
use netxy.Base.{
  ℕ, zero, suc, ◌+◌, ◌-◌, ◌*◌, min, take, Bool, true, false, ◌&&◌, ◌||◌, Option, none, some, List,
  [], ◌∷◌, ◌++◌, ◌==◌, length, drop, if◌then◌else◌,
}
use netxy.WebSocket.{Frame, extract}

-- `mWSCacheFrame`, and the calls of the WebSocket callback, each with the opcode and the payload
pub record Session : Type 0 where
  pub cache_frame : List ℕ
  pub calls : List (ℕ × List ℕ)

-- what the loop does with a frame
unfoldable pub handle_frame : Frame → Session → Option Session
handle_frame f s =
    if f.fin && (f.opcode == 1 || f.opcode == 2)
    then some (record {
      cache_frame = [];
      calls = s.calls ++ (f.opcode, s.cache_frame ++ f.payload) ∷ [];
    })
    else if f.opcode == 0
    then some (record s { cache_frame = s.cache_frame ++ f.payload })
    else if f.opcode == 9 || (f.opcode == 10 || f.opcode == 8)
    then some (record s { calls = s.calls ++ (f.opcode, f.payload) ∷ [] })
    else none

abbrev pub add_length : ℕ → Option (ℕ × Session) → Option (ℕ × Session)
add_length n none = none
add_length n (some (m, s)) = some (n + m, s)

-- the loop over the frames, with fuel
unfoldable pub serve : ℕ → List ℕ → Session → Option (ℕ × Session)
serve k [] s = some (0, s)
serve zero (b ∷ bytes) s = none
serve (suc k) (b ∷ bytes) s = elim (extract (b ∷ bytes) []) [
  | none ↦ some (0, s)
  | some f ↦ elim (handle_frame f s) [
    | none ↦ none
    | some t ↦ add_length f.frame_size (serve k (drop f.frame_size (b ∷ bytes)) t)
  ]
]

-- the data callback of a session that speaks WebSocket
unfoldable pub data_callback : List ℕ → Session → Option (ℕ × Session)
data_callback bytes s = serve (length bytes) bytes s

-- The connection calls it with each chunk of bytes that it got, behind those that were left, and keeps
-- what it did not consume, as long as its buffer has room for them.
unfoldable pub feed : List (List ℕ) → List ℕ → Session → Option (List ℕ × Session)
feed [] left s = some (left, s)
feed (chunk ∷ chunks) left s = elim (data_callback (left ++ chunk) s) [
  | none ↦ none
  | some (n, t) ↦ feed chunks (drop n (left ++ chunk)) t
]

-- The size up to which the receive buffer of a session may grow, as `handleHttp`'s callers set it.
abbrev pub max_recv_size : ℕ
max_recv_size = 32 * 1024 * 1024

-- The connection reads bytes that come to it into a buffer of `max` bytes: each read takes at most one byte
-- more than its number says, and no more than there is room for behind the bytes that were left. Without room,
-- or without bytes, it reads no more. What is left in the buffer, and what still waits, is the result.
unfoldable pub feed_limited :
    ℕ → List ℕ → List ℕ → List ℕ → Session → Option (List ℕ × List ℕ × Session)
feed_limited max [] incoming left s = some (left, incoming, s)
feed_limited max (size ∷ sizes) incoming left s =
    let amount = min (suc size) (max - length left) in
    let chunk = take amount incoming in
    if length chunk == 0 then some (left, incoming, s) else elim (data_callback (left ++ chunk) s) [
      | none ↦ none
      | some (n, t) ↦ feed_limited max sizes (drop amount incoming) (drop n (left ++ chunk)) t
    ]
