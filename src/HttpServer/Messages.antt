-- ===== src/HttpServer/Messages.antt =====
-- What is done with a frame that holds a whole message, and with one that holds a fragment.
use netxy.Base.{
  ℕ, suc, ◌^◌, ◌≤◌, ◌<◌, ◌≡◌, refl, true, false, Option, none, some, List, [], ◌∷◌, ◌++◌, arith,
  length, length-append, drop,
}
use netxy.WebSocket.{Frame, Rand, build, extract}
use netxy.WebSocket.Stream.{AllBytes}
use netxy.WebSocket.RoundTrip.{extract-build, length-build_two}
use netxy.HttpServer.{Session, handle_frame, add_length, serve, data_callback}
use netxy.HttpServer.Chunks.{serve-frame, serve-fault}

-- a text or a binary message, and the mask of its frame
pub record Message : Type 0 where
  pub payload : List ℕ
  pub opcode : ℕ
  pub masking : Option Rand

-- the bytes of messages, each in one frame
abbrev pub frames : List Message → List ℕ
frames [] = []
frames (m ∷ ms) = build m.payload m.opcode true m.masking ++ frames ms

abbrev pub AllSendable : List Message → Type 0
AllSendable [] = Unit
AllSendable (m ∷ ms) =
    (AllBytes m.payload × (length m.payload < 2 ^ 31) × (1 ≤ m.opcode) × (m.opcode ≤ 2))
    × AllSendable ms

-- what the callback is told
abbrev pub told : List Message → List (ℕ × List ℕ)
told [] = []
told (m ∷ ms) = (m.opcode, m.payload) ∷ told ms

pub handle-whole :
    (f : Frame) (calls : List (ℕ × List ℕ))
    → f.fin ≡ true
    → 1 ≤ f.opcode
    → f.opcode ≤ 2
    → handle_frame f (record { cache_frame = []; calls = calls })
      ≡ some (record { cache_frame = []; calls = calls ++ (f.opcode, f.payload) ∷ [] })
unfolding handle_frame
handle-whole f calls e h i = ground arith

pub serve_bytes :
    (k : ℕ) (bytes : List ℕ) (s : Session) {f : Frame} {t : Session}
    → 1 ≤ length bytes
    → extract bytes [] ≡ some f
    → handle_frame f s ≡ some t
    → serve (suc k) bytes s ≡ add_length f.frame_size (serve k (drop f.frame_size bytes) t)
serve_bytes k [] s h e g = absurd (omega arith)
serve_bytes k (b ∷ bs) s h e g = serve-frame k b bs s e g

handle-fragment :
    (f : Frame) (s : Session)
    → f.fin ≡ false
    → 1 ≤ f.opcode
    → f.opcode ≤ 2
    → handle_frame f s ≡ none
unfolding handle_frame
handle-fragment f s e h i = ground arith

-- The first fragment of a text or binary message, which is not the last one, fails the assert, whatever
-- follows it.
data_callback-fragment :
    (payload rest : List ℕ) (opcode : ℕ) (masking : Option Rand) (s : Session)
    → AllBytes payload
    → length payload < 2 ^ 31
    → 1 ≤ opcode
    → opcode ≤ 2
    → data_callback (build payload opcode false masking ++ rest) s ≡ none
unfolding data_callback
data_callback-fragment payload rest opcode masking s h short one two =
    first (build payload opcode false masking ++ rest)
      (omega (
        arith,
        length-append (build payload opcode false masking) rest,
        length-build_two payload opcode false masking,
      ))
      (extract-build payload rest [] opcode false masking h short (omega arith))
      (handle-fragment _ s refl one two)
  where
    first :
        (bytes : List ℕ) {f : Frame}
        → 1 ≤ length bytes
        → extract bytes [] ≡ some f
        → handle_frame f s ≡ none
        → serve (length bytes) bytes s ≡ none
    first [] h e g = absurd (omega arith)
    first (b ∷ bs) h e g = serve-fault (length bs) b bs s e g
