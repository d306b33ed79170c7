-- ===== src/WebSocket.antt =====
-- src/net/http/WebSocketFormat.h: building the frames of a WebSocket and extracting them from a buffer.
-- Bytes are numbers below 256, and `size_t` is not bounded; a frame type is its code. What a failed
-- extraction leaves in its outputs is not modelled. The digest and base64 are arguments.
pub mod Bytes
pub mod Stream
pub mod RoundTrip
pub mod Prefix
mod Tests
use Prim.Native.Nat.{bit_and, bit_or, bit_xor}
use netxy.Base.{
  ℕ, zero, suc, ◌+◌, ◌*◌, ◌/◌, ◌%◌, ◌^◌, Bool, true, false, not, ◌||◌, Option, none, some, List, [],
  ◌∷◌, ◌++◌, ltb, leb, ◌==◌, length, get_elem?, take, drop, set, if◌then◌else◌,
}

-- `buffer[i]` inside a buffer
abbrev pub byte_at : List ℕ → ℕ → ℕ
byte_at buffer i = elim (get_elem? buffer i) [ none ↦ 0 | some b ↦ b ]

-- what `rand` returns in the four rounds of the loop over `mask`
pub record Rand : Type 0 where
  pub r0 : ℕ
  pub r1 : ℕ
  pub r2 : ℕ
  pub r3 : ℕ

-- `uint8_t mask[4]`
abbrev pub mask_bytes : Rand → List ℕ
mask_bytes r = (r.r0 % 256) ∷ (r.r1 % 256) ∷ (r.r2 % 256) ∷ (r.r3 % 256) ∷ []

-- the loops that mask and that unmask: byte `i` with `mask[i % 4]`
unfoldable pub xor_mask : List ℕ → ℕ → List ℕ → List ℕ
xor_mask mask i [] = []
xor_mask mask i (b ∷ bs) = bit_xor b (byte_at mask (i % 4)) ∷ xor_mask mask (i + 1) bs

-- the length that `wsFrameBuild` writes: 7 bits, 126 and 16 bits, or 127 and 64 bits
unfoldable pub length_bytes : ℕ → List ℕ
length_bytes len =
    if leb len 125
    then len ∷ []
    else if leb len 0xffff
    then 126 ∷ (len / 2 ^ 8 % 256) ∷ (len % 256) ∷ []
    else 127
      ∷ 0
      ∷ 0
      ∷ 0
      ∷ 0
      ∷ (len / 2 ^ 24 % 256)
      ∷ (len / 2 ^ 16 % 256)
      ∷ (len / 2 ^ 8 % 256)
      ∷ (len % 256)
      ∷ []

-- `wsFrameBuild`, with the values of `rand` if it masks
unfoldable pub build : List ℕ → ℕ → Bool → Option Rand → List ℕ
build payload frame_type is_fin masking =
    let head = bit_or (frame_type % 256) (if is_fin then 0x80 else 0) in
    let frame : List ℕ = head ∷ length_bytes (length payload) in
    elim masking [
      | none ↦ frame ++ payload
      | some r ↦
          set frame 1 (bit_or (byte_at frame 1) 0x80)
          ++ (mask_bytes r ++ xor_mask (mask_bytes r) 0 payload)
    ]

-- the outputs of `wsFrameExtractBuffer`
pub record Frame : Type 0 where
  pub payload : List ℕ
  pub opcode : ℕ
  pub frame_size : ℕ
  pub fin : Bool

-- its `payloadlen` and `pos` behind the length
pub read_length : List ℕ → Option (ℕ × ℕ)
read_length buffer =
    let short = bit_and (byte_at buffer 1) 0x7f in
    if short == 126
    then if ltb (length buffer) 4
      then none
      else some (byte_at buffer 2 * 2 ^ 8 + byte_at buffer 3, 4)
    else if short == 127
    then if ltb (length buffer) 10
      then none
      else if not (byte_at buffer 2 == 0)
          || (not (byte_at buffer 3 == 0)
              || (not (byte_at buffer 4 == 0) || not (byte_at buffer 5 == 0)))
      then none
      else if not (bit_and (byte_at buffer 6) 0x80 == 0)
      then none
      else some (
        byte_at buffer 6 * 2 ^ 24
            + byte_at buffer 7 * 2 ^ 16
            + byte_at buffer 8 * 2 ^ 8
            + byte_at buffer 9,
        10,
      )
    else some (short, 2)

-- the bytes of the payload, and the frame's size; `pos` is behind the length
pub read_payload : List ℕ → Bool → ℕ → ℕ → Option (List ℕ × ℕ)
read_payload buffer is_masking len pos =
    if is_masking
    then if ltb (length buffer) (pos + 4)
      then none
      else if ltb (length buffer) ((pos + 4 + len) % 2 ^ 32)
      then none
      else some (
        xor_mask (take 4 (drop pos buffer)) 0 (take len (drop (pos + 4) buffer)),
        (len + (pos + 4)) % 2 ^ 32,
      )
    else if ltb (length buffer) ((pos + len) % 2 ^ 32)
    then none
    else some (take len (drop pos buffer), (len + pos) % 2 ^ 32)

-- `wsFrameExtractBuffer`, with the payload so far
pub extract : List ℕ → List ℕ → Option Frame
extract buffer payload = if ltb (length buffer) 2 then none else elim (read_length buffer) [
  | none ↦ none
  | some (len, pos) ↦
      elim (read_payload buffer (not (bit_and (byte_at buffer 1) 0x80 == 0)) len pos) [
        | none ↦ none
        | some (bytes, size) ↦ some (record {
          payload = payload ++ bytes;
          opcode = bit_and (byte_at buffer 0) 0x0f;
          frame_size = size;
          fin = not (bit_and (byte_at buffer 0) 0x80 == 0);
        })
      ]
]
