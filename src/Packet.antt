-- ===== src/Packet.antt =====
-- src/utils/packet.h: packets of numbers and byte strings, written and read in either byte order, on a
-- host that keeps the low byte first. A number of a signed type is its bit pattern. `none` is a failed
-- assert. What `malloc` returns is an argument; `size_t` is not bounded, but in `add_pos`.
pub mod Digits
pub mod Write
pub mod Items
pub mod Read
pub mod RoundTrip
pub mod Fits
pub mod Bounds
mod Tests
use mathlib.Core.List.{reverse}
use netxy.Base.{
  ℕ, zero, suc, ◌+◌, ◌*◌, ◌/◌, ◌%◌, ◌^◌, Bool, true, false, not, ◌&&◌, Option, none, some, List, [],
  ◌∷◌, ◌++◌, ltb, leb, ◌==◌, length, take, drop, if◌then◌else◌,
}

-- the bytes of a number in memory, and the number of bytes in memory
unfoldable pub to_bytes : ℕ → ℕ → List ℕ
to_bytes zero v = []
to_bytes (suc width) v = (v % 256) ∷ to_bytes width (v / 256)

unfoldable pub from_bytes : List ℕ → ℕ
from_bytes [] = 0
from_bytes (b ∷ bs) = b + 256 * from_bytes bs

-- the bytes that `hostToNetwork` leaves of a number, and the number that `networkToHost` makes of them
unfoldable pub host_to_network : Bool → ℕ → ℕ → List ℕ
host_to_network convert width v = if convert then reverse (to_bytes width v) else to_bytes width v

unfoldable pub network_to_host : Bool → List ℕ → ℕ
network_to_host convert bs = if convert then from_bytes (reverse bs) else from_bytes bs

-- `Packet`, with its `BasePacketWriter`
pub record Packet : Type 0 where
  pub buffer : List ℕ
  pub max_len : ℕ
  pub pos : ℕ
  pub big_endian : Bool
  pub is_auto_malloc : Bool
  pub is_finish : Bool

-- the constructor, over the caller's buffer
pub new : List ℕ → Bool → Bool → Packet
new buffer use_big_endian is_auto_malloc = record {
  buffer = buffer;
  max_len = length buffer;
  pos = 0;
  big_endian = use_big_endian;
  is_auto_malloc = is_auto_malloc;
  is_finish = false;
}

-- `init`
pub init : Packet → Packet
init p = record p { pos = 0; is_finish = false }

-- `growBuffer`
unfoldable pub grow_buffer : (ℕ → Option (List ℕ)) → ℕ → Packet → Packet
grow_buffer malloc len p =
    if p.is_auto_malloc && ltb p.max_len (p.pos + len)
    then elim (malloc (p.max_len + len)) [
      | none ↦ p
      | some fresh ↦ record p {
        buffer = take p.pos p.buffer ++ drop p.pos fresh;
        max_len = p.max_len + len;
      }
    ]
    else p

-- `memcpy(mBuffer + at, src, len)`
abbrev pub copy_at : List ℕ → ℕ → List ℕ → List ℕ
copy_at buffer at src = take at buffer ++ (src ++ drop (at + length src) buffer)

-- `writeBuffer`
unfoldable pub write_buffer : (ℕ → Option (List ℕ)) → List ℕ → Packet → Option Packet
write_buffer malloc src p =
    let grown = grow_buffer malloc (length src) p in
    if leb (grown.pos + length src) grown.max_len
    then some
        (record grown { buffer = copy_at grown.buffer grown.pos src; pos = grown.pos + length src })
    else none

-- `writeUINT8` to `writeUINT64`, and those of signed numbers, by the bytes of the type
unfoldable pub write_number : (ℕ → Option (List ℕ)) → ℕ → ℕ → Packet → Option Packet
write_number malloc width v p = write_buffer malloc (host_to_network p.big_endian width v) p

-- `Packet::writeBinary`
unfoldable pub write_binary : (ℕ → Option (List ℕ)) → List ℕ → Packet → Option Packet
write_binary malloc binary p = elim (write_number malloc 4 (length binary % 2 ^ 32) p) [
  | none ↦ none
  | some q ↦ write_buffer malloc binary q
]

-- `PACKET_HEAD_LEN`
abbrev pub packet_head_len : ℕ
packet_head_len = 6

-- `setOP`
unfoldable pub set_op : (ℕ → Option (List ℕ)) → ℕ → Packet → Option Packet
set_op malloc op p =
    if p.pos == 0
    then elim (write_number malloc 4 packet_head_len p) [
      | none ↦ none
      | some q ↦ write_number malloc 2 op q
    ]
    else none

-- `claimBinary`, with the position of the bytes that it leaves to the caller
pub claim_binary : (ℕ → Option (List ℕ)) → ℕ → Packet → Option (ℕ × Packet)
claim_binary malloc len p =
    let grown = grow_buffer malloc (len + 4) p in
    if leb (grown.pos + len + 4) grown.max_len
    then elim (write_number malloc 4 (len % 2 ^ 32) grown) [
      | none ↦ none
      | some q ↦ some (q.pos, record q { pos = q.pos + len })
    ]
    else none

-- `end` and `getLen`
unfoldable pub finish : Packet → Option Packet
finish p =
    if p.is_finish
    then some p
    else if leb 4 p.max_len
    then some (record p {
      buffer = copy_at p.buffer 0 (host_to_network true 4 (p.pos % 2 ^ 32));
      is_finish = true;
    })
    else none

-- the bytes that are sent
abbrev pub written : Packet → List ℕ
written p = take p.pos p.buffer

-- `ReadPacket`, with its `BasePacketReader`
pub record ReadPacket : Type 0 where
  pub buffer : List ℕ
  pub pos : ℕ
  pub big_endian : Bool

-- `readUINT8` to `readUINT64`
unfoldable pub read_number : ℕ → ReadPacket → Option (ℕ × ReadPacket)
read_number width r =
    if leb (r.pos + width) (length r.buffer)
    then some (
      network_to_host r.big_endian (take width (drop r.pos r.buffer)),
      record r { pos = r.pos + width },
    )
    else none

-- `readBinary` to a string
unfoldable pub read_binary : ReadPacket → Option (List ℕ × ReadPacket)
read_binary r = elim (read_number 4 r) [
  | none ↦ none
  | some (len, q) ↦ some (
      if leb (q.pos + len) (length q.buffer)
      then (take len (drop q.pos q.buffer), record q { pos = q.pos + len })
      else ([], q))
]

-- `addPos`, with `int` as its 64-bit pattern
unfoldable pub add_pos : ℕ → ReadPacket → ReadPacket
add_pos value r =
    let tmp = (r.pos + value) % 2 ^ 64 in
    if leb tmp (length r.buffer) then record r { pos = tmp } else r

-- `skipAll`
unfoldable pub skip_all : ReadPacket → ReadPacket
skip_all r = record r { pos = length r.buffer }
