-- ===== src/Buffer/Contents.antt =====
-- The bytes that a buffer holds, and what moving and consuming them does.
use netxy.Base.{
  drop-take, drop-drop, drop-append_left, append_assoc, ℕ, ◌+◌, ◌-◌, ◌≤◌, ◌≡◌, List, [], ◌++◌,
  arith, length, take, drop, length-take, length-drop, length-append, take-append,
}
use netxy.Buffer.{Buffer, init, get_read_valid_count, adjust_to_head, add_read_pos, move_down}
use netxy.Buffer.Bounds.{IsValid, get_read_valid_count_lem}

-- The written bytes that have not been read, oldest first.
abbrev pub contents : Buffer → List ℕ
contents b = take (b.write_pos - b.read_pos) (drop b.read_pos b.bytes)

pub length-contents : {b : Buffer} → IsValid b → length (contents b) ≡ b.write_pos - b.read_pos
length-contents {b} v = omega (
  arith,
  length-take (b.write_pos - b.read_pos) (drop b.read_pos b.bytes),
  length-drop b.read_pos b.bytes,
)

-- Moving bytes down puts them at the head of the storage and keeps its size.
move_down_lem :
    (bytes : List ℕ) (from n : ℕ)
    → from + n ≤ length bytes
    → (take n (move_down bytes from n) ≡ take n (drop from bytes))
      × (length (move_down bytes from n) ≡ length bytes)
move_down_lem bytes from n h = (
  take-append n (take n (drop from bytes)) (drop n bytes) moved,
  omega
      (arith, moved, length-append (take n (drop from bytes)) (drop n bytes), length-drop n bytes),
)
  where
    moved : length (take n (drop from bytes)) ≡ n
    moved = omega (arith, length-take n (drop from bytes), length-drop from bytes)

-- `ox_buffer_adjustto_head` keeps the invariant, the size and the unread bytes, and frees all the
-- space before them.
pub adjust_to_head_lem :
    {b : Buffer}
    → IsValid b
    → IsValid (adjust_to_head b)
      × (contents (adjust_to_head b) ≡ contents b)
      × ((adjust_to_head b).data_len ≡ b.data_len)
      × ((adjust_to_head b).read_pos ≡ 0)
      × ((adjust_to_head b).write_pos ≡ b.write_pos - b.read_pos)
unfolding adjust_to_head
adjust_to_head_lem {b} v =
    ground (
      arith,
      get_read_valid_count_lem v,
      move_down_lem b.bytes b.read_pos (b.write_pos - b.read_pos),
    )

-- Consuming `n` readable bytes by `ox_buffer_addreadpos` drops just the first `n`.
pub contents-add_read_pos :
    {b : Buffer} (n : ℕ)
    → IsValid b
    → n ≤ get_read_valid_count b
    → contents (add_read_pos b n) ≡ drop n (contents b)
unfolding add_read_pos
contents-add_read_pos {b} n v h = ground (
  arith,
  get_read_valid_count_lem v,
  drop-take n (b.write_pos - b.read_pos) (drop b.read_pos b.bytes),
  drop-drop n b.read_pos b.bytes,
)

-- Bytes stored at the write position follow the unread ones.
pub stored_after :
    (bytes src rest : List ℕ) (r w : ℕ)
    → r ≤ w
    → w ≤ length bytes
    → take (w + length src - r) (drop r (take w bytes ++ (src ++ rest)))
      ≡ take (w - r) (drop r bytes) ++ src
stored_after bytes src rest r w h k =
    rw
      (
        drop-append_left r (take w bytes) (src ++ rest) (omega (arith, length-take w bytes)),
        drop-take r w bytes,
        ← append_assoc (take (w - r) (drop r bytes)) src rest,
      )
      (take-append (w + length src - r) (take (w - r) (drop r bytes) ++ src) rest (
        omega (
          arith,
          length-append (take (w - r) (drop r bytes)) src,
          length-take (w - r) (drop r bytes),
          length-drop r bytes,
        )))

-- `ox_buffer_init` empties a valid buffer and keeps its size.
pub init_lem :
    {b : Buffer}
    → IsValid b
    → IsValid (init b) × (contents (init b) ≡ []) × ((init b).data_len ≡ b.data_len)
unfolding init
init_lem v = ground arith
