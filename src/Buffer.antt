-- ===== src/Buffer.antt =====
-- src/utils/buffer.c: a byte buffer with a read and a write position. `size_t` has 64 bits.
-- A function that updates `*self` returns the new buffer; `none` is a fault (a write through NULL
-- or outside the storage), or the end of the fuel of `write_steps`.
pub mod Bounds
pub mod Contents
pub mod Write
pub mod Queue
mod Tests
use netxy.Base.{
  ℕ, zero, suc, ◌+◌, ◌-◌, ◌%◌, ◌^◌, Bool, true, false, Option, none, some, List, ◌++◌, leb, ltb,
  if◌then◌else◌, length, take, drop,
}

-- `struct buffer_s`
pub record Buffer : Type 0 where
  pub bytes : List ℕ
  pub data_len : ℕ
  pub write_pos : ℕ
  pub read_pos : ℕ

abbrev pub size_mod : ℕ
size_mod = 2 ^ 64

-- `ox_buffer_new`: whether the first `malloc` succeeds, and what the second one returns.
unfoldable pub new : Bool → Option (List ℕ) → ℕ → Option Buffer
new false storage buffer_size = none
new true none buffer_size = none
new true (some storage) buffer_size =
    some (record { bytes = storage; data_len = buffer_size; write_pos = 0; read_pos = 0 })

-- `ox_buffer_init`
pub init : Buffer → Buffer
init b = record b { write_pos = 0; read_pos = 0 }

-- `ox_buffer_getreadvalidcount`
pub get_read_valid_count : Buffer → ℕ
get_read_valid_count b = (size_mod + b.write_pos - b.read_pos) % size_mod

-- `ox_buffer_getwritevalidcount`
pub get_write_valid_count : Buffer → ℕ
get_write_valid_count b = (size_mod + b.data_len - b.write_pos) % size_mod

-- `memmove(data, data + from, n)`: the first `n` bytes are overwritten by those at `from`.
abbrev pub move_down : List ℕ → ℕ → ℕ → List ℕ
move_down bytes from n = take n (drop from bytes) ++ drop n bytes

-- `ox_buffer_adjustto_head`
pub adjust_to_head : Buffer → Buffer
adjust_to_head b =
    let len = get_read_valid_count b in
    if ltb 0 b.read_pos
    then record b {
      bytes = if ltb 0 len then move_down b.bytes b.read_pos len else b.bytes;
      write_pos = len;
      read_pos = 0;
    }
    else b

-- `ox_buffer_addwritepos`
pub add_write_pos : Buffer → ℕ → Buffer
add_write_pos b value =
    let temp = (b.write_pos + value) % size_mod in
    if leb temp b.data_len then record b { write_pos = temp } else b

-- `ox_buffer_addreadpos`
pub add_read_pos : Buffer → ℕ → Buffer
add_read_pos b value =
    let temp = (b.read_pos + value) % size_mod in
    if leb temp b.data_len then record b { read_pos = temp } else b

-- `ox_buffer_getwriteptr`: the offset of the pointer in the storage, `none` for NULL.
pub get_write_ptr : Buffer → Option ℕ
get_write_ptr b = if ltb b.write_pos b.data_len then some b.write_pos else none

-- `ox_buffer_getreadptr`
pub get_read_ptr : Buffer → Option ℕ
get_read_ptr b = if ltb b.read_pos b.data_len then some b.read_pos else none

-- `memcpy(storage + at, src, len)`: a fault outside the storage, or at NULL unless `len` is 0.
pub copy_in : List ℕ → Option ℕ → List ℕ → Option (List ℕ)
copy_in bytes none src = if leb (length src) 0 then some bytes else none
copy_in bytes (some at) src =
    if leb (at + length src) (length bytes)
    then some (take at bytes ++ (src ++ drop (at + length src) bytes))
    else none

-- the direct branch of `ox_buffer_write`
unfoldable pub write_direct : Buffer → List ℕ → Option (Bool × Buffer)
write_direct b src = elim (copy_in b.bytes (get_write_ptr b) src) [
  | none ↦ none
  | some bytes ↦ some (true, add_write_pos (record b { bytes = bytes }) (length src))
]

-- `ox_buffer_write` calls itself after moving the bytes down: fuel counts the calls.
write_steps : ℕ → Buffer → List ℕ → Option (Bool × Buffer)
write_steps zero b src = none
write_steps (suc fuel) b src =
    let again = write_steps fuel (adjust_to_head b) src in
    if leb (length src) (get_write_valid_count b)
    then write_direct b src
    else if leb (length src) ((size_mod + b.data_len - get_read_valid_count b) % size_mod)
    then elim again [ none ↦ none | some (_, b') ↦ some (true, b') ]
    else some (false, b)

-- `ox_buffer_write`, with the two calls that it makes at most
pub write : Buffer → List ℕ → Option (Bool × Buffer)
unfolding write_steps
write b src = write_steps 2 b src
