-- ===== src/Buffer/Bounds.antt =====
-- The positions of a buffer: the invariant, and which calls keep it.
use netxy.Base.{ℕ, ◌+◌, ◌-◌, ◌≤◌, ◌<◌, ◌≡◌, ◌^◌, Bool, true, some, List, arith, length}
use netxy.Buffer.{
  Buffer, size_mod, new, get_read_valid_count, get_write_valid_count, add_write_pos, add_read_pos,
}

pub record IsValid (b : Buffer) : Type 0 where
  pub storage : length b.bytes ≡ b.data_len
  pub small : b.data_len < size_mod
  pub ordered : b.read_pos ≤ b.write_pos
  pub within : b.write_pos ≤ b.data_len

pub get_read_valid_count_lem :
    {b : Buffer} → IsValid b → get_read_valid_count b ≡ b.write_pos - b.read_pos
unfolding get_read_valid_count
get_read_valid_count_lem v = omega arith

pub get_write_valid_count_lem :
    {b : Buffer} → IsValid b → get_write_valid_count b ≡ b.data_len - b.write_pos
unfolding get_write_valid_count
get_write_valid_count_lem v = omega arith

-- What `ox_buffer_new` returns is a valid, empty buffer, when `malloc` gave the bytes asked for.
pub new-IsValid :
    (got : Bool) (storage : List ℕ) (n : ℕ) {b : Buffer}
    → length storage ≡ n
    → n < size_mod
    → new got (some storage) n ≡ some b
    → IsValid b × (get_read_valid_count b ≡ 0) × (get_write_valid_count b ≡ n)
unfolding new get_read_valid_count get_write_valid_count
new-IsValid true storage n e h eq = ground arith
new-IsValid _ storage n e h eq = ground arith

-- Advancing the write position by at most the free space is taken and keeps the invariant.
pub add_write_pos-IsValid :
    {b : Buffer} (n : ℕ)
    → IsValid b
    → n ≤ get_write_valid_count b
    → IsValid (add_write_pos b n) × ((add_write_pos b n).write_pos ≡ b.write_pos + n)
unfolding get_write_valid_count add_write_pos
add_write_pos-IsValid n v h = ground arith

-- Advancing the read position by at most the readable bytes is taken and keeps the invariant.
pub add_read_pos-IsValid :
    {b : Buffer} (n : ℕ)
    → IsValid b
    → n ≤ get_read_valid_count b
    → IsValid (add_read_pos b n) × ((add_read_pos b n).read_pos ≡ b.read_pos + n)
unfolding get_read_valid_count add_read_pos
add_read_pos-IsValid n v h = ground arith

-- `ox_buffer_addreadpos` compares with the size of the storage, not with the write position: a step
-- past the written bytes that stays in the storage is taken, and the readable count then wraps to
-- more than the storage holds.
add_read_pos_overrun :
    {b : Buffer} (n : ℕ)
    → IsValid b
    → b.data_len < 2 ^ 63
    → b.write_pos < b.read_pos + n
    → b.read_pos + n ≤ b.data_len
    → ((add_read_pos b n).read_pos ≡ b.read_pos + n)
      × (b.data_len < get_read_valid_count (add_read_pos b n))
unfolding add_read_pos get_read_valid_count
add_read_pos_overrun n v small past fits = ground arith
