-- ===== src/Buffer/Write.antt =====
-- `ox_buffer_write`: it appends the bytes exactly when they fit, moving the unread bytes down if it
-- must, and never needs a third call.
use netxy.Base.{
  ℕ, ◌+◌, ◌-◌, ◌≤◌, ◌%◌, ◌<◌, ◌≡◌, ap, ◌∙◌, true, false, Option, none, some, List, ◌++◌, arith,
  length, take, drop, leb, length-take, length-drop, length-append, append-nil, nil_of_length,
}
use native.Mathlib.Decide.{dec_lt, dec_le}
use netxy.Buffer.{
  Buffer, size_mod, get_read_valid_count, get_write_valid_count, adjust_to_head, copy_in,
  get_write_ptr, write_direct, write, add_write_pos,
}
use netxy.Buffer.Bounds.{IsValid, get_read_valid_count_lem, get_write_valid_count_lem}
use netxy.Buffer.Contents.{contents, length-contents, adjust_to_head_lem, stored_after}

-- `src` was appended to what `b` holds.
pub record Appended (b : Buffer) (src : List ℕ) (b' : Buffer) : Type 0 where
  pub valid : IsValid b'
  pub bytes : contents b' ≡ contents b ++ src
  pub size : b'.data_len ≡ b.data_len

-- the storage once `src` is copied in at the write position
abbrev stored : Buffer → List ℕ → List ℕ
stored b src = take b.write_pos b.bytes ++ (src ++ drop (b.write_pos + length src) b.bytes)

length-stored :
    {b : Buffer} (src : List ℕ)
    → IsValid b
    → length src ≤ b.data_len - b.write_pos
    → length (stored b src) ≡ b.data_len
length-stored {b} src v h = omega (
  arith,
  length-append (take b.write_pos b.bytes) (src ++ drop (b.write_pos + length src) b.bytes),
  length-append src (drop (b.write_pos + length src) b.bytes),
  length-take b.write_pos b.bytes,
  length-drop (b.write_pos + length src) b.bytes,
)

direct_some :
    (b : Buffer) (src : List ℕ) {p : Option ℕ} {bytes : List ℕ} {b' : Buffer}
    → get_write_ptr b ≡ p
    → copy_in b.bytes p src ≡ some bytes
    → add_write_pos (record b { bytes = bytes }) (length src) ≡ b'
    → write_direct b src ≡ some (true, b')
unfolding write_direct
direct_some b src pointer copy advance = rw (pointer, copy, write_direct) (rw advance)

module _ {b : Buffer} (src : List ℕ) (v : IsValid b)
    (h : length src ≤ b.data_len - b.write_pos) where
  -- with room after the write position, the bytes go there
  copied :
      b.write_pos < b.data_len
      → (b' : Buffer) × (write_direct b src ≡ some (true, b')) × Appended b src b'
  copied room = (
    record b { bytes = stored b src; write_pos = b.write_pos + length src },
    direct_some b src pointer copy advance,
    ground (
      arith,
      length-stored src v h,
      stored_after b.bytes src (drop (b.write_pos + length src) b.bytes) b.read_pos b.write_pos,
    ),
  )
    where
      pointer : get_write_ptr b ≡ some b.write_pos
      pointer = unfold get_write_ptr in ground arith

      copy : copy_in b.bytes (some b.write_pos) src ≡ some (stored b src)
      copy = unfold copy_in in ground arith

      advance :
          add_write_pos (record b { bytes = stored b src }) (length src)
          ≡ record b { bytes = stored b src; write_pos = b.write_pos + length src }
      advance = unfold add_write_pos in ground arith

  -- a full buffer takes no bytes, through NULL
  copied_nothing :
      b.data_len ≤ b.write_pos
      → (b' : Buffer) × (write_direct b src ≡ some (true, b')) × Appended b src b'
  copied_nothing full = (
    b,
    direct_some b src pointer copy advance,
    ground (arith, append-nil (contents b), nil_of_length src),
  )
    where
      pointer : get_write_ptr b ≡ none
      pointer = unfold get_write_ptr in ground arith

      copy : copy_in b.bytes none src ≡ some b.bytes
      copy = unfold copy_in in ground arith

      advance : add_write_pos b (length src) ≡ b
      advance = unfold add_write_pos in ground arith

  pub write_direct_lem : (b' : Buffer) × (write_direct b src ≡ some (true, b')) × Appended b src b'
  write_direct_lem = elim (dec_lt b.write_pos b.data_len) [
    | yes room ↦ copied room
    | no full ↦ copied_nothing (omega arith)
  ]

-- `ox_buffer_write` on a valid buffer, when the bytes fit beside the unread ones: it returns true,
-- and the buffer, still valid and of the same size, holds the old bytes and then the new ones.
pub write-Appended :
    {b : Buffer} (src : List ℕ)
    → IsValid b
    → length (contents b) + length src ≤ b.data_len
    → (b' : Buffer) × (write b src ≡ some (true, b')) × Appended b src b'
unfolding write
write-Appended {b} src v h = elim (dec_le (length src) (b.data_len - b.write_pos)) [
  | yes room ↦ rw (direct room) (write_direct_lem src v room)
  | no tight ↦
      rw (misses tight, left, again)
        (
          head.0,
          rw head.1,
          record {
            valid = head.2.valid;
            bytes = head.2.bytes ∙ ap (λ xs. xs ++ src) compact.1;
            size = head.2.size ∙ compact.2;
          },
        )
]
  where
    compact :
        IsValid (adjust_to_head b)
        × (contents (adjust_to_head b) ≡ contents b)
        × ((adjust_to_head b).data_len ≡ b.data_len)
        × ((adjust_to_head b).read_pos ≡ 0)
        × ((adjust_to_head b).write_pos ≡ b.write_pos - b.read_pos)
    compact = adjust_to_head_lem v

    direct :
        length src ≤ b.data_len - b.write_pos → leb (length src) (get_write_valid_count b) ≡ true
    direct room = ground (arith, get_write_valid_count_lem v)

    misses :
        ¬ (length src ≤ b.data_len - b.write_pos)
        → leb (length src) (get_write_valid_count b) ≡ false
    misses tight = ground (arith, get_write_valid_count_lem v)

    left : leb (length src) ((size_mod + b.data_len - get_read_valid_count b) % size_mod) ≡ true
    left = ground (arith, get_read_valid_count_lem v, length-contents v)

    room : length src ≤ (adjust_to_head b).data_len - (adjust_to_head b).write_pos
    room = omega (arith, compact, length-contents v)

    again : leb (length src) (get_write_valid_count (adjust_to_head b)) ≡ true
    again = ground (arith, get_write_valid_count_lem compact.0, room)

    head :
        (b' : Buffer) × (write_direct (adjust_to_head b) src ≡ some (true, b'))
        × Appended (adjust_to_head b) src b'
    head = write_direct_lem src compact.0 room

-- When they do not fit, it returns false and changes nothing.
pub write_full :
    {b : Buffer} (src : List ℕ)
    → IsValid b
    → b.data_len < length (contents b) + length src
    → write b src ≡ some (false, b)
unfolding write
write_full {b} src v h = rw (misses, left)
  where
    misses : leb (length src) (get_write_valid_count b) ≡ false
    misses = ground (arith, get_write_valid_count_lem v, length-contents v)

    left : leb (length src) ((size_mod + b.data_len - get_read_valid_count b) % size_mod) ≡ false
    left = ground (arith, get_read_valid_count_lem v, length-contents v)
