-- ===== src/DataSocket/Receive/Room.antt =====
-- The buffer of a connection: what a read, its growth and the end of a round keep.
use mathlib.Core.Option.{some-injective}
use netxy.Base.{
  ℕ, ◌+◌, ◌-◌, ◌^◌, if_false, ◌≤◌, ◌<◌, ◌≡◌, refl, ap, ◌∙◌, Bool, true, false, ◌||◌, Option, none,
  some, List, ◌++◌, append_assoc, arith, leb, ◌==◌, length, length-take, length-drop, take, drop,
  take-append-drop, if◌then◌else◌, Bool-cases, Option-cases, inl, inr, none≢some,
}
use netxy.Buffer.{
  Buffer, size_mod, new, copy_in, get_read_valid_count, get_write_valid_count, get_write_ptr,
  add_write_pos, write, write_direct,
}
use netxy.Buffer.Bounds.{IsValid, get_read_valid_count_lem, get_write_valid_count_lem}
use netxy.Buffer.Contents.{contents, length-contents, adjust_to_head_lem}
use netxy.Buffer.Write.{write-Appended, write_direct_lem}
use netxy.DataSocket.Receive.{
  grow_buffer_size, readable, grow_recv_buffer, Receiver, receive, make_room,
}

pub readable-contents : {b : Buffer} → IsValid b → readable b ≡ contents b
readable-contents {b} v = ap (λ n. take n (drop b.read_pos b.bytes)) (get_read_valid_count_lem v)

-- What `malloc` returns has the size asked for.
abbrev pub AllSized : (ℕ → List ℕ) → Type 0
AllSized storage = (n : ℕ) → length (storage n) ≡ n

-- A read appends what the system has, up to the room, and takes it from the system.
pub record Received (r got : Receiver) : Type 0 where
  pub valid : IsValid got.buffer
  pub size : got.buffer.data_len ≡ r.buffer.data_len
  pub bytes : contents got.buffer ++ got.incoming ≡ contents r.buffer ++ r.incoming
  pub shorter : length got.incoming ≡ length r.incoming - get_write_valid_count r.buffer
  pub consumed : got.consumed ≡ r.consumed

direct_parts :
    (b b' : Buffer) (src : List ℕ)
    → write_direct b src ≡ some (true, b')
    → (bytes : List ℕ) × (copy_in b.bytes (get_write_ptr b) src ≡ some bytes)
      × (add_write_pos (record b { bytes = bytes }) (length src) ≡ b')
unfolding write_direct
direct_parts b b' src e = elim (Option-cases (copy_in b.bytes (get_write_ptr b) src)) [
  | inl n ↦ absurd (none≢some (rw (n, write_direct) at e))
  | inr (bytes, s) ↦ (bytes, s, ap (λ p. p.1) (some-injective _ _ (rw (s, write_direct) at e)))
]

receive_of :
    (r : Receiver) (filled : Buffer) (bytes : List ℕ)
    → copy_in r.buffer.bytes
        (get_write_ptr r.buffer)
        (take (get_write_valid_count r.buffer) r.incoming)
      ≡ some bytes
    → add_write_pos
        (record r.buffer { bytes = bytes })
        (length (take (get_write_valid_count r.buffer) r.incoming))
      ≡ filled
    → leb (2 ^ 31) (get_write_valid_count r.buffer) ≡ false
    → receive r
      ≡ some (record r {
        buffer = filled;
        incoming = drop (get_write_valid_count r.buffer) r.incoming;
      })
unfolding receive
receive_of r filled bytes c m t =
    if_false _ _ t
    ∙ ap
        (λ o. elim o as (λ x. Option Receiver) [
          | none ↦ none
          | some bytes ↦ some (record r {
            buffer =
                add_write_pos (record r.buffer { bytes = bytes })
                  (length (take (get_write_valid_count r.buffer) r.incoming));
            incoming = drop (get_write_valid_count r.buffer) r.incoming;
          })
        ])
        c
    ∙ ap
        (λ b.
          some
            (record r { buffer = b; incoming = drop (get_write_valid_count r.buffer) r.incoming }))
        m

past_int : (n : ℕ) → n < 2 ^ 31 → leb (2 ^ 31) n ≡ false
past_int n h = ground arith

pub receive_lem :
    (r : Receiver)
    → IsValid r.buffer
    → r.buffer.data_len < 2 ^ 31
    → (got : Receiver) × (receive r ≡ some got) × Received r got
receive_lem r v int =
    let room = get_write_valid_count r.buffer in
    let chunk = take room r.incoming in
    let fits : length chunk ≤ r.buffer.data_len - r.buffer.write_pos =
      omega (arith, get_write_valid_count_lem v, length-take room r.incoming) in
    let (filled, e, a) = write_direct_lem chunk v fits in
    let (bytes, copied, moved) = direct_parts r.buffer filled chunk e in
    (
      record r { buffer = filled; incoming = drop room r.incoming },
      receive_of r filled bytes copied moved
          (past_int _ (omega (arith, get_write_valid_count_lem v))),
      record {
        valid = a.valid;
        size = a.size;
        bytes =
            ap (λ xs. xs ++ drop room r.incoming) a.bytes
            ∙ append_assoc (contents r.buffer) chunk _
            ∙ ap (λ xs. contents r.buffer ++ xs) (take-append-drop room r.incoming);
        shorter = length-drop room r.incoming;
        consumed = refl;
      },
    )

-- `growRecvBuffer` keeps the unread bytes; the buffer grows if it may.
pub record Grown (max : ℕ) (b grown : Buffer) : Type 0 where
  pub valid : IsValid grown
  pub bytes : contents grown ≡ contents b
  pub size : grown.data_len ≡ (
      if leb (b.data_len + grow_buffer_size) max then b.data_len + grow_buffer_size else b.data_len)

pub grow_recv_buffer_lem :
    (max : ℕ) (storage : ℕ → List ℕ) (b : Buffer)
    → max < size_mod
    → AllSized storage
    → IsValid b
    → (grown : Buffer) × (grow_recv_buffer max storage b ≡ some grown) × Grown max b grown
unfolding grow_recv_buffer new
grow_recv_buffer_lem max storage b small sized v =
    let size = b.data_len + grow_buffer_size in
    elim (Bool-cases (leb size max)) [
      | inl t ↦
          let fresh : Buffer = record {
            bytes = storage size;
            data_len = size;
            write_pos = 0;
            read_pos = 0;
          } in
          let clean : IsValid fresh = record {
            storage = sized size;
            small = ground arith;
            ordered = omega arith;
            within = omega arith;
          } in
          let fits : length (contents fresh) + length (readable b) ≤ size = omega (
            arith,
            length-contents clean,
            length-contents v,
            ap length (readable-contents v),
            v.within,
          ) in
          let (filled, e, a) = write-Appended (readable b) clean fits in
          (
            filled,
            rw (t, e) refl,
            record { valid = a.valid; bytes = a.bytes ∙ readable-contents v; size = rw t a.size },
          )
      | inr t ↦ (b, rw t refl, record { valid = v; bytes = refl; size = rw t refl })
    ]

-- The end of a round keeps the unread bytes, and leaves no room only if these fill the buffer.
pub make_room_lem :
    {b : Buffer}
    → IsValid b
    → IsValid (make_room b)
      × (contents (make_room b) ≡ contents b)
      × ((make_room b).data_len ≡ b.data_len)
      × (get_write_valid_count (make_room b) ≡ 0 → length (contents b) ≡ b.data_len)
unfolding make_room
make_room_lem {b} v =
    let (head, kept, size, read, write) = adjust_to_head_lem v in
    let left = get_write_valid_count_lem v in
    let unread = length-contents v in
    let moved = get_write_valid_count_lem head in
    elim (Bool-cases ((get_write_valid_count b == 0) || (get_read_valid_count b == 0))) [
      | inl t ↦ rw t (head, kept, size, λ e. omega (arith, moved, v.within))
      | inr t ↦ rw t (v, refl, refl, λ e. absurd (nonzero (get_write_valid_count b) _ t e))
    ]
  where
    nonzero : (n : ℕ) (b : Bool) → ((n == 0) || b) ≡ false → n ≡ 0 → ⊥
    nonzero n b e z = ground arith
