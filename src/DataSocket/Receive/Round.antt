-- ===== src/DataSocket/Receive/Round.antt =====
-- A round of `recv`: it takes bytes from the system, loses none, and leaves room.
use netxy.Base.{
  ℕ, ◌+◌, ◌^◌, ◌&&◌, not, ◌≤◌, ◌<◌, ◌≡◌, refl, sym, ap, ◌∙◌, true, false, Option, none, some, List,
  ◌++◌, append_assoc, arith, leb, ◌==◌, length, length-drop, take, drop, take-append-drop,
  if◌then◌else◌, Bool-cases, inl, inr, ◌⊎◌,
}
use netxy.Buffer.{Buffer, size_mod, get_read_valid_count, get_write_valid_count, add_read_pos}
use netxy.Buffer.Bounds.{IsValid, get_read_valid_count_lem, add_read_pos-IsValid}
use netxy.Buffer.Contents.{contents, length-contents, contents-add_read_pos}
use netxy.Buffer.Queue.{size-add_read_pos}
use netxy.DataSocket.Receive.{
  grow_buffer_size, readable, grow_recv_buffer, DataCallback, Receiver, hand_over, make_room, round,
}
use netxy.DataSocket.Receive.Room.{
  readable-contents, AllSized, receive_lem, grow_recv_buffer_lem, make_room_lem,
}

-- The data callback uses no more bytes than it is given.
abbrev pub IsFair : Option DataCallback → Type 0
IsFair none = Unit
IsFair (some callback) = (bytes : List ℕ) → (callback bytes).0 ≤ length bytes

-- A buffer has room, or unread bytes fill it and it may not grow.
abbrev pub IsReady : ℕ → Buffer → Type 0
IsReady max b =
    0 < get_write_valid_count b
    ⊎ (length (contents b) ≡ b.data_len) × (max < b.data_len + grow_buffer_size)

-- What the data callback used, then the unread bytes, then those that the system has.
abbrev pub stream : Receiver → List ℕ
stream r = r.consumed ++ (contents r.buffer ++ r.incoming)

record Handed (r after : Receiver) : Type 0 where
  pub valid : IsValid after.buffer
  pub size : after.buffer.data_len ≡ r.buffer.data_len
  pub fewer : length (contents after.buffer) ≤ length (contents r.buffer)
  pub incoming : after.incoming ≡ r.incoming
  pub bytes : after.consumed ++ contents after.buffer ≡ r.consumed ++ contents r.buffer

hand_over_lem :
    (callback : Option DataCallback) (r : Receiver)
    → IsFair callback
    → IsValid r.buffer
    → (after : Receiver) × (hand_over callback r ≡ (true, after)) × Handed r after
unfolding hand_over
hand_over_lem none r fair v =
    (r, refl, record { valid = v; size = refl; fewer = omega arith; incoming = refl; bytes = refl })
hand_over_lem (some callback) r fair v =
    let b = r.buffer in
    let used = (callback (readable b)).0 in
    let within : used ≤ get_read_valid_count b = omega (
      arith,
      fair (readable b),
      ap length (readable-contents v),
      length-contents v,
      get_read_valid_count_lem v,
    ) in
    let fits : leb used (get_read_valid_count b) ≡ true = ground arith in
    let after = contents-add_read_pos used v within in
    (
      record r {
        connected = r.connected && not (callback (readable b)).1;
        buffer = add_read_pos b used;
        recv_data = true;
        consumed = r.consumed ++ take used (readable b);
      },
      rw fits refl,
      record {
        valid = (add_read_pos-IsValid used v within).0;
        size = size-add_read_pos b used;
        fewer = omega (arith, ap length after, length-drop used (contents b));
        incoming = refl;
        bytes =
            ap (λ bs. (r.consumed ++ take used (readable b)) ++ bs) after
            ∙ ap (λ bs. (r.consumed ++ take used bs) ++ drop used (contents b))
                (readable-contents v)
            ∙ append_assoc r.consumed (take used (contents b)) (drop used (contents b))
            ∙ ap (λ bs. r.consumed ++ bs) (take-append-drop used (contents b));
      },
    )

-- A round goes on: it takes bytes from the system and loses none.
pub record Went (max : ℕ) (r after : Receiver) : Type 0 where
  pub valid : IsValid after.buffer
  pub bytes : stream after ≡ stream r
  pub shorter : length after.incoming < length r.incoming
  pub ready : IsReady max after.buffer
  pub int : after.buffer.data_len < 2 ^ 31

pub eq_of_test : {m n : ℕ} → (m == n) ≡ true → m ≡ n
eq_of_test t = ground arith

pub positive : {n : ℕ} → (n == 0) ≡ false → 0 < n
positive t = ground arith

full_after :
    (max size grown len : ℕ)
    → grown ≡ (if leb (size + grow_buffer_size) max then size + grow_buffer_size else size)
    → len ≡ size
    → grown ≤ len
    → max < grown + grow_buffer_size
full_after max size grown len e f h = ground arith

small_after :
    (max size grown : ℕ)
    → grown ≡ (if leb (size + grow_buffer_size) max then size + grow_buffer_size else size)
    → grown ≤ max ⊎ grown ≡ size
small_after max size grown e = ground arith

never_full :
    (count size len : ℕ) → (count == size) ≡ false → len ≡ count → len ≤ size → size ≤ len → ⊥
never_full count size len e f h g = ground arith

-- The growth in a round, and what it says of a buffer that ends up full.
grow_if_full :
    (max : ℕ) (storage : ℕ → List ℕ) (b : Buffer)
    → max < size_mod
    → AllSized storage
    → IsValid b
    → (grown : Buffer) × ((if get_read_valid_count b == b.data_len
          then grow_recv_buffer max storage b
          else some b)
        ≡ some grown)
      × IsValid grown
      × (contents grown ≡ contents b)
      × (grown.data_len ≤ length (contents b) → max < grown.data_len + grow_buffer_size)
      × (grown.data_len ≤ max ⊎ grown.data_len ≡ b.data_len)
grow_if_full max storage b small sized v =
    let unread : length (contents b) ≡ get_read_valid_count b =
      length-contents v ∙ sym (get_read_valid_count_lem v) in
    let whole : (get_read_valid_count b == b.data_len) ≡ true → length (contents b) ≡ b.data_len =
      λ t. unread ∙ eq_of_test t in
    elim (Bool-cases (get_read_valid_count b == b.data_len)) [
      | inl t ↦
          let (grown, e, g) = grow_recv_buffer_lem max storage b small sized v in
          (
            grown,
            rw t e,
            g.valid,
            g.bytes,
            λ h. full_after max b.data_len grown.data_len (length (contents b)) g.size (whole t) h,
            small_after max b.data_len grown.data_len g.size,
          )
      | inr t ↦ (
        b,
        rw t refl,
        v,
        refl,
        λ h. absurd (never_full _ _ _ t unread (omega (arith, length-contents v, v.within)) h),
        inr refl,
      )
    ]

pub round_lem :
    (max : ℕ) (storage : ℕ → List ℕ) (callback : Option DataCallback) (r : Receiver)
    → max < 2 ^ 31
    → AllSized storage
    → IsFair callback
    → IsValid r.buffer
    → r.buffer.data_len < 2 ^ 31
    → 0 < get_write_valid_count r.buffer
    → 0 < length r.incoming
    → (after : Receiver) × (round max storage callback r ≡ some (true, after)) × Went max r after
unfolding round
round_lem max storage callback r small sized fair v int room has =
    let (got, e, g) = receive_lem r v int in
    let (grown, f, gv, gc, gf, gs) =
      grow_if_full max storage got.buffer (omega arith) sized g.valid in
    let (after, h, a) = hand_over_lem callback (record got { buffer = grown }) fair gv in
    let (mv, mc, ms, mr) = make_room_lem a.valid in
    (
      record after { buffer = make_room after.buffer },
      rw (e, round) (rw f (rw h refl)),
      record {
        valid = mv;
        bytes =
            rw (mc, a.incoming)
              (sym (append_assoc after.consumed (contents after.buffer) got.incoming)
                ∙ ap (λ bs. bs ++ got.incoming) (a.bytes ∙ ap (λ bs. got.consumed ++ bs) gc)
                ∙ append_assoc got.consumed (contents got.buffer) got.incoming
                ∙ ap (λ bs. got.consumed ++ bs) g.bytes
                ∙ ap (λ bs. bs ++ (contents r.buffer ++ r.incoming)) g.consumed);
        shorter = omega (arith, g.shorter, ap length a.incoming);
        ready = elim (Bool-cases (get_write_valid_count (make_room after.buffer) == 0)) [
          | inl t ↦
              let full = mr (eq_of_test t) in
              inr (
                omega (arith, ap length mc, full, ms),
                omega (arith, gf (omega (arith, a.size, a.fewer, full, ap length gc)), ms, a.size),
              )
          | inr t ↦ inl (positive t)
        ];
        int = elim gs [
          | inl le ↦ omega (arith, ms, a.size, le)
          | inr eq ↦ omega (arith, ms, a.size, eq, g.size)
        ];
      },
    )
