-- ===== src/DataSocket/Receive/Loop.antt =====
-- The loop of `recv`: it comes to an end, loses no byte, and stops early only for a reason.
use netxy.Base.{
  if_true, if_false, ℕ, zero, suc, ◌+◌, ◌^◌, not, true, ◌<◌, ◌≡◌, refl, ◌∙◌, Bool, false, Option,
  some, List, [], arith, ◌==◌, length, nil_of_length, ◌*◌, Bool-cases, inl, inr, ◌⊎◌,
}
use netxy.Buffer.{Buffer, new, get_write_valid_count}
use netxy.Buffer.Bounds.{IsValid, get_write_valid_count_lem}
use netxy.Buffer.Contents.{contents, length-contents}
use netxy.DataSocket.Receive.{
  grow_buffer_size, DataCallback, Receiver, new_recv_buffer, recv_steps, recv,
}
use netxy.DataSocket.Receive.Room.{AllSized}
use netxy.DataSocket.Receive.Round.{IsFair, IsReady, stream, round_lem, eq_of_test, positive}

-- Why `recv` ends: all is read, the buffer is full and may not grow, the connection is closed, or the
-- call of the system fails.
abbrev pub Why : ℕ → (ℕ → Bool) → Bool → Bool → Receiver → Type 0
Why max fails gone must_close after =
    (after.incoming ≡ []) × (must_close ≡ gone)
    ⊎ (length (contents after.buffer) ≡ after.buffer.data_len)
      × (max < after.buffer.data_len + grow_buffer_size)
      × (must_close ≡ false)
    ⊎ (after.connected ≡ false) × (must_close ≡ false)
    ⊎ (k : ℕ) × (fails k ≡ true) × (must_close ≡ true)

closed_of_not : (b : Bool) → not b ≡ true → b ≡ false
closed_of_not true e = cc
closed_of_not false e = refl

-- How `recv` ends.
pub record Ended (max : ℕ) (fails : ℕ → Bool) (gone : Bool) (r : Receiver) (must_close : Bool)
    (after : Receiver) : Type 0 where
  pub valid : IsValid after.buffer
  pub ready : IsReady max after.buffer
  pub bytes : stream after ≡ stream r
  pub why : Why max fails gone must_close after

recv_steps_lem :
    (max : ℕ) (storage : ℕ → List ℕ) (callbacks : ℕ → Option DataCallback) (fails : ℕ → Bool)
    (gone : Bool) (k fuel : ℕ) (r : Receiver)
    → max < 2 ^ 31
    → AllSized storage
    → ((k : ℕ) → IsFair (callbacks k))
    → IsValid r.buffer
    → r.buffer.data_len < 2 ^ 31
    → IsReady max r.buffer
    → length r.incoming < fuel
    → (must_close : Bool) × (after : Receiver) × (recv_steps max storage callbacks fails gone k fuel
          r
        ≡ some (must_close, after))
      × Ended max fails gone r must_close after
unfolding recv_steps
recv_steps_lem max storage callbacks fails gone k zero r small sized fair v int ready lt =
    absurd (omega arith)
recv_steps_lem max storage callbacks fails gone k (suc fuel) r small sized fair v int ready lt =
    elim (Bool-cases (not r.connected)) [
      | inl o ↦ (
        false,
        r,
        if_true _ _ o,
        stays false (inr (inr (inl (closed_of_not r.connected o, refl)))),
      )
      | inr o ↦ elim (Bool-cases (get_write_valid_count r.buffer == 0)) [
        | inl t ↦
            (false, r, if_false _ _ o ∙ if_true _ _ t, stays false (full (eq_of_test t) ready))
        | inr t ↦ elim (Bool-cases (fails k)) [
          | inl f ↦ (
            true,
            r,
            if_false _ _ o ∙ if_false _ _ t ∙ if_true _ _ f,
            stays true (inr (inr (inr (k, f, refl)))),
          )
          | inr f ↦ elim (Bool-cases (length r.incoming == 0)) [
            | inl u ↦ (
              gone,
              r,
              if_false _ _ o ∙ if_false _ _ t ∙ if_false _ _ f ∙ if_true _ _ u,
              stays gone (inl (nil_of_length r.incoming (eq_of_test u), refl)),
            )
            | inr u ↦
                let (next, g, w) =
                  round_lem max storage (callbacks k) r small sized (fair k) v int (positive t)
                    (positive u) in
                let (close, last, h, d) =
                  recv_steps_lem max storage callbacks fails gone (suc k) fuel next small sized fair
                    w.valid w.int w.ready (omega (arith, w.shorter)) in
                (
                  close,
                  last,
                  if_false _ _ o ∙ if_false _ _ t ∙ if_false _ _ f ∙ if_false _ _ u ∙ rw g h,
                  record {
                    valid = d.valid;
                    ready = d.ready;
                    bytes = d.bytes ∙ w.bytes;
                    why = d.why;
                  },
                )
          ]
        ]
      ]
    ]
  where
    stays : (close : Bool) → Why max fails gone close r → Ended max fails gone r close r
    stays close why = record { valid = v; ready = ready; bytes = refl; why = why }

    full : get_write_valid_count r.buffer ≡ 0 → IsReady max r.buffer → Why max fails gone false r
    full e (inl room) = absurd (omega (arith, e))
    full e (inr (whole, no_growth)) = inr (inl (whole, no_growth, refl))

-- `recv` comes to an end and loses no byte: what the data callback used, then the unread bytes, then
-- what the system still has, are the same as before. It leaves bytes in the system only if unread bytes
-- fill the buffer and it may not grow, if the connection is closed, as by the data callback, or if the
-- call of the system fails; and it asks for closing only if that call fails, or if the connection is gone
-- and everything is read. The buffer stays valid, and keeps room unless it is full and may not grow. The
-- sizes of the buffer are below 2^31, `malloc` returns what it is asked for, and the data callback uses no
-- more than it is given.
pub recv_lem :
    (max : ℕ) (storage : ℕ → List ℕ) (callbacks : ℕ → Option DataCallback) (fails : ℕ → Bool)
    (gone : Bool) (r : Receiver)
    → max < 2 ^ 31
    → AllSized storage
    → ((k : ℕ) → IsFair (callbacks k))
    → IsValid r.buffer
    → r.buffer.data_len < 2 ^ 31
    → IsReady max r.buffer
    → (must_close : Bool) × (after : Receiver) × (recv max storage callbacks fails gone r
        ≡ some (must_close, after))
      × Ended max fails gone r must_close after
unfolding recv
recv_lem max storage callbacks fails gone r small sized fair v int ready =
    recv_steps_lem max storage callbacks fails gone 0 (suc (length r.incoming)) r small sized fair v
      int ready (omega arith)

-- The first buffer of a connection is valid and empty, and has room.
pub new_recv_buffer_lem :
    (max : ℕ) (storage : ℕ → List ℕ)
    → AllSized storage
    → (b : Buffer) × (new_recv_buffer storage ≡ some b)
      × IsValid b
      × (contents b ≡ [])
      × IsReady max b
unfolding new_recv_buffer new
new_recv_buffer_lem max storage sized =
    let b : Buffer = record {
      bytes = storage (16 * 1024 + grow_buffer_size);
      data_len = 16 * 1024 + grow_buffer_size;
      write_pos = 0;
      read_pos = 0;
    } in
    let v : IsValid b = record {
      storage = sized _;
      small = omega arith;
      ordered = omega arith;
      within = omega arith;
    } in
    (
      b,
      refl,
      v,
      nil_of_length _ (length-contents v),
      inl (omega (arith, get_write_valid_count_lem v)),
    )
