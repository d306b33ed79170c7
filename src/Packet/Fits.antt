-- ===== src/Packet/Fits.antt =====
-- Packets in a buffer that the caller gives: they are made if and only if they fit it.
use mathlib.Core.Path.{subst}
use native.Mathlib.Decide.{dec_le}
use netxy.Base.{
  ℕ, ◌+◌, ◌%◌, ◌^◌, ◌≤◌, ◌<◌, ◌≡◌, refl, sym, ap, ◌∙◌, Bool, true, false, ◌&&◌, Option, none, some,
  List, [], ◌∷◌, arith, ltb, leb, ◌==◌, length, length-append, if◌then◌else◌, if_true, if_false,
}
use netxy.Packet.{
  Packet, new, host_to_network, grow_buffer, copy_at, write_buffer, write_number, write_binary,
  set_op, packet_head_len, finish,
}
use netxy.Packet.Digits.{length-host_to_network}
use netxy.Packet.Items.{Item, number, binary, write_item, write_items, make, encode_item, encode}

-- Bytes were written into the buffer of a packet that does not grow.
record Filled (n : ℕ) (p q : Packet) : Type 0 where
  pub pos : q.pos ≡ p.pos + n
  pub max_len : q.max_len ≡ p.max_len
  pub fixed : q.is_auto_malloc ≡ false
  pub order : q.big_endian ≡ p.big_endian
  pub open_yet : q.is_finish ≡ p.is_finish

fill_both : {m n : ℕ} {p q r : Packet} → Filled m p q → Filled n q r → Filled (m + n) p r
fill_both a b = record {
  pos = omega (arith, a.pos, b.pos);
  max_len = b.max_len ∙ a.max_len;
  fixed = b.fixed;
  order = b.order ∙ a.order;
  open_yet = b.open_yet ∙ a.open_yet;
}

grow_buffer_fixed :
    (malloc : ℕ → Option (List ℕ)) (n : ℕ) (p : Packet)
    → p.is_auto_malloc ≡ false
    → grow_buffer malloc n p ≡ p
unfolding grow_buffer
grow_buffer_fixed malloc n p e = if_false _ _ (ap (λ b. b && ltb p.max_len (p.pos + n)) e)

write_buffer_fixed :
    (malloc : ℕ → Option (List ℕ)) (src : List ℕ) (p : Packet)
    → p.is_auto_malloc ≡ false
    → write_buffer malloc src p ≡ (
        if leb (p.pos + length src) p.max_len
        then some (record p { buffer = copy_at p.buffer p.pos src; pos = p.pos + length src })
        else none)
unfolding write_buffer
write_buffer_fixed malloc src p e =
    ap
      (λ g.
        if leb (g.pos + length src) g.max_len
        then some (record g { buffer = copy_at g.buffer g.pos src; pos = g.pos + length src })
        else none)
      (grow_buffer_fixed malloc (length src) p e)

write_buffer_fits :
    (malloc : ℕ → Option (List ℕ)) (src : List ℕ) (p : Packet) (n : ℕ)
    → length src ≡ n
    → p.is_auto_malloc ≡ false
    → p.pos + n ≤ p.max_len
    → (q : Packet) × (write_buffer malloc src p ≡ some q) × Filled n p q
write_buffer_fits malloc src p n size e room =
    let fits : leb (p.pos + length src) p.max_len ≡ true = ground (arith, size) in
    (
      record p { buffer = copy_at p.buffer p.pos src; pos = p.pos + length src },
      write_buffer_fixed malloc src p e ∙ if_true _ _ fits,
      record {
        pos = ap (λ k. p.pos + k) size;
        max_len = refl;
        fixed = e;
        order = refl;
        open_yet = refl;
      },
    )

write_number_fits :
    (malloc : ℕ → Option (List ℕ)) (width v : ℕ) (p : Packet)
    → p.is_auto_malloc ≡ false
    → p.pos + width ≤ p.max_len
    → (q : Packet) × (write_number malloc width v p ≡ some q) × Filled width p q
unfolding write_number
write_number_fits malloc width v p e room =
    write_buffer_fits malloc (host_to_network p.big_endian width v) p width
      (length-host_to_network p.big_endian width v) e room

write_item_fits :
    (malloc : ℕ → Option (List ℕ)) (x : Item) (p : Packet)
    → p.is_auto_malloc ≡ false
    → p.pos + length (encode_item p.big_endian x) ≤ p.max_len
    → (q : Packet) × (write_item malloc x p ≡ some q)
      × Filled (length (encode_item p.big_endian x)) p q
unfolding write_binary
write_item_fits malloc (number width v) p e room =
    let size = length-host_to_network p.big_endian width v in
    let (q, s, f) = write_number_fits malloc width v p e (omega (arith, size)) in
    (q, s, subst (λ n. Filled n p q) (sym size) f)
write_item_fits malloc (binary bs) p e room =
    let head = host_to_network p.big_endian 4 (length bs % 2 ^ 32) in
    let size =
      length-append head bs
      ∙ ap (λ n. n + length bs) (length-host_to_network p.big_endian 4 (length bs % 2 ^ 32)) in
    let (q, s, f) = write_number_fits malloc 4 (length bs % 2 ^ 32) p e (omega (arith, size)) in
    let (r, t, g) =
      write_buffer_fits malloc bs q (length bs) refl f.fixed
        (omega (arith, size, f.pos, f.max_len)) in
    (r, rw (s, write_binary) t, subst (λ n. Filled n p r) (sym size) (fill_both f g))

write_items_fits :
    (malloc : ℕ → Option (List ℕ)) (xs : List Item) (p : Packet)
    → p.is_auto_malloc ≡ false
    → p.pos + length (encode p.big_endian xs) ≤ p.max_len
    → (q : Packet) × (write_items malloc xs p ≡ some q)
      × Filled (length (encode p.big_endian xs)) p q
unfolding write_items
write_items_fits malloc [] p e room = (
  p,
  refl,
  record { pos = omega arith; max_len = refl; fixed = e; order = refl; open_yet = refl },
)
write_items_fits malloc (x ∷ xs) p e room =
    let size = length-append (encode_item p.big_endian x) (encode p.big_endian xs) in
    let (q, s, f) = write_item_fits malloc x p e (omega (arith, size)) in
    let again = ap (λ big. length (encode big xs)) f.order in
    let (r, t, g) =
      write_items_fits malloc xs q f.fixed (omega (arith, size, again, f.pos, f.max_len)) in
    (
      r,
      rw (s, write_items) t,
      subst (λ n. Filled n p r) (ap (λ n. length (encode_item p.big_endian x) + n) again ∙ sym size)
          (fill_both f g),
    )

write_buffer_over :
    (malloc : ℕ → Option (List ℕ)) (src : List ℕ) (p : Packet) (n : ℕ)
    → length src ≡ n
    → p.is_auto_malloc ≡ false
    → p.max_len < p.pos + n
    → write_buffer malloc src p ≡ none
write_buffer_over malloc src p n size e over =
    let misses : leb (p.pos + length src) p.max_len ≡ false = ground (arith, size) in
    write_buffer_fixed malloc src p e ∙ if_false _ _ misses

write_number_over :
    (malloc : ℕ → Option (List ℕ)) (width v : ℕ) (p : Packet)
    → p.is_auto_malloc ≡ false
    → p.max_len < p.pos + width
    → write_number malloc width v p ≡ none
unfolding write_number
write_number_over malloc width v p e over =
    write_buffer_over malloc (host_to_network p.big_endian width v) p width
      (length-host_to_network p.big_endian width v) e over

write_item_over :
    (malloc : ℕ → Option (List ℕ)) (x : Item) (p : Packet)
    → p.is_auto_malloc ≡ false
    → p.max_len < p.pos + length (encode_item p.big_endian x)
    → write_item malloc x p ≡ none
unfolding write_binary
write_item_over malloc (number width v) p e over =
    write_number_over malloc width v p e
      (omega (arith, length-host_to_network p.big_endian width v))
write_item_over malloc (binary bs) p e over =
    let n = length bs % 2 ^ 32 in
    let size =
      length-append (host_to_network p.big_endian 4 n) bs
      ∙ ap (λ k. k + length bs) (length-host_to_network p.big_endian 4 n) in
    elim (dec_le (p.pos + 4) p.max_len) [
      | yes room ↦
          let (q, s, f) = write_number_fits malloc 4 n p e room in
          rw (s, write_binary)
            (write_buffer_over malloc bs q (length bs) refl f.fixed
              (omega (arith, size, f.pos, f.max_len)))
      | no tight ↦ rw (write_number_over malloc 4 n p e (omega arith), write_binary) refl
    ]

write_items_over :
    (malloc : ℕ → Option (List ℕ)) (xs : List Item) (p : Packet)
    → p.is_auto_malloc ≡ false
    → p.pos ≤ p.max_len
    → p.max_len < p.pos + length (encode p.big_endian xs)
    → write_items malloc xs p ≡ none
unfolding write_items
write_items_over malloc [] p e within over = absurd (omega arith)
write_items_over malloc (x ∷ xs) p e within over =
    let size = length-append (encode_item p.big_endian x) (encode p.big_endian xs) in
    elim (dec_le (p.pos + length (encode_item p.big_endian x)) p.max_len) [
      | yes room ↦
          let (q, s, f) = write_item_fits malloc x p e room in
          let again = ap (λ big. length (encode big xs)) f.order in
          rw (s, write_items)
            (write_items_over malloc xs q f.fixed (omega (arith, f.pos, f.max_len))
              (omega (arith, size, again, f.pos, f.max_len)))
      | no tight ↦ rw (write_item_over malloc x p e (omega arith), write_items) refl
    ]

set_op_of :
    (malloc : ℕ → Option (List ℕ)) (op : ℕ) (p q : Packet)
    → (p.pos == 0) ≡ true
    → write_number malloc 4 packet_head_len p ≡ some q
    → set_op malloc op p ≡ write_number malloc 2 op q
unfolding set_op
set_op_of malloc op p q start e = if_true _ _ start ∙ rw e refl

make_of :
    (malloc : ℕ → Option (List ℕ)) (op : ℕ) (items : List Item) (p q : Packet)
    → set_op malloc op p ≡ some q
    → make malloc op items p ≡ (elim (write_items malloc items q) as (λ x. Option Packet) [
      | none ↦ none
      | some r ↦ finish r
    ])
unfolding make
make_of malloc op items p q e = rw (e, make) refl

finish_of :
    (p : Packet)
    → p.is_finish ≡ false
    → leb 4 p.max_len ≡ true
    → finish p
      ≡ some (record p {
        buffer = copy_at p.buffer 0 (host_to_network true 4 (p.pos % 2 ^ 32));
        is_finish = true;
      })
unfolding finish
finish_of p e large = if_false _ _ e ∙ if_true _ _ large

-- A new packet over a buffer that has room for the head.
head_fits :
    (malloc : ℕ → Option (List ℕ)) (buffer : List ℕ) (big : Bool) (op : ℕ)
    → 6 ≤ length buffer
    → (q : Packet) × (set_op malloc op (new buffer big false) ≡ some q)
      × Filled 6 (new buffer big false) q
unfolding new
head_fits malloc buffer big op room =
    let start = new buffer big false in
    let (p, s, f) = write_number_fits malloc 4 packet_head_len start refl (omega arith) in
    let (q, t, g) = write_number_fits malloc 2 op p f.fixed (omega (arith, f.pos, f.max_len)) in
    (q, set_op_of malloc op start p refl s ∙ t, fill_both f g)

set_op-none :
    (malloc : ℕ → Option (List ℕ)) (op : ℕ) (p : Packet)
    → (p.pos == 0) ≡ true
    → write_number malloc 4 packet_head_len p ≡ none
    → set_op malloc op p ≡ none
unfolding set_op
set_op-none malloc op p start e = if_true _ _ start ∙ rw e refl

make-none :
    (malloc : ℕ → Option (List ℕ)) (op : ℕ) (items : List Item) (p : Packet)
    → set_op malloc op p ≡ none
    → make malloc op items p ≡ none
unfolding make
make-none malloc op items p e = rw (e, make) refl

head_over :
    (malloc : ℕ → Option (List ℕ)) (buffer : List ℕ) (big : Bool) (op : ℕ)
    → length buffer < 6
    → set_op malloc op (new buffer big false) ≡ none
unfolding new
head_over malloc buffer big op over =
    let start = new buffer big false in
    elim (dec_le 4 (length buffer)) [
      | yes room ↦
          let (p, s, f) = write_number_fits malloc 4 packet_head_len start refl room in
          set_op_of malloc op start p refl s
          ∙ write_number_over malloc 2 op p f.fixed (omega (arith, f.pos, f.max_len))
      | no tight ↦
          set_op-none malloc op start refl
            (write_number_over malloc 4 packet_head_len start refl (omega arith))
    ]

-- A packet is made in a buffer that has room for its head of six bytes and for its items, and takes that
-- many bytes of it.
make_fits :
    (malloc : ℕ → Option (List ℕ)) (buffer : List ℕ) (big : Bool) (op : ℕ) (items : List Item)
    → 6 + length (encode big items) ≤ length buffer
    → (q : Packet) × (make malloc op items (new buffer big false) ≡ some q)
      × (q.pos ≡ 6 + length (encode big items))
unfolding new
make_fits malloc buffer big op items room =
    let (p, s, f) = head_fits malloc buffer big op (omega arith) in
    let body = ap (λ b. length (encode b items)) f.order in
    let (q, t, g) =
      write_items_fits malloc items p f.fixed (omega (arith, f.pos, f.max_len, body)) in
    let large : leb 4 q.max_len ≡ true = ground (arith, f.max_len, g.max_len) in
    (
      record q {
        buffer = copy_at q.buffer 0 (host_to_network true 4 (q.pos % 2 ^ 32));
        is_finish = true;
      },
      make_of malloc op items (new buffer big false) p s
          ∙ rw t (finish_of q (g.open_yet ∙ f.open_yet) large),
      omega (arith, f.pos, g.pos, body),
    )

-- A packet that does not fit the buffer fails an assert.
make_overflow :
    (malloc : ℕ → Option (List ℕ)) (buffer : List ℕ) (big : Bool) (op : ℕ) (items : List Item)
    → length buffer < 6 + length (encode big items)
    → make malloc op items (new buffer big false) ≡ none
unfolding new
make_overflow malloc buffer big op items over =
    let start = new buffer big false in
    elim (dec_le 6 (length buffer)) [
      | yes room ↦
          let (p, s, f) = head_fits malloc buffer big op room in
          let body = ap (λ b. length (encode b items)) f.order in
          make_of malloc op items start p s
          ∙ rw
              (write_items_over malloc items p f.fixed (omega (arith, f.pos, f.max_len))
                (omega (arith, f.pos, f.max_len, body)))
              refl
      | no tight ↦ make-none malloc op items start (head_over malloc buffer big op (omega arith))
    ]
