-- ===== src/Packet/RoundTrip.antt =====
-- Packets that were made, read back.
use mathlib.Core.Option.{some-injective}
use mathlib.Core.Path.{subst}
use netxy.Base.{
  ℕ, zero, suc, ◌+◌, ◌-◌, ◌%◌, ◌^◌, ◌≤◌, ◌<◌, ◌≡◌, refl, sym, ap, ◌∙◌, Bool, true, false, Option,
  some, List, [], ◌∷◌, ◌++◌, append_assoc, append-nil, arith, leb, length, length-append,
  length-drop, take, drop, drop-take, drop-append, if_true, if_false, Option-cases, inl, inr,
  none≢some,
}
use netxy.Packet.{
  Packet, ReadPacket, new, host_to_network, network_to_host, set_op, finish, written,
  packet_head_len, read_number,
}
use netxy.Packet.Digits.{length-host_to_network, network_to_host-host_to_network}
use netxy.Packet.Items.{
  Item, number, binary, Kind, kinds, write_item, write_items, make, read_items, read_all,
  encode_item, encode, AllFit,
}
use netxy.Packet.Write.{
  IsValid, AllSized, Wrote, write_both, write_number-Wrote, write_binary-Wrote, set_op-Wrote,
}
use netxy.Packet.Read.{At, skip, read_number_lem, read_number-host_to_network, read_items-encode}

write_item-Wrote :
    (malloc : ℕ → Option (List ℕ)) (x : Item) (p : Packet) {q : Packet}
    → AllSized malloc
    → IsValid p
    → write_item malloc x p ≡ some q
    → Wrote (encode_item p.big_endian x) p q
write_item-Wrote malloc (number width v) p sized ok e =
    write_number-Wrote malloc width v p sized ok e
write_item-Wrote malloc (binary bs) p sized ok e = write_binary-Wrote malloc bs p sized ok e

write_items-Wrote :
    (malloc : ℕ → Option (List ℕ)) (xs : List Item) (p : Packet) {q : Packet}
    → AllSized malloc
    → IsValid p
    → write_items malloc xs p ≡ some q
    → Wrote (encode p.big_endian xs) p q
unfolding write_items
write_items-Wrote malloc [] p sized v e = subst (Wrote [] p) (some-injective _ _ e) (record {
  valid = v;
  bytes = sym (append-nil _);
  pos = omega arith;
  order = refl;
  open_yet = refl;
})
write_items-Wrote malloc (x ∷ xs) p {q = last} sized v e =
    elim (Option-cases (write_item malloc x p)) [
      | inl n ↦ absurd (none≢some (rw (n, write_items) at e))
      | inr (q, s) ↦
          let a = write_item-Wrote malloc x p sized v s in
          let b = write_items-Wrote malloc xs q sized a.valid (rw (s, write_items) at e) in
          write_both a (subst (λ big. Wrote (encode big xs) q last) a.order b)
    ]

-- The head of a packet, once it is finished, holds its length with the high byte first.
take_over :
    (xs ys : List ℕ) (n : ℕ) → length xs ≤ n → take n (xs ++ ys) ≡ xs ++ take (n - length xs) ys
take_over [] ys n h = ap (λ k. take k ys) (omega arith)
take_over (x ∷ xs) ys zero h = absurd (omega arith)
take_over (x ∷ xs) ys (suc n) h =
    ap (λ t. x ∷ t) (take_over xs ys n (omega arith) ∙ ap (λ k. xs ++ take k ys) (omega arith))

finish_lem :
    (p : Packet) {q : Packet}
    → IsValid p
    → p.is_finish ≡ false
    → 4 ≤ p.pos
    → finish p ≡ some q
    → written q ≡ host_to_network true 4 (p.pos % 2 ^ 32) ++ drop 4 (written p)
unfolding finish
finish_lem p {q} v u h e =
    let head = host_to_network true 4 (p.pos % 2 ^ 32) in
    let size = length-host_to_network true 4 (p.pos % 2 ^ 32) in
    let end : 0 + length head ≡ 4 = omega (arith, size) in
    let fits : leb 4 p.max_len ≡ true = ground (arith, v.within) in
    let same = some-injective _ _ (sym (if_false _ _ u ∙ if_true _ _ fits) ∙ e) in
    ap written (sym same)
    ∙ take_over head (drop (0 + length head) p.buffer) p.pos (omega (arith, size))
    ∙ ap (λ k. head ++ take (p.pos - k) (drop (0 + length head) p.buffer)) size
    ∙ ap (λ k. head ++ take (p.pos - 4) (drop k p.buffer)) end
    ∙ ap (λ bs. head ++ bs) (sym (drop-take 4 p.pos p.buffer))

made :
    (op : ℕ) (items : List Item) (p : Packet) {q r last : Packet}
    → IsValid r
    → p.pos ≡ 0
    → p.is_finish ≡ false
    → Wrote
        (host_to_network p.big_endian 4 packet_head_len ++ host_to_network p.big_endian 2 op)
        p
        q
    → Wrote (encode p.big_endian items) q r
    → finish r ≡ some last
    → written last
      ≡ host_to_network true 4 ((6 + length (encode p.big_endian items)) % 2 ^ 32)
        ++ (host_to_network p.big_endian 2 op ++ encode p.big_endian items)
made op items p {r = r} v start u a b f =
    let big = p.big_endian in
    let head = host_to_network big 4 packet_head_len in
    let sizes = length-host_to_network big 4 packet_head_len in
    let w = write_both a b in
    let pos : r.pos ≡ 6 + length (encode big items) = omega (
      arith,
      w.pos,
      start,
      length-append (head ++ host_to_network big 2 op) (encode big items),
      length-append head (host_to_network big 2 op),
      sizes,
      length-host_to_network big 2 op,
    ) in
    let bytes =
      w.bytes
      ∙ ap (λ k. take k p.buffer ++ ((head ++ host_to_network big 2 op) ++ encode big items))
          start in
    finish_lem r v (w.open_yet ∙ u) (omega (arith, pos)) f
    ∙ ap (λ k. host_to_network true 4 (k % 2 ^ 32) ++ drop 4 (written r)) pos
    ∙ ap (λ bs. host_to_network true 4 ((6 + length (encode big items)) % 2 ^ 32) ++ bs)
        (ap (drop 4) (bytes ∙ append_assoc head (host_to_network big 2 op) (encode big items))
          ∙ drop-append 4 head (host_to_network big 2 op ++ encode big items) sizes)

-- The bytes of a packet that was made.
make_lem :
    (malloc : ℕ → Option (List ℕ)) (op : ℕ) (items : List Item) (p : Packet) {q : Packet}
    → AllSized malloc
    → IsValid p
    → p.pos ≡ 0
    → p.is_finish ≡ false
    → make malloc op items p ≡ some q
    → written q
      ≡ host_to_network true 4 ((6 + length (encode p.big_endian items)) % 2 ^ 32)
        ++ (host_to_network p.big_endian 2 op ++ encode p.big_endian items)
unfolding make
make_lem malloc op items p {q = last} sized v start u e = elim (Option-cases (set_op malloc op p)) [
  | inl n ↦ absurd (none≢some (rw (n, make) at e))
  | inr (q, s) ↦
      let f = rw (s, make) at e in
      elim (Option-cases (write_items malloc items q)) [
        | inl n ↦ absurd (none≢some (rw n at f))
        | inr (r, t) ↦
            let a = set_op-Wrote malloc op p sized v start s in
            let b = write_items-Wrote malloc items q sized a.valid t in
            let whole = subst (λ big. Wrote (encode big items) q r) a.order b in
            made op items p whole.valid start u a whole (rw t at f)
      ]
]

read_all_of :
    (ks : List Kind) (r s t u : ReadPacket) (len op : ℕ) (xs : List Item)
    → read_number 4 r ≡ some (len, s)
    → read_number 2 s ≡ some (op, t)
    → read_items ks t ≡ some (xs, u)
    → read_all ks r ≡ some (len, op, xs, u)
unfolding read_all
read_all_of ks r s t u len op xs e f g = rw (e, read_all) (rw f (rw g refl))

pub read_all-make :
    (malloc : ℕ → Option (List ℕ)) (buffer : List ℕ) (big auto : Bool) (op : ℕ) (items : List Item)
    (q : Packet)
    → AllSized malloc
    → op < 2 ^ 16
    → AllFit items
    → make malloc op items (new buffer big auto) ≡ some q
    → (end : ReadPacket) × (read_all
          (kinds items)
          (record { buffer = written q; pos = 0; big_endian = big })
        ≡ some (
          network_to_host big (host_to_network true 4 (length (written q) % 2 ^ 32)),
          op,
          items,
          end,
        ))
      × (end.pos ≡ length (written q))
unfolding new
read_all-make malloc buffer big auto op items q sized small fit e =
    let start : Packet = record {
      buffer = buffer;
      max_len = length buffer;
      pos = 0;
      big_endian = big;
      is_auto_malloc = auto;
      is_finish = false;
    } in
    let v : IsValid start = record { storage = refl; within = omega arith } in
    let bytes = make_lem malloc op items start sized v refl refl e in
    let head = host_to_network true 4 ((6 + length (encode big items)) % 2 ^ 32) in
    let code = host_to_network big 2 op in
    let body = encode big items in
    let total : length (written q) ≡ 6 + length body = omega (
      arith,
      ap length bytes,
      length-append head (code ++ body),
      length-append code body,
      length-host_to_network true 4 ((6 + length body) % 2 ^ 32),
      length-host_to_network big 2 op,
    ) in
    let r : ReadPacket = record { buffer = written q; pos = 0; big_endian = big } in
    let at_start : At r (head ++ (code ++ body)) = record { within = omega arith; rest = bytes } in
    let first =
      read_number_lem 4 r head (code ++ body) (length-host_to_network true 4 _) at_start in
    let at_op = skip r head (code ++ body) at_start in
    let r2 : ReadPacket = record r { pos = 0 + length head } in
    let second = read_number-host_to_network 2 op r2 body (omega (arith, small)) at_op in
    let at_body = skip r2 code body at_op in
    let r3 : ReadPacket = record r2 { pos = r2.pos + length code } in
    let (end, third, at_end, same) =
      read_items-encode items r3 [] fit
        (record { within = at_body.within; rest = at_body.rest ∙ sym (append-nil body) }) in
    (
      end,
      read_all_of (kinds items) r r2 r3 end _ op items first second third
          ∙ ap
              (λ n.
                some (network_to_host big (host_to_network true 4 (n % 2 ^ 32)), op, items, end))
              (sym total),
      omega (
        arith,
        at_end.within,
        ap length at_end.rest,
        length-drop end.pos end.buffer,
        ap length same,
      ),
    )

-- With the high byte first, as is the default, the length that is read from a packet is the number of
-- its bytes, if 32 bits hold it.
read_number-make :
    (malloc : ℕ → Option (List ℕ)) (buffer : List ℕ) (auto : Bool) (op : ℕ) (items : List Item)
    (q : Packet)
    → AllSized malloc
    → op < 2 ^ 16
    → AllFit items
    → length (written q) < 2 ^ 32
    → make malloc op items (new buffer true auto) ≡ some q
    → (end : ReadPacket) × (read_all
          (kinds items)
          (record { buffer = written q; pos = 0; big_endian = true })
        ≡ some (length (written q), op, items, end))
read_number-make malloc buffer auto op items q sized small fit short e =
    let (end, read, last) = read_all-make malloc buffer true auto op items q sized small fit e in
    (
      end,
      read
          ∙ ap (λ n. some (n, op, items, end))
              (network_to_host-host_to_network true 4 _ (omega arith) ∙ omega arith),
    )
