-- ===== src/Packet/Read.antt =====
-- What the reads of a packet find.
use netxy.Base.{
  ℕ, ◌+◌, ◌%◌, ◌^◌, ◌≤◌, ◌<◌, ◌≡◌, refl, sym, ap, ◌∙◌, true, some, List, [], ◌∷◌, ◌++◌,
  append_assoc, arith, leb, length, length-append, length-drop, take, drop, take-append,
  drop-append, drop-drop, if◌then◌else◌, if_true,
}
use netxy.Packet.{ReadPacket, host_to_network, network_to_host, read_number, read_binary}
use netxy.Packet.Digits.{length-host_to_network, network_to_host-host_to_network}
use netxy.Packet.Items.{
  Item, number, binary, Kind, number_kind, binary_kind, kinds, read_item, read_items, encode,
  AllFit,
}

-- The bytes from the position on.
pub record At (r : ReadPacket) (bytes : List ℕ) : Type 0 where
  pub within : r.pos ≤ length r.buffer
  pub rest : drop r.pos r.buffer ≡ bytes

room :
    {r : ReadPacket} (src more : List ℕ) → At r (src ++ more) → r.pos + length src ≤ length r.buffer
room {r} src more a =
    omega (arith, a.within, length-drop r.pos r.buffer, ap length a.rest, length-append src more)

-- Behind bytes that were read.
pub skip :
    (r : ReadPacket) (src more : List ℕ)
    → At r (src ++ more)
    → At (record r { pos = r.pos + length src }) more
skip r src more a = record {
  within = room src more a;
  rest =
      sym (drop-drop (length src) r.pos r.buffer)
      ∙ ap (drop (length src)) a.rest
      ∙ drop-append _ src more refl;
}

pub read_number_lem :
    (width : ℕ) (r : ReadPacket) (src more : List ℕ)
    → length src ≡ width
    → At r (src ++ more)
    → read_number width r
      ≡ some (network_to_host r.big_endian src, record r { pos = r.pos + length src })
unfolding read_number
read_number_lem width r src more e a =
    let fits : leb (r.pos + width) (length r.buffer) ≡ true = ground (arith, room src more a) in
    if_true _ _ fits
    ∙ ap (λ bs. some (network_to_host r.big_endian bs, record r { pos = r.pos + width }))
        (ap (take width) a.rest ∙ take-append width src more e)
    ∙ ap (λ n. some (network_to_host r.big_endian src, record r { pos = r.pos + n })) (sym e)

-- A number that was written in the reader's order.
pub read_number-host_to_network :
    (width v : ℕ) (r : ReadPacket) (more : List ℕ)
    → v < 256 ^ width
    → At r (host_to_network r.big_endian width v ++ more)
    → read_number width r
      ≡ some (v, record r { pos = r.pos + length (host_to_network r.big_endian width v) })
read_number-host_to_network width v r more lt a =
    read_number_lem width r (host_to_network r.big_endian width v) more
      (length-host_to_network r.big_endian width v) a
    ∙ ap (λ n. some (n, record r { pos = r.pos + length (host_to_network r.big_endian width v) }))
        (network_to_host-host_to_network r.big_endian width v lt)

read_binary_of :
    (r q : ReadPacket) (len : ℕ)
    → read_number 4 r ≡ some (len, q)
    → read_binary r
      ≡ some (
          if leb (q.pos + len) (length q.buffer)
          then (take len (drop q.pos q.buffer), record q { pos = q.pos + len })
          else ([], q))
unfolding read_binary
read_binary_of r q len e = rw (e, read_binary) refl

read_items_of :
    (k : Kind) (ks : List Kind) (x : Item) (xs : List Item) (r s t : ReadPacket)
    → read_item k r ≡ some (x, s)
    → read_items ks s ≡ some (xs, t)
    → read_items (k ∷ ks) r ≡ some (x ∷ xs, t)
unfolding read_items
read_items_of k ks x xs r s t e f = rw (e, read_items) (rw f refl)

moved :
    (r : ReadPacket) (xs ys more : List ℕ) → At r ((xs ++ ys) ++ more) → At r (xs ++ (ys ++ more))
moved r xs ys more a = record { within = a.within; rest = a.rest ∙ append_assoc xs ys more }

read_binary_lem :
    (bs : List ℕ) (r : ReadPacket) (more : List ℕ)
    → length bs < 2 ^ 32
    → At r ((host_to_network r.big_endian 4 (length bs % 2 ^ 32) ++ bs) ++ more)
    → read_binary r
      ≡ some (
        bs,
        record r {
          pos = r.pos + length (host_to_network r.big_endian 4 (length bs % 2 ^ 32) ++ bs);
        },
      )
read_binary_lem bs r more lt a =
    let n = length bs % 2 ^ 32 in
    let head = host_to_network r.big_endian 4 n in
    let whole : n ≡ length bs = omega arith in
    let b = moved r head bs more a in
    let first = read_number-host_to_network 4 n r (bs ++ more) (omega arith) b in
    let q : ReadPacket = record r { pos = r.pos + length head } in
    let c = skip r head (bs ++ more) b in
    let fits : leb (q.pos + n) (length q.buffer) ≡ true = ground (arith, room bs more c) in
    let got : take n (drop q.pos q.buffer) ≡ bs =
      ap (take n) c.rest ∙ take-append n bs more (sym whole) in
    let end : q.pos + n ≡ r.pos + length (head ++ bs) = omega (arith, length-append head bs) in
    read_binary_of r q n first
    ∙ ap some (
        if_true _ _ fits
        ∙ ap (λ t. (t, record q { pos = q.pos + n })) got
        ∙ ap (λ k. (bs, record r { pos = k })) end)

-- Items that were written are read back.
pub read_items-encode :
    (xs : List Item) (r : ReadPacket) (more : List ℕ)
    → AllFit xs
    → At r (encode r.big_endian xs ++ more)
    → (s : ReadPacket) × (read_items (kinds xs) r ≡ some (xs, s))
      × At s more
      × (s.buffer ≡ r.buffer)
unfolding read_items
read_items-encode [] r more fit a = (r, refl, a, refl)
read_items-encode (number width v ∷ xs) r more fit a =
    let src = host_to_network r.big_endian width v in
    let b = moved r src (encode r.big_endian xs) more a in
    let first = read_number-host_to_network width v r (encode r.big_endian xs ++ more) fit.0 b in
    let (last, e, c, same) =
      read_items-encode xs (record r { pos = r.pos + length src }) more fit.1 (skip r src _ b) in
    (
      last,
      read_items_of (number_kind width) (kinds xs) (number width v) xs r _ last
          (rw (first, read_item) refl) e,
      c,
      same,
    )
read_items-encode (binary bs ∷ xs) r more fit a =
    let src = host_to_network r.big_endian 4 (length bs % 2 ^ 32) ++ bs in
    let b = moved r src (encode r.big_endian xs) more a in
    let first = read_binary_lem bs r (encode r.big_endian xs ++ more) fit.0 b in
    let (last, e, c, same) =
      read_items-encode xs (record r { pos = r.pos + length src }) more fit.1 (skip r src _ b) in
    (
      last,
      read_items_of binary_kind (kinds xs) (binary bs) xs r _ last (rw (first, read_item) refl) e,
      c,
      same,
    )
