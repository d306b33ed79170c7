-- ===== src/WebSocket/RoundTrip.antt =====
-- Frames that `wsFrameBuild` made, extracted again.
use Prim.Native.Nat.{bit_and, bit_or}
use netxy.Base.{
  ℕ, suc, ◌+◌, ◌/◌, ◌%◌, ◌^◌, ◌≤◌, ◌<◌, ◌≡◌, refl, sym, ap, ◌∙◌, Bool, true, false, not, Option,
  none, some, List, [], ◌∷◌, ◌++◌, arith, leb, ◌==◌, length, length-append, drop, take-append,
  drop-append, drop-drop, append_assoc, if◌then◌else◌, Bool-cases, inl, inr,
}
use netxy.WebSocket.{
  Rand, mask_bytes, xor_mask, length_bytes, build, Frame, read_length, read_payload, extract,
}
use netxy.WebSocket.Bytes.{xor_twice, head_fields, len_fields}
use netxy.WebSocket.Stream.{AllBytes, byte_at-AllBytes, extract_of}

-- The second byte's length, and the length's further bytes.
unfoldable pub len_code : ℕ → ℕ
len_code n = if leb n 125 then n else if leb n 0xffff then 126 else 127

unfoldable pub len_tail : ℕ → List ℕ
len_tail n =
    if leb n 125
    then []
    else if leb n 0xffff
    then (n / 2 ^ 8 % 256) ∷ (n % 256) ∷ []
    else 0
      ∷ 0
      ∷ 0
      ∷ 0
      ∷ (n / 2 ^ 24 % 256)
      ∷ (n / 2 ^ 16 % 256)
      ∷ (n / 2 ^ 8 % 256)
      ∷ (n % 256)
      ∷ []

pub length_bytes_lem : (n : ℕ) → length_bytes n ≡ len_code n ∷ len_tail n
unfolding length_bytes len_code len_tail
length_bytes_lem n = ground arith

pub len_code_bound : (n : ℕ) → len_code n < 128
unfolding len_code
len_code_bound n = ground arith

len_tail_bound : (n : ℕ) → length (len_tail n) ≤ 8
unfolding len_tail
len_tail_bound n = ground arith

read_length_of :
    (h b n : ℕ) (rest : List ℕ)
    → n < 2 ^ 31
    → bit_and b 0x7f ≡ len_code n
    → read_length (h ∷ b ∷ (len_tail n ++ rest)) ≡ some (n, length (len_tail n) + 2)
unfolding read_length len_code len_tail
read_length_of h b n rest lt e = elim (Bool-cases (leb n 125)) [
  | inl t ↦ ground arith
  | inr t ↦ elim (Bool-cases (leb n 0xffff)) [
    | inl u ↦ ground arith
    | inr u ↦ ground (arith, (len_fields (n / 2 ^ 24 % 256) (omega arith)).3)
  ]
]

length-xor_mask : (mask : List ℕ) (i : ℕ) (bs : List ℕ) → length (xor_mask mask i bs) ≡ length bs
unfolding xor_mask
length-xor_mask mask i [] = refl
length-xor_mask mask i (b ∷ bs) = ap suc (length-xor_mask mask (i + 1) bs)

-- Masking twice with the same mask gives the payload back.
xor_mask_twice :
    (mask : List ℕ) (i : ℕ) (bs : List ℕ)
    → AllBytes mask
    → AllBytes bs
    → xor_mask mask i (xor_mask mask i bs) ≡ bs
unfolding xor_mask
xor_mask_twice mask i [] m b = refl
xor_mask_twice mask i (x ∷ bs) m b =
    rw (xor_twice x _ b.0 (byte_at-AllBytes mask (i % 4) m), xor_mask_twice mask (i + 1) bs m b.1)
      refl

pub mask_bytes-AllBytes : (r : Rand) → AllBytes (mask_bytes r)
mask_bytes-AllBytes r = (omega arith, (omega arith, (omega arith, (omega arith, tt))))

read_payload_plain :
    (front body rest : List ℕ)
    → length front ≤ 10
    → length body < 2 ^ 31
    → read_payload (front ++ (body ++ rest)) false (length body) (length front)
      ≡ some (body, length body + length front)
unfolding read_payload
read_payload_plain front body rest f b =
    rw (drop-append _ front (body ++ rest) refl, take-append _ body rest refl)
      (ground (arith, length-append front (body ++ rest), length-append body rest))

read_payload_masked :
    (front body rest : List ℕ) (r : Rand)
    → length front ≤ 10
    → length body < 2 ^ 31
    → AllBytes body
    → read_payload
        (front ++ (mask_bytes r ++ (xor_mask (mask_bytes r) 0 body ++ rest)))
        true
        (length body)
        (length front)
      ≡ some (body, length body + (length front + 4))
unfolding read_payload
read_payload_masked front body rest r f b all =
    let masked = xor_mask (mask_bytes r) 0 body in
    let bare : drop (length front + 4) (front ++ (mask_bytes r ++ (masked ++ rest)))
        ≡ masked ++ rest =
      sym (drop-drop 4 (length front) (front ++ (mask_bytes r ++ (masked ++ rest))))
      ∙ ap (drop 4) (drop-append _ front (mask_bytes r ++ (masked ++ rest)) refl) in
    rw
      (
        drop-append _ front (mask_bytes r ++ (masked ++ rest)) refl,
        bare,
        take-append (length body) masked rest (length-xor_mask _ 0 body),
        xor_mask_twice (mask_bytes r) 0 body (mask_bytes-AllBytes r) all,
      )
      (ground (
        arith,
        length-append front (mask_bytes r ++ (masked ++ rest)),
        length-append masked rest,
        length-xor_mask (mask_bytes r) 0 body,
      ))

-- An unmasked and a masked frame with more bytes behind it, as the front, the mask and the body.
pub build_plain :
    (payload rest : List ℕ) (t : ℕ) (fin : Bool)
    → build payload t fin none ++ rest
      ≡ (bit_or (t % 256) (if fin then 0x80 else 0)
          ∷ len_code (length payload)
          ∷ len_tail (length payload))
        ++ (payload ++ rest)
unfolding build
build_plain payload rest t fin = rw (length_bytes_lem (length payload)) (
    append_assoc
      (bit_or (t % 256) (if fin then 0x80 else 0)
        ∷ len_code (length payload)
        ∷ len_tail (length payload))
      payload rest)

pub build_masked :
    (payload rest : List ℕ) (t : ℕ) (fin : Bool) (r : Rand)
    → build payload t fin (some r) ++ rest
      ≡ (bit_or (t % 256) (if fin then 0x80 else 0)
          ∷ bit_or (len_code (length payload)) 0x80
          ∷ len_tail (length payload))
        ++ (mask_bytes r ++ (xor_mask (mask_bytes r) 0 payload ++ rest))
unfolding build
build_masked payload rest t fin r = rw (length_bytes_lem (length payload)) (
    append_assoc
      (bit_or (t % 256) (if fin then 0x80 else 0)
        ∷ bit_or (len_code (length payload)) 0x80
        ∷ len_tail (length payload))
      (mask_bytes r ++ xor_mask (mask_bytes r) 0 payload) rest)

head_opcode :
    (t : ℕ) (fin : Bool) → t < 16 → bit_and (bit_or (t % 256) (if fin then 0x80 else 0)) 0x0f ≡ t
head_opcode t true h = let e : t % 256 ≡ t = omega arith in rw e (head_fields t h).0
head_opcode t false h = let e : t % 256 ≡ t = omega arith in rw e (head_fields t h).2

head_fin :
    (t : ℕ) (fin : Bool)
    → t < 16
    → not (bit_and (bit_or (t % 256) (if fin then 0x80 else 0)) 0x80 == 0) ≡ fin
head_fin t true h = let e : t % 256 ≡ t = omega arith in rw (e, (head_fields t h).1) refl
head_fin t false h = let e : t % 256 ≡ t = omega arith in rw (e, (head_fields t h).3) refl

frame_eq :
    (p : List ℕ) {o o2 s s2 : ℕ} {f f2 : Bool}
    → o ≡ o2
    → s ≡ s2
    → f ≡ f2
    → Path
        (Option Frame)
        (some (record { payload = p; opcode = o; frame_size = s; fin = f }))
        (some (record { payload = p; opcode = o2; frame_size = s2; fin = f2 }))
frame_eq p e e2 e3 = rw (e, e2, e3) refl

length-build :
    (payload : List ℕ) (t : ℕ) (fin : Bool) (masking : Option Rand)
    → length (build payload t fin masking)
      ≡ length payload
        + (2 + length (len_tail (length payload)) + (elim masking [ none ↦ 0 | some r ↦ 4 ]))
unfolding build
length-build payload t fin none =
    rw (length_bytes_lem (length payload))
      (omega (arith, length-append (len_tail (length payload)) payload))
length-build payload t fin (some r) = rw (length_bytes_lem (length payload)) (
    omega (
      arith,
      length-append (len_tail (length payload)) (mask_bytes r ++ xor_mask (mask_bytes r) 0 payload),
      length-xor_mask (mask_bytes r) 0 payload,
    ))

-- A frame has its two first bytes.
pub length-build_two :
    (payload : List ℕ) (t : ℕ) (fin : Bool) (masking : Option Rand)
    → 2 ≤ length (build payload t fin masking)
length-build_two payload t fin none = omega (arith, length-build payload t fin none)
length-build_two payload t fin (some r) = omega (arith, length-build payload t fin (some r))

-- The round trip: what `wsFrameBuild` made, with any bytes behind it, is extracted as it was built,
-- masked or not, and the frame's size is that of the built frame.
pub extract-build :
    (payload rest before : List ℕ) (t : ℕ) (fin : Bool) (masking : Option Rand)
    → AllBytes payload
    → length payload < 2 ^ 31
    → t < 16
    → extract (build payload t fin masking ++ rest) before
      ≡ some (record {
        payload = before ++ payload;
        opcode = t;
        frame_size = length (build payload t fin masking);
        fin = fin;
      })
extract-build payload rest before t fin none all lt h =
    let n = length payload in
    let front : List ℕ = bit_or (t % 256) (if fin then 0x80 else 0) ∷ len_code n ∷ len_tail n in
    let code = len_fields (len_code n) (len_code_bound n) in
    ap (λ frame. extract frame before) (build_plain payload rest t fin)
    ∙ extract_of (front ++ (payload ++ rest)) before _ _ n (length front) (n + length front) payload
        (omega arith) refl refl
        (read_length_of _ (len_code n) n (payload ++ rest) lt code.2
          ∙ ap (λ k. some (n, k)) (omega arith))
        (rw (code.3) (read_payload_plain front payload rest (omega (arith, len_tail_bound n)) lt))
    ∙ frame_eq (before ++ payload) (head_opcode t fin h)
        (omega (arith, length-build payload t fin none)) (head_fin t fin h)
extract-build payload rest before t fin (some r) all lt h =
    let n = length payload in
    let front : List ℕ =
      bit_or (t % 256) (if fin then 0x80 else 0) ∷ bit_or (len_code n) 0x80 ∷ len_tail n in
    let code = len_fields (len_code n) (len_code_bound n) in
    let masked = xor_mask (mask_bytes r) 0 payload in
    ap (λ frame. extract frame before) (build_masked payload rest t fin r)
    ∙ extract_of (front ++ (mask_bytes r ++ (masked ++ rest))) before _ _ n (length front)
        (n + (length front + 4)) payload (omega arith) refl refl
        (read_length_of _ (bit_or (len_code n) 0x80) n (mask_bytes r ++ (masked ++ rest)) lt code.0
          ∙ ap (λ k. some (n, k)) (omega arith))
        (rw (code.1)
          (read_payload_masked front payload rest r (omega (arith, len_tail_bound n)) lt all))
    ∙ frame_eq (before ++ payload) (head_opcode t fin h)
        (omega (arith, length-build payload t fin (some r))) (head_fin t fin h)
