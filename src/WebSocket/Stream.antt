-- ===== src/WebSocket/Stream.antt =====
-- Frames in a stream: an extraction reads no more than the frame, and more bytes behind it change
-- nothing.
use Prim.Native.Nat.{bit_and}
use mathlib.Core.Option.{some-injective}
use netxy.Base.{
  ℕ, zero, suc, ◌+◌, ◌^◌, ◌≤◌, ◌<◌, ◌≡◌, refl, sym, ap, ◌∙◌, Bool, true, false, not, none, some,
  List, [], ◌∷◌, ◌++◌, arith, ltb, ◌==◌, length, length-append, length-drop, take, drop,
  take-append_left, drop-append_left, if◌then◌else◌, Bool-cases, Option-cases, inl, inr, none≢some,
}
use netxy.WebSocket.{byte_at, Frame, read_length, read_payload, extract}
use netxy.WebSocket.Bytes.{low_seven, top_clear}

abbrev pub AllBytes : List ℕ → Type 0
AllBytes [] = Unit
AllBytes (b ∷ bs) = (b < 256) × AllBytes bs

pub AllBytes-append : (xs ys : List ℕ) → AllBytes xs → AllBytes ys → AllBytes (xs ++ ys)
AllBytes-append [] ys h g = g
AllBytes-append (x ∷ xs) ys h g = (h.0, AllBytes-append xs ys h.1 g)

pub byte_at-AllBytes : (bs : List ℕ) (i : ℕ) → AllBytes bs → byte_at bs i < 256
byte_at-AllBytes [] i h = omega arith
byte_at-AllBytes (b ∷ bs) zero h = h.0
byte_at-AllBytes (b ∷ bs) (suc i) h = byte_at-AllBytes bs i h.1

byte_at-append : (bs rest : List ℕ) (i : ℕ) → i < length bs → byte_at (bs ++ rest) i ≡ byte_at bs i
byte_at-append [] rest i h = absurd (omega arith)
byte_at-append (b ∷ bs) rest zero h = refl
byte_at-append (b ∷ bs) rest (suc i) h = byte_at-append bs rest i (omega arith)

-- A window inside a list is the same in a longer one.
window-append :
    (bs rest : List ℕ) (from n : ℕ)
    → from + n ≤ length bs
    → take n (drop from (bs ++ rest)) ≡ take n (drop from bs)
window-append bs rest from n h =
    ap (take n) (drop-append_left from bs rest (omega arith))
    ∙ take-append_left n (drop from bs) rest (omega (arith, length-drop from bs))

-- The length fits 31 bits, and its bytes are there.
pub read_length_bounds :
    (bs : List ℕ) {len pos : ℕ}
    → AllBytes bs
    → 2 ≤ length bs
    → read_length bs ≡ some (len, pos)
    → (len < 2 ^ 31) × (2 ≤ pos) × (pos ≤ 10) × (pos ≤ length bs)
unfolding read_length
read_length_bounds bs {len} {pos} b h e = ground (
  arith,
  low_seven (byte_at bs 1) (byte_at-AllBytes bs 1 b),
  top_clear (byte_at bs 6) (byte_at-AllBytes bs 6 b),
  byte_at-AllBytes bs 2 b,
  byte_at-AllBytes bs 3 b,
  byte_at-AllBytes bs 7 b,
  byte_at-AllBytes bs 8 b,
  byte_at-AllBytes bs 9 b,
)

read_length_need :
    (bs : List ℕ) {r : ℕ × ℕ}
    → read_length bs ≡ some r
    → ((bit_and (byte_at bs 1) 0x7f == 126) ≡ true → 4 ≤ length bs)
      × ((bit_and (byte_at bs 1) 0x7f == 126) ≡ false
          → (bit_and (byte_at bs 1) 0x7f == 127) ≡ true
          → 10 ≤ length bs)
unfolding read_length
read_length_need bs e = (λ t. ground arith, λ t u. ground arith)

read_length-append :
    (bs rest : List ℕ) {r : ℕ × ℕ}
    → 2 ≤ length bs
    → read_length bs ≡ some r
    → read_length (bs ++ rest) ≡ some r
unfolding read_length
read_length-append bs rest h e = elim (Bool-cases (bit_and (byte_at bs 1) 0x7f == 126)) [
  | inl t ↦
      let four = (read_length_need bs e).0 t in
      rw
        (
          byte_at-append bs rest 1 (omega arith),
          byte_at-append bs rest 2 (omega arith),
          byte_at-append bs rest 3 (omega arith),
        )
        (ground (arith, length-append bs rest))
  | inr t ↦ elim (Bool-cases (bit_and (byte_at bs 1) 0x7f == 127)) [
    | inl u ↦
        let ten = (read_length_need bs e).1 t u in
        rw
          (
            byte_at-append bs rest 1 (omega arith),
            byte_at-append bs rest 2 (omega arith),
            byte_at-append bs rest 3 (omega arith),
            byte_at-append bs rest 4 (omega arith),
            byte_at-append bs rest 5 (omega arith),
            byte_at-append bs rest 6 (omega arith),
            byte_at-append bs rest 7 (omega arith),
            byte_at-append bs rest 8 (omega arith),
            byte_at-append bs rest 9 (omega arith),
          )
          (ground (arith, length-append bs rest))
    | inr u ↦ rw (byte_at-append bs rest 1 (omega arith)) (ground arith)
  ]
]

-- The payload's bytes are there, and its size is that of the frame.
read_payload_bounds :
    (bs : List ℕ) (masked : Bool) (len pos : ℕ) {out : List ℕ} {size : ℕ}
    → len < 2 ^ 31
    → pos ≤ 10
    → read_payload bs masked len pos ≡ some (out, size)
    → (size ≤ length bs) × (size ≡ len + pos + (if masked then 4 else 0))
unfolding read_payload
read_payload_bounds bs masked len pos h h2 e = ground arith

read_payload-append :
    (bs rest : List ℕ) (masked : Bool) (len pos : ℕ) {r : List ℕ × ℕ}
    → len < 2 ^ 31
    → pos ≤ 10
    → read_payload bs masked len pos ≡ some r
    → read_payload (bs ++ rest) masked len pos ≡ some r
unfolding read_payload
read_payload-append bs rest true len pos h h2 e =
    ground (
      arith,
      length-append bs rest,
      window-append bs rest pos 4,
      window-append bs rest (pos + 4) len,
    )
read_payload-append bs rest false len pos h h2 e =
    ground (arith, length-append bs rest, window-append bs rest pos len)

-- What an extraction found.
pub record Parts (bs before : List ℕ) (r : Frame) : Type 0 where
  pub len : ℕ
  pub pos : ℕ
  pub bytes : List ℕ
  pub two : 2 ≤ length bs
  pub length_read : read_length bs ≡ some (len, pos)
  pub payload_read :
      read_payload bs (not (bit_and (byte_at bs 1) 0x80 == 0)) len pos ≡ some (bytes, r.frame_size)
  pub result : r ≡ record {
    payload = before ++ bytes;
    opcode = bit_and (byte_at bs 0) 0x0f;
    frame_size = r.frame_size;
    fin = not (bit_and (byte_at bs 0) 0x80 == 0);
  }

parts : (bs before : List ℕ) {r : Frame} → extract bs before ≡ some r → Parts bs before r
unfolding extract
parts bs before {r} e = elim (Bool-cases (ltb (length bs) 2)) [
  | inl t ↦ absurd (none≢some (rw (t) at e))
  | inr t ↦ elim (Option-cases (read_length bs)) [
    | inl u ↦ absurd (none≢some (rw (t, u) at e))
    | inr ((len, pos), u) ↦
        elim (Option-cases (read_payload bs (not (bit_and (byte_at bs 1) 0x80 == 0)) len pos)) [
          | inl v ↦ absurd (none≢some (rw (t, u, v) at e))
          | inr ((bytes, size), v) ↦
              let same = some-injective _ _ (rw (t, u, v) at e) in
              record {
                len = len;
                pos = pos;
                bytes = bytes;
                two = ground arith;
                length_read = u;
                payload_read = v ∙ ap (λ n. some (bytes, n)) (ap (λ f. f.frame_size) same);
                result =
                    sym same
                    ∙ ap
                        (λ n. record {
                          payload = before ++ bytes;
                          opcode = bit_and (byte_at bs 0) 0x0f;
                          frame_size = n;
                          fin = not (bit_and (byte_at bs 0) 0x80 == 0);
                        })
                        (ap (λ f. f.frame_size) same);
              }
        ]
  ]
]

-- A frame that was extracted lies inside the bytes.
pub extract_bounds :
    (bs before : List ℕ) {r : Frame}
    → AllBytes bs
    → extract bs before ≡ some r
    → (2 ≤ r.frame_size) × (r.frame_size ≤ length bs)
extract_bounds bs before h e =
    let p = parts bs before e in
    let lb = read_length_bounds bs h p.two p.length_read in
    let pb = read_payload_bounds bs _ p.len p.pos lb.0 lb.2 p.payload_read in ground arith

-- A frame whose length and payload are read is extracted.
pub extract_of :
    (bs before : List ℕ) (head second len pos size : ℕ) (bytes : List ℕ)
    → 2 ≤ length bs
    → byte_at bs 0 ≡ head
    → byte_at bs 1 ≡ second
    → read_length bs ≡ some (len, pos)
    → read_payload bs (not (bit_and second 0x80 == 0)) len pos ≡ some (bytes, size)
    → extract bs before
      ≡ some (record {
        payload = before ++ bytes;
        opcode = bit_and head 0x0f;
        frame_size = size;
        fin = not (bit_and head 0x80 == 0);
      })
unfolding extract
extract_of bs before head second len pos size bytes two h s l p =
    let long : ltb (length bs) 2 ≡ false = ground arith in rw (long, l, s, p, h, extract) refl

-- More bytes behind a frame change nothing.
pub extract-append :
    (bs rest before : List ℕ) {r : Frame}
    → AllBytes bs
    → extract bs before ≡ some r
    → extract (bs ++ rest) before ≡ some r
extract-append bs rest before h e =
    let p = parts bs before e in
    let lb = read_length_bounds bs h p.two p.length_read in
    extract_of (bs ++ rest) before _ _ p.len p.pos _ p.bytes
      (omega (arith, p.two, length-append bs rest))
      (byte_at-append bs rest 0 (omega (arith, p.two)))
      (byte_at-append bs rest 1 (omega (arith, p.two)))
      (read_length-append bs rest p.two p.length_read)
      (read_payload-append bs rest _ p.len p.pos lb.0 lb.2 p.payload_read)
    ∙ ap some (sym p.result)

pub extract-none : (bs before : List ℕ) → read_length bs ≡ none → extract bs before ≡ none
unfolding extract
extract-none bs before e = elim (Bool-cases (ltb (length bs) 2)) [
  | inl t ↦ rw t refl
  | inr t ↦ rw (t, e) refl
]
