-- ===== src/WebSocket/Prefix.antt =====
-- Frames that `wsFrameBuild` made, cut short or too long.
use Prim.Native.Nat.{bit_and}
use mathlib.Core.Option.{some-injective}
use mathlib.Core.Path.{subst}
use netxy.Base.{
  ℕ, zero, suc, ◌+◌, ◌/◌, ◌%◌, ◌^◌, ◌≤◌, ◌<◌, ◌≡◌, sym, ap, ◌∙◌, Bool, true, Option, none, some,
  List, [], ◌∷◌, ◌++◌, arith, leb, length, length-take, take, drop, take-append-drop, append-nil,
  Bool-cases, Option-cases, inl, inr,
}
use netxy.WebSocket.{Rand, mask_bytes, xor_mask, build, read_length, extract}
use netxy.WebSocket.Bytes.{xor_byte, or_byte, len_fields, top_set}
use netxy.WebSocket.Stream.{
  AllBytes-append, AllBytes, byte_at-AllBytes, extract_bounds, extract-append, extract-none,
}
use netxy.WebSocket.RoundTrip.{
  len_code, len_tail, len_code_bound, mask_bytes-AllBytes, build_plain, build_masked, extract-build,
}

take-AllBytes : (n : ℕ) (xs : List ℕ) → AllBytes xs → AllBytes (take n xs)
take-AllBytes zero xs h = tt
take-AllBytes (suc n) [] h = tt
take-AllBytes (suc n) (x ∷ xs) h = (h.0, take-AllBytes n xs h.1)

xor_mask-AllBytes :
    (mask : List ℕ) (i : ℕ) (bs : List ℕ)
    → AllBytes mask
    → AllBytes bs
    → AllBytes (xor_mask mask i bs)
unfolding xor_mask
xor_mask-AllBytes mask i [] m b = tt
xor_mask-AllBytes mask i (x ∷ bs) m b =
    (xor_byte x _ b.0 (byte_at-AllBytes mask (i % 4) m), xor_mask-AllBytes mask (i + 1) bs m b.1)

len_tail-AllBytes : (n : ℕ) → AllBytes (len_tail n)
unfolding len_tail
len_tail-AllBytes n = elim (Bool-cases (leb n 125)) [
  | inl t ↦ rw t tt
  | inr t ↦ elim (Bool-cases (leb n 0xffff)) [
    | inl u ↦ rw (t, u) (omega arith, (omega arith, tt))
    | inr u ↦
        rw (t, u)
          (
            omega arith,
            (
              omega arith,
              (
                omega arith,
                (omega arith, (omega arith, (omega arith, (omega arith, (omega arith, tt))))),
              ),
            ),
          )
  ]
]

build-AllBytes :
    (payload : List ℕ) (t : ℕ) (fin : Bool) (masking : Option Rand)
    → AllBytes payload
    → AllBytes (build payload t fin masking)
build-AllBytes payload t fin none h =
    subst AllBytes (sym (build_plain payload [] t fin) ∙ append-nil _) (
      AllBytes-append (_ ∷ _ ∷ len_tail (length payload)) (payload ++ [])
        (
          or_byte (t % 256) fin (omega arith),
          (omega (arith, len_code_bound (length payload)), len_tail-AllBytes (length payload)),
        )
        (AllBytes-append payload [] h tt))
build-AllBytes payload t fin (some r) h =
    subst AllBytes (sym (build_masked payload [] t fin r) ∙ append-nil _) (
      AllBytes-append (_ ∷ _ ∷ len_tail (length payload))
        (mask_bytes r ++ (xor_mask (mask_bytes r) 0 payload ++ []))
        (
          or_byte (t % 256) fin (omega arith),
          (
            or_byte _ true (omega (arith, len_code_bound (length payload))),
            len_tail-AllBytes (length payload),
          ),
        )
        (AllBytes-append (mask_bytes r) _ (mask_bytes-AllBytes r) (
          AllBytes-append _ []
            (xor_mask-AllBytes (mask_bytes r) 0 payload (mask_bytes-AllBytes r) h) tt)))

-- Part of a frame is no frame: as long as a byte of what `wsFrameBuild` made is missing, the
-- extraction fails.
pub extract-take :
    (payload before : List ℕ) (t : ℕ) (fin : Bool) (masking : Option Rand) (k : ℕ)
    → AllBytes payload
    → length payload < 2 ^ 31
    → t < 16
    → k < length (build payload t fin masking)
    → extract (take k (build payload t fin masking)) before ≡ none
extract-take payload before t fin masking k all lt h short =
    let frame = build payload t fin masking in
    let bytes = take-AllBytes k frame (build-AllBytes payload t fin masking all) in
    elim (Option-cases (extract (take k frame) before)) [
      | inl e ↦ e
      | inr (r, e) ↦
          let whole =
            subst (λ bs. extract bs before ≡ some r)
              (take-append-drop k frame ∙ sym (append-nil frame))
              (extract-append (take k frame) (drop k frame) before bytes e) in
          let same =
            some-injective _ _
              (sym whole ∙ extract-build payload [] before t fin masking all lt h) in
          let size = ap (λ f. f.frame_size) same in
          absurd (
            omega
              (arith, (extract_bounds (take k frame) before bytes e).1, length-take k frame, size))
    ]

too_long :
    (h b n : ℕ) (rest : List ℕ)
    → 2 ^ 31 ≤ n
    → n < 2 ^ 32
    → bit_and b 0x7f ≡ len_code n
    → read_length (h ∷ b ∷ (len_tail n ++ rest)) ≡ none
unfolding read_length len_code len_tail
too_long h b n rest ge lt e = ground (arith, top_set (n / 2 ^ 24 % 256))

-- A payload of 2^31 bytes or more, whose length still fits the four bytes that `wsFrameBuild` writes,
-- makes a frame that is never extracted.
pub extract-build_long :
    (payload before : List ℕ) (t : ℕ) (fin : Bool) (masking : Option Rand)
    → 2 ^ 31 ≤ length payload
    → length payload < 2 ^ 32
    → extract (build payload t fin masking) before ≡ none
extract-build_long payload before t fin none ge lt =
    let code = len_fields (len_code (length payload)) (len_code_bound (length payload)) in
    extract-none _ before (
      ap read_length (sym (append-nil _) ∙ build_plain payload [] t fin)
      ∙ too_long _ _ (length payload) (payload ++ []) ge lt code.2)
extract-build_long payload before t fin (some r) ge lt =
    let code = len_fields (len_code (length payload)) (len_code_bound (length payload)) in
    extract-none _ before (
      ap read_length (sym (append-nil _) ∙ build_masked payload [] t fin r)
      ∙ too_long _ _ (length payload) (mask_bytes r ++ (xor_mask (mask_bytes r) 0 payload ++ [])) ge
          lt code.0)
