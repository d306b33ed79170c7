-- ===== src/WebSocket/Tests.antt =====
-- Runs of the WebSocket frames, and the claims at concrete payloads.
use netxy.Base.{
  ℕ, ◌^◌, ◌≤◌, ◌≡◌, refl, true, false, none, some, List, [], ◌∷◌, ◌++◌, arith, length, take,
  replicate, length-replicate,
}
use netxy.WebSocket.{Rand, xor_mask, length_bytes, build, read_length, read_payload, extract}
use netxy.WebSocket.Stream.{extract_bounds}
use netxy.WebSocket.RoundTrip.{extract-build}
use netxy.WebSocket.Prefix.{extract-take, extract-build_long}

abbrev hello : List ℕ
hello = 72 ∷ 101 ∷ 108 ∷ 108 ∷ 111 ∷ []

abbrev rand_mask : Rand
rand_mask = record { r0 = 0x137; r1 = 0xfa; r2 = 0x21; r3 = 0x3d }

abbrev masked_hello : List ℕ
masked_hello = 0x81 ∷ 0x85 ∷ 0x37 ∷ 0xfa ∷ 0x21 ∷ 0x3d ∷ 0x7f ∷ 0x9f ∷ 0x4d ∷ 0x51 ∷ 0x58 ∷ []

build_masked_run : build hello 1 true (some rand_mask) ≡ masked_hello
unfolding build length_bytes xor_mask
build_masked_run = refl

build_plain_run : build hello 2 false none ≡ 2 ∷ 5 ∷ hello
unfolding build length_bytes
build_plain_run = refl

extract_run :
    extract (masked_hello ++ 7 ∷ 8 ∷ []) (9 ∷ [])
    ≡ some (record { payload = 9 ∷ hello; opcode = 1; frame_size = 11; fin = true })
unfolding extract read_length read_payload xor_mask
extract_run = refl

extract_bounds_example : (2 ≤ 11) × (11 ≤ 13)
extract_bounds_example =
    extract_bounds (masked_hello ++ 7 ∷ 8 ∷ []) (9 ∷ [])
      (
        omega arith,
        (
          omega arith,
          (
            omega arith,
            (
              omega arith,
              (
                omega arith,
                (
                  omega arith,
                  (
                    omega arith,
                    (
                      omega arith,
                      (omega arith, (omega arith, (omega arith, (omega arith, (omega arith, tt))))),
                    ),
                  ),
                ),
              ),
            ),
          ),
        ),
      )
      extract_run

extract-build_example :
    extract (build hello 1 true (some rand_mask) ++ 7 ∷ []) (9 ∷ [])
    ≡ some (record {
      payload = 9 ∷ hello;
      opcode = 1;
      frame_size = length (build hello 1 true (some rand_mask));
      fin = true;
    })
extract-build_example =
    extract-build hello (7 ∷ []) (9 ∷ []) 1 true (some rand_mask)
      (omega arith, (omega arith, (omega arith, (omega arith, (omega arith, tt))))) (omega arith)
      (omega arith)

extract-take_example : extract (take 6 (build hello 1 true none)) [] ≡ none
unfolding build length_bytes
extract-take_example =
    extract-take hello [] 1 true none 6
      (omega arith, (omega arith, (omega arith, (omega arith, (omega arith, tt))))) (omega arith)
      (omega arith) (omega arith)

of_length : (n : ℕ) → (xs : List ℕ) × (length xs ≡ n)
of_length n = (replicate n 65, length-replicate n 65)

extract-build_long_example : extract (build (of_length (2 ^ 31)).0 2 true none) [] ≡ none
extract-build_long_example =
    extract-build_long (of_length (2 ^ 31)).0 [] 2 true none (omega (arith, (of_length (2 ^ 31)).1))
      (omega (arith, (of_length (2 ^ 31)).1))
