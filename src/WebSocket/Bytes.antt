-- ===== src/WebSocket/Bytes.antt =====
-- The bit operations of the frames, over all bytes.
use Prim.Native.Nat.{bit_and, bit_or, bit_xor}
use netxy.Base.{
  ℕ, zero, suc, ◌<◌, ◌≤◌, ◌≡◌, refl, Bool, true, false, not, ◌&&◌, arith, ◌==◌, ltb, if◌then◌else◌,
}

-- Whether a test passes for all numbers up to `top`.
passes : (top : ℕ) (test : ℕ → Bool) → Bool
passes zero test = true
passes (suc top) test = if test top then passes top test else false

passes_at : (top : ℕ) (test : ℕ → Bool) {i : ℕ} → passes top test ≡ true → i < top → test i ≡ true
unfolding passes
passes_at zero test whole below = absurd (omega arith)
passes_at (suc top) test {i} whole below = ground (arith, passes_at top test {i = i})

xor_table :
    passes 256 (λ m. passes 256 (λ x. (bit_xor (bit_xor x m) m == x) && ltb (bit_xor x m) 256))
    ≡ true
unfolding passes
xor_table = refl

xor_row :
    (x m : ℕ) → x < 256 → m < 256 → ((bit_xor (bit_xor x m) m == x) && ltb (bit_xor x m) 256) ≡ true
xor_row x m h h2 =
    passes_at 256 _
      (passes_at 256
        (λ m. passes 256 (λ x. (bit_xor (bit_xor x m) m == x) && ltb (bit_xor x m) 256)) xor_table
        h2)
      h

-- Masking twice gives the byte back, and a masked byte is a byte.
pub xor_twice : (x m : ℕ) → x < 256 → m < 256 → bit_xor (bit_xor x m) m ≡ x
xor_twice x m h h2 = ground (arith, xor_row x m h h2)

pub xor_byte : (x m : ℕ) → x < 256 → m < 256 → bit_xor x m < 256
xor_byte x m h h2 = ground (arith, xor_row x m h h2)

-- The parts of the first byte: the type below the flag.
head_table :
    passes 16 (λ t.
      (bit_and (bit_or t 0x80) 0x0f == t)
      && ((bit_and (bit_or t 0x80) 0x80 == 0x80)
          && ((bit_and (bit_or t 0) 0x0f == t) && (bit_and (bit_or t 0) 0x80 == 0))))
    ≡ true
unfolding passes
head_table = refl

-- The parts of the second byte: seven bits of length below the flag.
len_table :
    passes 128 (λ n.
      (bit_and (bit_or n 0x80) 0x7f == n)
      && ((bit_and (bit_or n 0x80) 0x80 == 0x80)
          && ((bit_and n 0x7f == n) && (bit_and n 0x80 == 0))))
    ≡ true
unfolding passes
len_table = refl

low_table : passes 256 (λ b. ltb (bit_and b 0x7f) 128) ≡ true
unfolding passes
low_table = refl

top_table :
    passes 256 (λ b. if ltb b 128 then bit_and b 0x80 == 0 else not (bit_and b 0x80 == 0)) ≡ true
unfolding passes
top_table = refl

pub head_fields :
    (t : ℕ)
    → t < 16
    → (bit_and (bit_or t 0x80) 0x0f ≡ t)
      × (bit_and (bit_or t 0x80) 0x80 ≡ 0x80)
      × (bit_and (bit_or t 0) 0x0f ≡ t)
      × (bit_and (bit_or t 0) 0x80 ≡ 0)
head_fields t h = ground (arith, passes_at 16 _ head_table h)

pub len_fields :
    (n : ℕ)
    → n < 128
    → (bit_and (bit_or n 0x80) 0x7f ≡ n)
      × (bit_and (bit_or n 0x80) 0x80 ≡ 0x80)
      × (bit_and n 0x7f ≡ n)
      × (bit_and n 0x80 ≡ 0)
len_fields n h = ground (arith, passes_at 128 _ len_table h)

pub low_seven : (b : ℕ) → b < 256 → bit_and b 0x7f < 128
low_seven b h = ground (arith, passes_at 256 _ low_table h)

pub top_clear : (b : ℕ) → b < 256 → (bit_and b 0x80 == 0) ≡ true → b < 128
top_clear b h e = ground (arith, passes_at 256 _ top_table h)

pub top_set : (b : ℕ) → 128 ≤ b → b < 256 → (bit_and b 0x80 == 0) ≡ false
top_set b h h2 = ground (arith, passes_at 256 _ top_table h2)

or_table : passes 256 (λ b. ltb (bit_or b 0x80) 256 && (bit_or b 0 == b)) ≡ true
unfolding passes
or_table = refl

pub or_byte : (b : ℕ) (flag : Bool) → b < 256 → bit_or b (if flag then 0x80 else 0) < 256
or_byte b true h = ground (arith, passes_at 256 _ or_table h)
or_byte b false h = ground (arith, passes_at 256 _ or_table h)
