-- ===== src/Packet/Bounds.antt =====
-- Reads of any bytes stay inside them.
use mathlib.Core.Option.{some-injective}
use mathlib.Core.Path.{subst}
use netxy.Base.{
  ℕ, ◌+◌, ◌≤◌, ◌≡◌, refl, sym, ap, ◌∙◌, some, List, [], ◌∷◌, arith, leb, length, if_true, if_false,
  Bool-cases, Option-cases, inl, inr, none≢some,
}
use netxy.Packet.{ReadPacket, read_number, read_binary}
use netxy.Packet.Items.{Item, Kind, number_kind, binary_kind, read_item, read_items}

-- The reader stands in its bytes, which are the same.
pub record IsInside (r s : ReadPacket) : Type 0 where
  pub within : s.pos ≤ length s.buffer
  pub same : s.buffer ≡ r.buffer

read_number-IsInside :
    (width : ℕ) (r : ReadPacket) {v : ℕ} {s : ReadPacket}
    → read_number width r ≡ some (v, s)
    → IsInside r s
unfolding read_number
read_number-IsInside width r e = elim (Bool-cases (leb (r.pos + width) (length r.buffer))) [
  | inl t ↦
      let here = ap (λ p. p.1) (some-injective _ _ (sym (if_true _ _ t) ∙ e)) in
      subst (IsInside r) here (record { within = ground arith; same = refl })
  | inr t ↦ absurd (none≢some (sym (if_false _ _ t) ∙ e))
]

read_binary-IsInside :
    (r : ReadPacket) {bs : List ℕ} {s : ReadPacket} → read_binary r ≡ some (bs, s) → IsInside r s
unfolding read_binary
read_binary-IsInside r e = elim (Option-cases (read_number 4 r)) [
  | inl n ↦ absurd (none≢some (rw (n, read_binary) at e))
  | inr ((len, q), t) ↦
      let i = read_number-IsInside 4 r t in
      let got = ap (λ p. p.1) (some-injective _ _ (rw (t, read_binary) at e)) in
      elim (Bool-cases (leb (q.pos + len) (length q.buffer))) [
        | inl u ↦
            subst (IsInside r) (ap (λ (p : List ℕ × ReadPacket). p.1) (sym (if_true _ _ u)) ∙ got)
              (record { within = ground arith; same = i.same })
        | inr u ↦
            subst (IsInside r) (ap (λ (p : List ℕ × ReadPacket). p.1) (sym (if_false _ _ u)) ∙ got)
              i
      ]
]

read_item-IsInside :
    (k : Kind) (r : ReadPacket) {x : Item} {s : ReadPacket}
    → read_item k r ≡ some (x, s)
    → IsInside r s
read_item-IsInside (number_kind width) r e = elim (Option-cases (read_number width r)) [
  | inl n ↦ absurd (none≢some (rw (n, read_item) at e))
  | inr ((v, q), t) ↦
      subst (IsInside r) (ap (λ p. p.1) (some-injective _ _ (rw (t, read_item) at e)))
        (read_number-IsInside width r t)
]
read_item-IsInside binary_kind r e = elim (Option-cases (read_binary r)) [
  | inl n ↦ absurd (none≢some (rw (n, read_item) at e))
  | inr ((v, q), t) ↦
      subst (IsInside r) (ap (λ p. p.1) (some-injective _ _ (rw (t, read_item) at e)))
        (read_binary-IsInside r t)
]

-- Whatever the bytes are, a reader that stands in them and reads numbers and byte strings stays in them,
-- and does not change them.
pub read_items-IsInside :
    (ks : List Kind) (r : ReadPacket) {xs : List Item} {s : ReadPacket}
    → r.pos ≤ length r.buffer
    → read_items ks r ≡ some (xs, s)
    → (s.pos ≤ length r.buffer) × (s.buffer ≡ r.buffer)
unfolding read_items
read_items-IsInside [] r h e =
    let same = ap (λ p. p.1) (some-injective _ _ e) in
    (subst (λ s. s.pos ≤ length r.buffer) same h, ap (λ s. s.buffer) (sym same))
read_items-IsInside (k ∷ ks) r h e = elim (Option-cases (read_item k r)) [
  | inl n ↦ absurd (none≢some (rw (n, read_items) at e))
  | inr ((x, q), t) ↦
      let i = read_item-IsInside k r t in
      let f = rw (t, read_items) at e in
      elim (Option-cases (read_items ks q)) [
        | inl n ↦ absurd (none≢some (rw n at f))
        | inr ((ys, u), g) ↦
            let same = ap (λ p. p.1) (some-injective _ _ (rw g at f)) in
            let rest = read_items-IsInside ks q i.within g in
            subst (λ s. (s.pos ≤ length r.buffer) × (s.buffer ≡ r.buffer)) same
              (subst (λ b. u.pos ≤ length b) i.same rest.0, rest.1 ∙ i.same)
      ]
]
