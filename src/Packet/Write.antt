-- ===== src/Packet/Write.antt =====
-- What the writes of a packet append.
use mathlib.Core.Option.{some-injective}
use mathlib.Core.Path.{subst}
use netxy.Base.{
  if_true, if_false, ℕ, ◌+◌, ◌%◌, ◌^◌, ◌≤◌, ◌≡◌, refl, sym, ap, ◌∙◌, true, ◌&&◌, Option, none, some,
  List, [], ◌++◌, append_assoc, append-nil, arith, ltb, leb, ◌==◌, length, length-append,
  length-take, length-drop, take, drop, take-append, Bool-cases, Option-cases, inl, inr, none≢some,
}
use netxy.Packet.{
  Packet, host_to_network, grow_buffer, write_buffer, write_number, write_binary, packet_head_len,
  set_op, written,
}

-- The buffer has its length, and the position lies in it.
pub record IsValid (p : Packet) : Type 0 where
  pub storage : length p.buffer ≡ p.max_len
  pub within : p.pos ≤ p.max_len

-- What `malloc` returns has the size asked for.
abbrev pub AllSized : (ℕ → Option (List ℕ)) → Type 0
AllSized malloc = (n : ℕ) (fresh : List ℕ) → malloc n ≡ some fresh → length fresh ≡ n

-- A write appended bytes.
pub record Wrote (src : List ℕ) (p q : Packet) : Type 0 where
  pub valid : IsValid q
  pub bytes : written q ≡ written p ++ src
  pub pos : q.pos ≡ p.pos + length src
  pub order : q.big_endian ≡ p.big_endian
  pub open_yet : q.is_finish ≡ p.is_finish

pub write_both :
    {src more : List ℕ} {p q r : Packet} → Wrote src p q → Wrote more q r → Wrote (src ++ more) p r
write_both {src} {more} {p} a b = record {
  valid = b.valid;
  bytes = b.bytes ∙ ap (λ bs. bs ++ more) a.bytes ∙ append_assoc (written p) src more;
  pos = omega (arith, a.pos, b.pos, length-append src more);
  order = b.order ∙ a.order;
  open_yet = b.open_yet ∙ a.open_yet;
}

length-written : {p : Packet} → IsValid p → length (written p) ≡ p.pos
length-written {p} v = omega (arith, length-take p.pos p.buffer, v.storage, v.within)

grow_buffer-Wrote :
    (malloc : ℕ → Option (List ℕ)) (len : ℕ) (p : Packet)
    → AllSized malloc
    → IsValid p
    → Wrote [] p (grow_buffer malloc len p)
unfolding grow_buffer
grow_buffer-Wrote malloc len p sized v =
    let same : Wrote [] p p = record {
      valid = v;
      bytes = sym (append-nil _);
      pos = omega arith;
      order = refl;
      open_yet = refl;
    } in
    elim (Bool-cases (p.is_auto_malloc && ltb p.max_len (p.pos + len))) [
      | inl t ↦ elim (Option-cases (malloc (p.max_len + len))) [
        | inl n ↦ subst (Wrote [] p) (sym (if_true _ _ t ∙ ap (grown p) n)) same
        | inr (fresh, e) ↦ subst (Wrote [] p) (sym (if_true _ _ t ∙ ap (grown p) e)) (record {
          valid = record {
            storage = omega (
              arith,
              length-append (written p) (drop p.pos fresh),
              length-written v,
              length-drop p.pos fresh,
              sized _ fresh e,
              v.within,
            );
            within = omega (arith, v.within);
          };
          bytes =
              take-append p.pos (written p) (drop p.pos fresh) (length-written v)
              ∙ sym (append-nil _);
          pos = omega arith;
          order = refl;
          open_yet = refl;
        })
      ]
      | inr t ↦ subst (Wrote [] p) (sym (if_false _ _ t)) same
    ]
  where
    grown : Packet → Option (List ℕ) → Packet
    grown p o = elim o [
      | none ↦ p
      | some fresh ↦ record p {
        buffer = take p.pos p.buffer ++ drop p.pos fresh;
        max_len = p.max_len + len;
      }
    ]

pub write_buffer-Wrote :
    (malloc : ℕ → Option (List ℕ)) (src : List ℕ) (p : Packet) {q : Packet}
    → AllSized malloc
    → IsValid p
    → write_buffer malloc src p ≡ some q
    → Wrote src p q
unfolding write_buffer
write_buffer-Wrote malloc src p {q} sized v e =
    let g = grow_buffer malloc (length src) p in
    let a = grow_buffer-Wrote malloc (length src) p sized v in
    elim (Bool-cases (leb (g.pos + length src) g.max_len)) [
      | inl t ↦
          let same = some-injective _ _ (sym (if_true _ _ t) ∙ e) in
          let rest = drop (g.pos + length src) g.buffer in
          let fits : g.pos + length src ≤ g.max_len = ground arith in
          let front : length (written g ++ src) ≡ g.pos + length src =
            omega (arith, length-append (written g) src, length-written a.valid) in
          subst (Wrote src p) same (
            write_both a (record {
              valid = record {
                storage = omega (
                  arith,
                  length-append (written g) (src ++ rest),
                  length-append src rest,
                  length-written a.valid,
                  length-drop (g.pos + length src) g.buffer,
                  a.valid.storage,
                );
                within = fits;
              };
              bytes =
                  ap (take (g.pos + length src)) (sym (append_assoc (written g) src rest))
                  ∙ take-append _ (written g ++ src) rest front;
              pos = refl;
              order = refl;
              open_yet = refl;
            }))
      | inr t ↦ absurd (none≢some (sym (if_false _ _ t) ∙ e))
    ]

pub write_number-Wrote :
    (malloc : ℕ → Option (List ℕ)) (width n : ℕ) (p : Packet) {q : Packet}
    → AllSized malloc
    → IsValid p
    → write_number malloc width n p ≡ some q
    → Wrote (host_to_network p.big_endian width n) p q
unfolding write_number
write_number-Wrote malloc width n p sized v e = write_buffer-Wrote malloc _ p sized v e

pub write_binary-Wrote :
    (malloc : ℕ → Option (List ℕ)) (binary : List ℕ) (p : Packet) {q : Packet}
    → AllSized malloc
    → IsValid p
    → write_binary malloc binary p ≡ some q
    → Wrote (host_to_network p.big_endian 4 (length binary % 2 ^ 32) ++ binary) p q
unfolding write_binary
write_binary-Wrote malloc binary p sized v e =
    elim (Option-cases (write_number malloc 4 (length binary % 2 ^ 32) p)) [
      | inl n ↦ absurd (none≢some (rw (n, write_binary) at e))
      | inr (q, s) ↦
          let a = write_number-Wrote malloc 4 (length binary % 2 ^ 32) p sized v s in
          write_both a
            (write_buffer-Wrote malloc binary q sized a.valid (rw (s, write_binary) at e))
    ]

pub set_op-Wrote :
    (malloc : ℕ → Option (List ℕ)) (op : ℕ) (p : Packet) {q : Packet}
    → AllSized malloc
    → IsValid p
    → p.pos ≡ 0
    → set_op malloc op p ≡ some q
    → Wrote
        (host_to_network p.big_endian 4 packet_head_len ++ host_to_network p.big_endian 2 op)
        p
        q
unfolding set_op
set_op-Wrote malloc op p {q = last} sized v start e =
    let zero_pos : (p.pos == 0) ≡ true = ground arith in
    let f = sym (if_true _ _ zero_pos) ∙ e in
    elim (Option-cases (write_number malloc 4 packet_head_len p)) [
      | inl n ↦ absurd (none≢some (rw n at f))
      | inr (q, s) ↦
          let a = write_number-Wrote malloc 4 packet_head_len p sized v s in
          let b = write_number-Wrote malloc 2 op q sized a.valid (rw s at f) in
          write_both a (subst (λ big. Wrote (host_to_network big 2 op) q last) a.order b)
    ]
