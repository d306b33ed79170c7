-- ===== src/DataSocket/Queue.antt =====
-- The packets that wait, as one sequence of bytes and one of callbacks.
use netxy.Base.{
  ℕ, zero, suc, ◌+◌, ◌-◌, ◌≤◌, ◌<◌, ◌≡◌, refl, sym, ap, ◌∙◌, Bool, true, false, List, [], ◌∷◌, ◌++◌,
  arith, append-nil, append_assoc, leb, length, length-append, length-take, length-drop, drop,
  drop-append_left, drop-drop, drop-nil, take-of_le, if◌then◌else◌, Bool-cases, inl, inr,
}
use netxy.DataSocket.{Pending}
use netxy.DataSocket.Flush.{
  unsent, callback_of, gather_quick, gather_normal, gather, erase_sent, max_iovec, sendbuf_size,
}

-- The bytes that wait, and the callbacks that do.
abbrev pub pending : List Pending → List ℕ
pending [] = []
pending (p ∷ ps) = unsent p ++ pending ps

abbrev pub callbacks : List Pending → List ℕ
callbacks [] = []
callbacks (p ∷ ps) = callback_of p ++ callbacks ps

abbrev pub AllFit : List Pending → Type 0
AllFit [] = Unit
AllFit (p ∷ ps) = (p.left ≤ length p.bytes) × AllFit ps

length-unsent : (p : Pending) → p.left ≤ length p.bytes → length (unsent p) ≡ p.left
unfolding unsent
length-unsent p h = omega (
  arith,
  length-take p.left (drop (length p.bytes - p.left) p.bytes),
  length-drop (length p.bytes - p.left) p.bytes,
)

-- What is left of a packet is the end of its bytes.
unsent_end :
    (p : Pending) → p.left ≤ length p.bytes → unsent p ≡ drop (length p.bytes - p.left) p.bytes
unfolding unsent
unsent_end p h = take-of_le p.left _ (omega (arith, length-drop (length p.bytes - p.left) p.bytes))

unsent_less :
    (p : Pending) (n : ℕ)
    → p.left ≤ length p.bytes
    → n < p.left
    → unsent (record p { left = p.left - n }) ≡ drop n (unsent p)
unsent_less p n h lt =
    unsent_end (record p { left = p.left - n }) (omega arith)
    ∙ ap (λ k. drop k p.bytes) (omega arith)
    ∙ sym (drop-drop n (length p.bytes - p.left) p.bytes)
    ∙ ap (drop n) (sym (unsent_end p h))

drop_over : (n : ℕ) (xs ys : List ℕ) → length xs ≤ n → drop n (xs ++ ys) ≡ drop (n - length xs) ys
drop_over n [] ys h = ap (λ k. drop k ys) (omega arith)
drop_over zero (x ∷ xs) ys h = absurd (omega arith)
drop_over (suc n) (x ∷ xs) ys h =
    drop_over n xs ys (omega arith) ∙ ap (λ k. drop k ys) (omega arith)

-- Erasing what was sent takes these bytes off the waiting ones,
pub erase_sent-pending :
    (n : ℕ) (ps : List Pending) → AllFit ps → pending (erase_sent n ps).0 ≡ drop n (pending ps)
unfolding erase_sent
erase_sent-pending n [] fit = sym (drop-nil n)
erase_sent-pending n (p ∷ ps) fit =
    let size = length-unsent p fit.0 in
    elim (Bool-cases (leb p.left n)) [
      | inl t ↦ rw (t) (
          erase_sent-pending (n - p.left) ps fit.1
          ∙ ap (λ k. drop k (pending ps)) (omega arith)
          ∙ sym (drop_over n (unsent p) (pending ps) (ground arith)))
      | inr t ↦ rw (t) (
          ap (λ bs. bs ++ pending ps) (unsent_less p n fit.0 (ground arith))
          ∙ sym (drop-append_left n (unsent p) (pending ps) (ground arith)))
    ]

-- calls the callbacks of the packets it erases, in order,
pub erase_sent-callbacks :
    (n : ℕ) (ps : List Pending)
    → (erase_sent n ps).1 ++ callbacks (erase_sent n ps).0 ≡ callbacks ps
unfolding erase_sent
erase_sent-callbacks n [] = refl
erase_sent-callbacks n (p ∷ ps) = elim (Bool-cases (leb p.left n)) [
  | inl t ↦ rw (t) (
      append_assoc (callback_of p) (erase_sent (n - p.left) ps).1 _
      ∙ ap (λ cs. callback_of p ++ cs) (erase_sent-callbacks (n - p.left) ps))
  | inr t ↦ rw t refl
]

-- and leaves packets that are well-formed.
pub erase_sent-AllFit : (n : ℕ) (ps : List Pending) → AllFit ps → AllFit (erase_sent n ps).0
unfolding erase_sent
erase_sent-AllFit n [] fit = tt
erase_sent-AllFit n (p ∷ ps) fit = elim (Bool-cases (leb p.left n)) [
  | inl t ↦ rw t (erase_sent-AllFit (n - p.left) ps fit.1)
  | inr t ↦ rw t (omega (arith, fit.0), fit.1)
]

pub length-erase_sent : (n : ℕ) (ps : List Pending) → length (erase_sent n ps).0 ≤ length ps
unfolding erase_sent
length-erase_sent n [] = omega arith
length-erase_sent n (p ∷ ps) = ground (arith, length-erase_sent (n - p.left) ps)

gather_quick_rest :
    (num : ℕ) (ps : List Pending) → (rest : List ℕ) × (gather_quick num ps ++ rest ≡ pending ps)
unfolding gather_quick
gather_quick_rest num [] = ([], refl)
gather_quick_rest num (p ∷ ps) =
    let later = gather_quick_rest (num + 1) ps in
    elim (Bool-cases (leb max_iovec (num + 1))) [
      | inl t ↦ (pending ps, rw t (ap (λ bs. bs ++ pending ps) (append-nil (unsent p))))
      | inr t ↦ (
        later.0,
        rw t (
            append_assoc (unsent p) (gather_quick (num + 1) ps) later.0
            ∙ ap (λ bs. unsent p ++ bs) later.1),
      )
    ]

gather_normal_rest :
    (first : Bool) (size : ℕ) (ps : List Pending)
    → (rest : List ℕ) × (gather_normal first size ps ++ rest ≡ pending ps)
unfolding gather_normal
gather_normal_rest first size [] = ([], refl)
gather_normal_rest first size (p ∷ ps) =
    let later = gather_normal_rest false (size + p.left) ps in
    elim (Bool-cases (leb (size + p.left) sendbuf_size)) [
      | inl t ↦ (
        later.0,
        rw t (
            append_assoc (unsent p) (gather_normal false (size + p.left) ps) later.0
            ∙ ap (λ bs. unsent p ++ bs) later.1),
      )
      | inr t ↦ elim (Bool-cases first) [
        | inl u ↦ (pending ps, rw (t, u) refl)
        | inr u ↦ (unsent p ++ pending ps, rw (t, u) refl)
      ]
    ]

-- A round offers a beginning of the waiting bytes, and the whole first packet at least.
pub gather_rest :
    (quick : Bool) (ps : List Pending) → (rest : List ℕ) × (gather quick ps ++ rest ≡ pending ps)
unfolding gather
gather_rest true ps = gather_quick_rest 0 ps
gather_rest false ps = gather_normal_rest true 0 ps

pub gather_first :
    (quick : Bool) (p : Pending) (ps : List Pending)
    → p.left ≤ length p.bytes
    → p.left ≤ length (gather quick (p ∷ ps))
unfolding gather gather_quick gather_normal
gather_first true p ps h = omega (
  arith,
  length-unsent p h,
  length-append (unsent p) (if leb max_iovec (0 + 1) then [] else gather_quick (0 + 1) ps),
)
gather_first false p ps h =
    ground
      (arith, length-unsent p h, length-append (unsent p) (gather_normal false (0 + p.left) ps))
