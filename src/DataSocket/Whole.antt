-- ===== src/DataSocket/Whole.antt =====
-- A flush at the limits: the system takes all that it is offered, and packets of no bytes.
use mathlib.Core.Bool.{true≢false}
use mathlib.Core.Path.{subst}
use mathlib.Core.Option.{some-injective}
use netxy.Base.{
  if_true, if_false, ℕ, zero, suc, ◌+◌, ◌-◌, ◌≤◌, ◌<◌, ◌≡◌, refl, sym, ap, ◌∙◌, Bool, true, false,
  not, some, List, [], ◌∷◌, ◌++◌, append-nil, arith, ltb, leb, ◌==◌, length, if◌then◌else◌,
  Bool-cases, inl, inr, ◌⊎◌, none≢some,
}
use netxy.DataSocket.{Pending, DataSocket, is_empty, is_open, proc_close_in_loop}
use netxy.DataSocket.Flush.{
  Answer, unsent, gather, gather_quick, gather_normal, has_work, max_iovec, erase_sent, write_round,
  flush_steps, flush,
}
use netxy.DataSocket.Queue.{pending, callbacks, AllFit, gather_first}
use netxy.DataSocket.Ends.{flush_steps_lem}
use netxy.DataSocket.Rounds.{AllWithin, After, kept, kept_on, taken-After, taken}

-- `flush`, over `quickFlush` and over `normalFlush`, comes to an end, and loses and repeats no byte and
-- no callback, if the system takes no more than it is offered and the packets have the bytes that are
-- left of them: up to closing the connection, it reaches a socket with the same bytes, first those
-- that were written, then those that wait, and the same callbacks, first those that were called.
pub flush_lem :
    (quick check : Bool) (answers : ℕ → List ℕ → Answer) (s : DataSocket)
    → AllWithin answers
    → AllFit s.send_list
    → (core : DataSocket) × (flush quick check answers s ≡ some core
        ⊎ flush quick check answers s ≡ some (proc_close_in_loop core))
      × (core.written ++ pending core.send_list ≡ s.written ++ pending s.send_list)
      × (core.completed ++ callbacks core.send_list ≡ s.completed ++ callbacks s.send_list)
unfolding flush
flush_lem quick check answers s within fit = elim (Bool-cases s.can_write) [
  | inl t ↦ elim (Bool-cases (is_open s)) [
    | inl u ↦
        let (last, e, end) =
          flush_steps_lem quick check answers 0 (suc (length s.send_list)) s within fit
            (omega arith) in
        let run = if_true _ _ t ∙ if_true _ _ u ∙ e in
        (
          end.core,
          elim end.how [
            | inl (same, stop) ↦ inl (run ∙ ap some same)
            | inr same ↦ inr (run ∙ ap some same)
          ],
          end.after.bytes,
          end.after.calls,
        )
    | inr u ↦ (s, inl (if_true _ _ t ∙ if_false _ _ u), refl, refl)
  ]
  | inr t ↦ (s, inl (if_false _ _ t), refl, refl)
]

-- Packets that all have bytes left.
abbrev pub AllSome : List Pending → Type 0
AllSome [] = Unit
AllSome (p ∷ ps) = (0 < p.left) × (p.left ≤ length p.bytes) × AllSome ps

some-AllFit : (ps : List Pending) → AllSome ps → AllFit ps
some-AllFit [] h = tt
some-AllFit (p ∷ ps) h = (h.1, some-AllFit ps h.2)

-- The system takes all that it is offered.
abbrev pub TakesAll : (ℕ → List ℕ → Answer) → Type 0
TakesAll answers = (k : ℕ) (ready : List ℕ) → (answers k ready).count ≡ length ready

erase_sent-AllSome : (n : ℕ) (ps : List Pending) → AllSome ps → AllSome (erase_sent n ps).0
unfolding erase_sent
erase_sent-AllSome n [] h = tt
erase_sent-AllSome n (p ∷ ps) h = elim (Bool-cases (leb p.left n)) [
  | inl t ↦ rw t (erase_sent-AllSome (n - p.left) ps h.2)
  | inr t ↦ rw t (ground arith, omega (arith, h.1), h.2)
]

gather-some :
    (quick : Bool) (ps : List Pending)
    → AllSome ps
    → is_empty ps ≡ false
    → 0 < length (gather quick ps)
gather-some quick [] h e = absurd (true≢false e)
gather-some quick (p ∷ ps) h e = omega (arith, h.0, gather_first quick p ps h.1)

work-some : (quick : Bool) (ps : List Pending) → AllSome ps → has_work quick ps ≡ not (is_empty ps)
unfolding has_work gather gather_normal
work-some true ps h = refl
work-some false [] h = refl
work-some false (p ∷ ps) h = ltb_true (gather-some false (p ∷ ps) h refl)
  where
    ltb_true : {n : ℕ} → 0 < n → ltb 0 n ≡ true
    ltb_true h = ground arith

-- The round in which the system takes all.
round_all :
    (quick check : Bool) (a : Answer) (s : DataSocket)
    → 0 < length (gather quick s.send_list)
    → a.count ≡ length (gather quick s.send_list)
    → write_round check (gather quick s.send_list) a s ≡ record {
      again = not (is_empty (erase_sent a.count s.send_list).0);
      must_close = false;
      socket = taken quick a.count s;
    }
unfolding write_round
round_all quick check a s pos e =
    let t : ltb 0 a.count ≡ true = ground arith in
    let u : (a.count == length (gather quick s.send_list)) ≡ true = ground arith in
    if_true _ _ t ∙ if_true _ _ u

steps_whole :
    (quick check : Bool) (answers : ℕ → List ℕ → Answer) (k fuel : ℕ) (s t : DataSocket)
    → TakesAll answers
    → AllSome s.send_list
    → flush_steps quick check answers k fuel s ≡ some t
    → (t.send_list ≡ []) × After s t
unfolding flush_steps
steps_whole quick check answers k zero s t all h e = absurd (none≢some e)
steps_whole quick check answers k (suc fuel) s t all h e =
    let ready = gather quick s.send_list in
    elim (Bool-cases (is_empty s.send_list)) [
      | inl u ↦
          let idle = work-some quick s.send_list h ∙ ap not u in
          let same = some-injective _ _ (sym (if_false _ _ idle) ∙ e) in
          (
            ap (λ x. x.send_list) (sym same) ∙ empty_nil s.send_list u,
            subst (After s) same (kept s (some-AllFit s.send_list h)),
          )
      | inr u ↦
          let busy = work-some quick s.send_list h ∙ ap not u in
          let round =
            round_all quick check (answers k ready) s (gather-some quick s.send_list h u)
              (all k ready) in
          let next = taken quick (answers k ready).count s in
          let e2 = rw round at (sym (if_true _ _ busy) ∙ e) in
          let after =
            taken-After quick (answers k ready).count s (some-AllFit s.send_list h)
              (omega (arith, all k ready)) in
          elim (Bool-cases (is_empty next.send_list)) [
            | inl w ↦
                let same = some-injective _ _ (sym (if_false _ _ (ap not w)) ∙ e2) in
                (
                  ap (λ x. x.send_list) (sym same) ∙ empty_nil next.send_list w,
                  subst (After s) same after,
                )
            | inr w ↦
                let (left, rest) =
                  steps_whole quick check answers (suc k) fuel next t all
                    (erase_sent-AllSome (answers k ready).count s.send_list h)
                    (sym (if_true _ _ (ap not w)) ∙ e2) in
                (left, kept_on after rest)
          ]
    ]
  where
    empty_nil : (ps : List Pending) → is_empty ps ≡ true → ps ≡ []
    empty_nil [] e = refl
    empty_nil (p ∷ ps) e = absurd (true≢false (sym e))

-- A flush, over `quickFlush` or over `normalFlush`, of an open and writable connection sends all that
-- waits, if all packets have bytes left and the system takes all that it is offered: no packet is left,
-- all their bytes were written, in order, and all their callbacks were called, in order.
pub flush_whole :
    (quick check : Bool) (answers : ℕ → List ℕ → Answer) (s : DataSocket)
    → TakesAll answers
    → AllSome s.send_list
    → s.can_write ≡ true
    → is_open s ≡ true
    → (t : DataSocket) × (flush quick check answers s ≡ some t)
      × (t.send_list ≡ [])
      × (t.written ≡ s.written ++ pending s.send_list)
      × (t.completed ≡ s.completed ++ callbacks s.send_list)
unfolding flush
flush_whole quick check answers s all h w o =
    let within : AllWithin answers = λ k ready. omega (arith, all k ready) in
    let (t, e, end) =
      flush_steps_lem quick check answers 0 (suc (length s.send_list)) s within
        (some-AllFit s.send_list h) (omega arith) in
    let (left, after) = steps_whole quick check answers 0 (suc (length s.send_list)) s t all h e in
    (
      t,
      if_true _ _ w ∙ if_true _ _ o ∙ e,
      left,
      sym (append-nil t.written)
          ∙ subst (λ l. t.written ++ pending l ≡ s.written ++ pending s.send_list) left after.bytes,
      sym (append-nil t.completed)
          ∙ subst (λ l. t.completed ++ callbacks l ≡ s.completed ++ callbacks s.send_list) left
              after.calls,
    )

-- Packets of no bytes.
abbrev pub AllNone : List Pending → Type 0
AllNone [] = Unit
AllNone (p ∷ ps) = (p.left ≡ 0) × AllNone ps

gather-none : (num : ℕ) (ps : List Pending) → AllNone ps → gather_quick num ps ≡ []
unfolding gather_quick unsent
gather-none num [] h = refl
gather-none num (p ∷ ps) h = rw (h.0, gather-none (num + 1) ps h.1) (both (leb max_iovec (num + 1)))
  where
    both : (b : Bool) → Path (List ℕ) (if b then [] else []) []
    both true = refl
    both false = refl

-- `flush`, over `quickFlush`, of an open and writable connection whose packets have no bytes closes the
-- connection, unless `sErrno` happens to say S_EWOULDBLOCK: `writev` has nothing to take.
flush_empty :
    (check : Bool) (answers : ℕ → List ℕ → Answer) (s : DataSocket)
    → AllWithin answers
    → AllNone s.send_list
    → is_empty s.send_list ≡ false
    → s.can_write ≡ true
    → is_open s ≡ true
    → (answers 0 []).would_block ≡ false
    → flush true check answers s ≡ some (proc_close_in_loop s)
unfolding flush flush_steps write_round has_work gather
flush_empty check answers s within h e w o b =
    let none_offered = gather-none 0 s.send_list h in
    let zero_taken : ltb 0 (answers 0 []).count ≡ false = ground (arith, within 0 []) in
    if_true _ _ w
    ∙ if_true _ _ o
    ∙ if_true _ _ (ap not e)
    ∙ rw (none_offered, if_false _ _ zero_taken, if_false _ _ b) refl
