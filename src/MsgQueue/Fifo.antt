-- ===== src/MsgQueue/Fifo.antt =====
-- The queue keeps the order, whatever the two threads do in turns without `popBack` and `clear`, and with
-- these no element is lost or doubled but by `clear`.
use mathlib.Core.List.{reverse, reverse-cons, reverse-reverse}
use mathlib.Core.Bool.{true≢false}
use mathlib.Core.Option.{some-injective}
use netxy.Base.{
  ℕ, ◌+◌, arith, Option-cases, both_true, inl, inr, none≢some, total, total-append, total-unsnoc,
  weight_of, unsnoc, ◌≡◌, refl, sym, ap, ◌∙◌, Bool, true, false, not, ◌&&◌, Option, none, some,
  List, [], ◌∷◌, ◌++◌, append-nil, append_assoc, ltb, length, if◌then◌else◌,
}
use netxy.MsgQueue.{
  MsgQueue, empty, push, try_sync_write, push_fronts, force_locked, force_sync_write, pop_front,
  pop_back, sync_read, clear,
}

module _ {ℓ} (T : Type ℓ) where
  -- What the two threads do: the writer may find the shared list taken when it has the lock.
  pub data Action : Type ℓ where
    push_action : T → Action
    try_action : Action
    force_action : Action
    force_late_action : Action
    pop_action : Action
    pop_back_action : Action
    sync_read_action : Action
    clear_action : Action

module _ {ℓ} {T : Type ℓ} where
  -- The element that an action takes out, and the queue.
  unfoldable pub step : Action T → MsgQueue T → Option T × MsgQueue T
  step (push_action t) q = (none, push t q)
  step try_action q = (none, try_sync_write q)
  step force_action q = (none, force_sync_write q)
  step force_late_action q = (none, force_locked q)
  step pop_action q = pop_front q
  step pop_back_action q = pop_back q
  step sync_read_action q = (none, sync_read q)
  step clear_action q = (none, clear q)

  abbrev pub listed : Option T → List T
  listed none = []
  listed (some t) = t ∷ []

  unfoldable pub run : List (Action T) → MsgQueue T → List T × MsgQueue T
  run [] q = ([], q)
  run (a ∷ later) q =
      let one = step a q in let more = run later one.1 in (listed one.0 ++ more.0, more.1)

  abbrev pub pushed : List (Action T) → List T
  pushed [] = []
  pushed (push_action t ∷ later) = t ∷ pushed later
  pushed (try_action ∷ later) = pushed later
  pushed (force_action ∷ later) = pushed later
  pushed (force_late_action ∷ later) = pushed later
  pushed (pop_action ∷ later) = pushed later
  pushed (pop_back_action ∷ later) = pushed later
  pushed (sync_read_action ∷ later) = pushed later
  pushed (clear_action ∷ later) = pushed later

  -- is it neither popBack nor clear?
  abbrev pub is_fifo : Action T → Bool
  is_fifo pop_back_action = false
  is_fifo clear_action = false
  is_fifo a = true

  abbrev pub all_fifo : List (Action T) → Bool
  all_fifo [] = true
  all_fifo (a ∷ later) = is_fifo a && all_fifo later

  -- The elements in the queue, the oldest first.
  abbrev pub contents : MsgQueue T → List T
  contents q = q.read_list ++ (q.shared_list ++ q.write_list)

  push_fronts_lem : (xs ys : List T) → push_fronts xs ys ≡ reverse xs ++ ys
  unfolding push_fronts
  push_fronts_lem [] ys = refl
  push_fronts_lem (x ∷ xs) ys =
      push_fronts_lem xs (x ∷ ys)
      ∙ sym (append_assoc (reverse xs) (x ∷ []) ys)
      ∙ ap (λ l. l ++ ys) (sym (reverse-cons x xs))

  back_nil : (w s : List T) → empty s ≡ true → w ++ s ≡ s ++ w
  back_nil w [] e = append-nil w
  back_nil w (x ∷ s) e = absurd (true≢false (sym e))

  front_nil : (r s w : List T) → empty r ≡ true → s ++ (r ++ w) ≡ r ++ (s ++ w)
  front_nil [] s w e = refl
  front_nil (x ∷ r) s w e = absurd (true≢false (sym e))

  same_if :
      (b : Bool) (x y : MsgQueue T) (l : List T)
      → (b ≡ true → contents x ≡ l)
      → contents y ≡ l
      → contents (if b then x else y) ≡ l
  same_if true x y l e f = e refl
  same_if false x y l e f = f

  try_sync_write-contents : (q : MsgQueue T) → contents (try_sync_write q) ≡ contents q
  unfolding try_sync_write
  try_sync_write-contents q =
      same_if (not (empty q.write_list) && empty q.shared_list) _ _ _
        (λ e. ap (λ l. q.read_list ++ l) (back_nil q.write_list q.shared_list (both_true _ _ e).1))
        refl

  force_locked-contents : (q : MsgQueue T) → contents (force_locked q) ≡ contents q
  unfolding force_locked
  force_locked-contents q =
      same_if (empty q.write_list) _ _ _ (λ e. refl)
        (same_if (ltb (length q.shared_list) (length q.write_list)) _ _ _
          (λ e.
            ap (λ l. q.read_list ++ l)
              (append-nil _
                ∙ push_fronts_lem (reverse q.shared_list) q.write_list
                ∙ ap (λ l. l ++ q.write_list) (reverse-reverse q.shared_list)))
          (ap (λ l. q.read_list ++ l) (append-nil _)))

  pub force_sync_write-contents : (q : MsgQueue T) → contents (force_sync_write q) ≡ contents q
  unfolding force_sync_write
  force_sync_write-contents q =
      same_if (empty q.write_list) _ _ _ (λ e. refl)
        (same_if (empty q.shared_list) _ _ _ (λ e. try_sync_write-contents q)
          (force_locked-contents q))

  pub sync_read-contents : (q : MsgQueue T) → contents (sync_read q) ≡ contents q
  unfolding sync_read
  sync_read-contents q =
      same_if (empty q.read_list && not (empty q.shared_list)) _ _ _
        (λ e. front_nil q.read_list q.shared_list q.write_list (both_true _ _ e).0) refl

  pop_front-contents :
      (q : MsgQueue T) → listed (pop_front q).0 ++ contents (pop_front q).1 ≡ contents q
  unfolding pop_front
  pop_front-contents q = first q.read_list
    where
      first :
          (r : List T)
          → listed
                (elim r as (λ x. Option T × MsgQueue T) [
                  | [] ↦ (none, record q { read_list = r })
                  | x ∷ xs ↦ (some x, record q { read_list = xs })
                ]).0
              ++ contents
                  (elim r as (λ x. Option T × MsgQueue T) [
                    | [] ↦ (none, record q { read_list = r })
                    | x ∷ xs ↦ (some x, record q { read_list = xs })
                  ]).1
            ≡ r ++ (q.shared_list ++ q.write_list)
      first [] = refl
      first (x ∷ xs) = refl

  pub push-contents : (t : T) (q : MsgQueue T) → contents (push t q) ≡ contents q ++ t ∷ []
  unfolding push
  push-contents t q =
      ap (λ l. q.read_list ++ l) (sym (append_assoc q.shared_list q.write_list (t ∷ [])))
      ∙ sym (append_assoc q.read_list (q.shared_list ++ q.write_list) (t ∷ []))

  -- Whatever the two threads do in turns, without popBack and clear, what was taken out, then what is in
  -- the queue, is what was in it, then what was pushed, in order: no element is lost, repeated or overtaken.
  pub run-order :
      (actions : List (Action T)) (q : MsgQueue T)
      → all_fifo actions ≡ true
      → (run actions q).0 ++ contents (run actions q).1 ≡ contents q ++ pushed actions
  unfolding run step
  run-order [] q h = sym (append-nil (contents q))
  run-order (push_action t ∷ later) q h =
      run-order later (push t q) h
      ∙ ap (λ l. l ++ pushed later) (push-contents t q)
      ∙ append_assoc (contents q) (t ∷ []) (pushed later)
  run-order (try_action ∷ later) q h =
      run-order later (try_sync_write q) h ∙ ap (λ l. l ++ pushed later) (try_sync_write-contents q)
  run-order (force_action ∷ later) q h =
      run-order later (force_sync_write q) h
      ∙ ap (λ l. l ++ pushed later) (force_sync_write-contents q)
  run-order (force_late_action ∷ later) q h =
      run-order later (force_locked q) h ∙ ap (λ l. l ++ pushed later) (force_locked-contents q)
  run-order (pop_action ∷ later) q h =
      append_assoc (listed (pop_front q).0) (run later (pop_front q).1).0
        (contents (run later (pop_front q).1).1)
      ∙ ap (λ l. listed (pop_front q).0 ++ l) (run-order later (pop_front q).1 h)
      ∙ sym (append_assoc (listed (pop_front q).0) (contents (pop_front q).1) (pushed later))
      ∙ ap (λ l. l ++ pushed later) (pop_front-contents q)
  run-order (sync_read_action ∷ later) q h =
      run-order later (sync_read q) h ∙ ap (λ l. l ++ pushed later) (sync_read-contents q)
  run-order (pop_back_action ∷ later) q h = cc
  run-order (clear_action ∷ later) q h = cc

  -- What `popBack` takes is not in the queue after it.
  pub total-pop_back :
      (w : T → ℕ) (q : MsgQueue T) {t : T}
      → (pop_back q).0 ≡ some t
      → total w (contents q) ≡ w t + total w (contents (pop_back q).1)
  unfolding pop_back
  total-pop_back w q {t} e = elim (Option-cases (unsnoc q.read_list).0) [
    | inl h ↦ absurd (none≢some (rw (h, pop_back) at e))
    | inr (x, h) ↦
        let same : x ≡ t = some-injective _ _ (rw (h, pop_back) at e) in
        let last =
          total-unsnoc w q.read_list ∙ ap (λ l. weight_of w l + total w (unsnoc q.read_list).1) h in
        rw (h, pop_back)
          (omega (
            arith,
            last,
            ap w same,
            total-append w q.read_list (q.shared_list ++ q.write_list),
            total-append w (unsnoc q.read_list).1 (q.shared_list ++ q.write_list),
          ))
  ]

  -- what `clear` drops in a run
  abbrev pub cleared : List (Action T) → MsgQueue T → List T
  cleared [] q = []
  cleared (clear_action ∷ later) q = contents q ++ cleared later (clear q)
  cleared (push_action t ∷ later) q = cleared later (push t q)
  cleared (try_action ∷ later) q = cleared later (try_sync_write q)
  cleared (force_action ∷ later) q = cleared later (force_sync_write q)
  cleared (force_late_action ∷ later) q = cleared later (force_locked q)
  cleared (pop_action ∷ later) q = cleared later (pop_front q).1
  cleared (pop_back_action ∷ later) q = cleared later (pop_back q).1
  cleared (sync_read_action ∷ later) q = cleared later (sync_read q)

  total-popped :
      (w : T → ℕ) (q : MsgQueue T)
      → total w (listed (pop_back q).0) + total w (contents (pop_back q).1) ≡ total w (contents q)
  unfolding pop_back
  total-popped w q = elim (Option-cases (unsnoc q.read_list).0) [
    | inl h ↦ rw (h, pop_back) (omega arith)
    | inr (x, h) ↦
        let e : (pop_back q).0 ≡ some x = rw (h, pop_back) refl in
        let moved = total-pop_back w q e in rw e (omega (arith, moved))
  ]

  -- Whatever the two threads do in turns, popBack and clear too: what was taken out, what clear dropped
  -- and what is in the queue are, each element as often, what was in it and what was pushed.
  pub run-total :
      (w : T → ℕ) (actions : List (Action T)) (q : MsgQueue T)
      → total w (run actions q).0
          + total w (contents (run actions q).1)
          + total w (cleared actions q)
        ≡ total w (contents q) + total w (pushed actions)
  unfolding run step clear
  run-total w [] q = omega arith
  run-total w (push_action t ∷ later) q = omega (
    arith,
    run-total w later (push t q),
    ap (total w) (push-contents t q),
    total-append w (contents q) (t ∷ []),
  )
  run-total w (try_action ∷ later) q =
      omega (arith, run-total w later (try_sync_write q), ap (total w) (try_sync_write-contents q))
  run-total w (force_action ∷ later) q =
      omega
        (arith, run-total w later (force_sync_write q), ap (total w) (force_sync_write-contents q))
  run-total w (force_late_action ∷ later) q =
      omega (arith, run-total w later (force_locked q), ap (total w) (force_locked-contents q))
  run-total w (pop_action ∷ later) q = omega (
    arith,
    run-total w later (pop_front q).1,
    ap (total w) (pop_front-contents q),
    total-append w (listed (pop_front q).0) (contents (pop_front q).1),
    total-append w (listed (pop_front q).0) (run later (pop_front q).1).0,
  )
  run-total w (pop_back_action ∷ later) q = omega (
    arith,
    run-total w later (pop_back q).1,
    total-popped w q,
    total-append w (listed (pop_back q).0) (run later (pop_back q).1).0,
  )
  run-total w (sync_read_action ∷ later) q =
      omega (arith, run-total w later (sync_read q), ap (total w) (sync_read-contents q))
  run-total w (clear_action ∷ later) q =
      omega
        (arith, run-total w later (clear q), total-append w (contents q) (cleared later (clear q)))
