-- ===== src/RwList/Fifo.antt =====
-- The order of the elements: what the three stacks hold, read in the order in which `pop` gives it.
use netxy.Base.{
  ℕ, zero, suc, ◌+◌, ◌<◌, ◌≡◌, refl, sym, ap, ◌∙◌, true, Option, none, some, List, [], ◌∷◌, ◌++◌,
  arith, length, head?, tail, ltb, leb, inl, inr, Bool-cases, Option-cases, append-nil,
  append_assoc, nil_of_length,
}
use netxy.Stack.{StackOps, IsStack}
use netxy.RwList.{
  RwList, may_publish, publish, sync_write, push_local, is_due, push_back, take_shared, once_pop,
  drain, merge, force_flush,
}

-- `out` in front of `q`, if there is one
abbrev pub then_rest : {A : Type 0} → Option A → List A → List A
then_rest none q = q
then_rest (some x) q = x ∷ q

none_head : {A : Type 0} (xs : List A) → head? xs ≡ none → xs ≡ []
none_head [] e = refl
none_head (x ∷ xs) e = cc

some_head : {A : Type 0} {x : A} (xs : List A) → head? xs ≡ some x → xs ≡ x ∷ tail xs
some_head [] e = cc
some_head (y ∷ xs) e = cc

module _ {A : Type 0} (s : StackOps A) (l : IsStack s) where
  abbrev pub queue : RwList s → List A
  queue r = l.items r.local_read ++ (l.items r.shared ++ l.items r.local_write)

  -- A stack whose number is at most 0 is empty.
  pub items_of_num : (c : s.Carrier) → leb (s.num c) 0 ≡ true → l.items c ≡ []
  items_of_num c h = nil_of_length (l.items c) (ground (arith, l.num_lem c))

  pub publish-queue : (r : RwList s) → l.items r.shared ≡ [] → queue (publish s r) ≡ queue r
  unfolding publish
  publish-queue r e = rw (e, append-nil)

  pub take_shared-queue :
      (r : RwList s) → l.items r.local_read ≡ [] → queue (take_shared s r) ≡ queue r
  unfolding take_shared
  take_shared-queue r e = elim (Bool-cases (ltb 0 (s.num r.shared))) [
    | inl h ↦ rw (h, e)
    | inr h ↦ rw h
  ]

  pub once_pop-queue :
      (r : RwList s) → then_rest (once_pop s r).0 (queue (once_pop s r).1) ≡ queue r
  unfolding once_pop
  once_pop-queue r =
      rw (l.pop_front_value r.local_read, l.pop_front_rest r.local_read)
        (popped (l.items r.local_read) (l.items r.shared ++ l.items r.local_write))
    where
      popped : (xs ys : List A) → then_rest (head? xs) (tail xs ++ ys) ≡ xs ++ ys
      popped [] ys = refl
      popped (x ∷ xs) ys = refl

  pub once_pop-head : (r : RwList s) → (once_pop s r).0 ≡ head? (l.items r.local_read)
  unfolding once_pop
  once_pop-head r = l.pop_front_value r.local_read

  pub push_local-queue :
      (r : RwList s) (x : A)
      → (r' : RwList s) × (push_local s r x ≡ some r')
        × (queue r' ≡ queue r ++ (x ∷ []))
        × (r'.shared ≡ r.shared)
        × (r'.local_read ≡ r.local_read)
  unfolding push_local
  push_local-queue r x = (
    record r { local_write = (s.push r.local_write x).1 },
    rw (l.push_stores r.local_write x),
    rw (l.push_lem r.local_write x) (simp append_assoc),
    refl,
    refl,
  )

  sync_write-queue : (r : RwList s) → queue (sync_write s r) ≡ queue r
  unfolding sync_write
  sync_write-queue r = elim (Bool-cases (may_publish s r)) [
    | inl h ↦ rw h (publish-queue r (items_of_num r.shared (shared_test h)))
    | inr h ↦ rw h
  ]
    where
      shared_test : may_publish s r ≡ true → leb (s.num r.shared) 0 ≡ true
      shared_test h = unfold may_publish in ground arith

  -- `ox_rwlist_push` never fails its assert and puts the element behind all others, whether or not it
  -- hands the written elements over.
  push_back-queue :
      (r : RwList s) (x : A)
      → (r' : RwList s) × (push_back s r x ≡ some r') × (queue r' ≡ queue r ++ (x ∷ []))
  unfolding push_back
  push_back-queue r x =
      let (r', e, q, _, _) = push_local-queue r x in
      elim (Bool-cases (is_due s r')) [
        | inl due ↦ (sync_write s r', rw (e, push_back) (rw due), sync_write-queue r' ∙ q)
        | inr early ↦ (r', rw (e, push_back) (rw early), q)
      ]

  drain_lem :
      (fuel : ℕ) (from to : s.Carrier)
      → length (l.items from) < fuel
      → (w sh : s.Carrier) × (drain s fuel from to ≡ some (w, sh))
        × (l.items w ≡ [])
        × (l.items sh ≡ l.items to ++ l.items from)
  unfolding drain
  drain_lem zero from to h = absurd (omega arith)
  drain_lem (suc fuel) from to h = elim (Option-cases (s.pop_front from).0) [
    | inl e ↦
        let nothing : l.items from ≡ [] =
          none_head (l.items from) (sym (l.pop_front_value from) ∙ e) in
        (
          (s.pop_front from).1,
          to,
          rw (e, drain),
          rw (l.pop_front_rest from, nothing),
          rw (nothing, append-nil),
        )
    | inr (x, e) ↦
        let cell = some_head (l.items from) (sym (l.pop_front_value from) ∙ e) in
        let fewer : length (l.items (s.pop_front from).1) < fuel = omega (
          arith,
          ap (λ xs. length {A = A} xs) cell,
          ap (λ xs. length {A = A} xs) (l.pop_front_rest from),
        ) in
        let (w, sh, d, empty, joined) = drain_lem fuel (s.pop_front from).1 (s.push to x).1 fewer in
        (
          w,
          sh,
          rw (e, drain) d,
          empty,
          rw (joined, l.push_lem, l.pop_front_rest)
              (append_assoc (l.items to) (x ∷ []) (tail (l.items from))
                ∙ ap (λ xs. l.items to ++ xs) (sym cell)),
        )
  ]

  pub merge-queue :
      (r : RwList s)
      → (r' : RwList s) × (merge s r ≡ some r')
        × (queue r' ≡ queue r)
        × (l.items r'.local_write ≡ [])
        × (r'.local_read ≡ r.local_read)
  unfolding merge
  merge-queue r =
      let (w, sh, e, empty, joined) =
        drain_lem (s.num r.local_write + 1) r.local_write r.shared
          (omega (arith, l.num_lem r.local_write)) in
      (
        record r { local_write = w; shared = sh },
        rw (e, merge),
        rw (empty, joined, append-nil),
        empty,
        refl,
      )

  -- `ox_rwlist_force_flush` ends, keeps every element in its place, and leaves none with the writer.
  force_flush-queue :
      (r : RwList s)
      → (r' : RwList s) × (force_flush s r ≡ some r')
        × (queue r' ≡ queue r)
        × (l.items r'.local_write ≡ [])
  unfolding force_flush
  force_flush-queue r = elim (Bool-cases (ltb 0 (s.num r.local_write))) [
    | inr h ↦ (r, rw h, refl, nil_of_length _ (ground (arith, l.num_lem r.local_write)))
    | inl h ↦ elim (Bool-cases (leb (s.num r.shared) 0)) [
      | inl e ↦ (
        publish s r,
        rw h (rw e),
        publish-queue r (items_of_num r.shared e),
        unfold publish in items_of_num r.shared e,
      )
      | inr e ↦ let (r', m, q, empty, _) = merge-queue r in (r', rw h (rw e m), q, empty)
    ]
  ]
