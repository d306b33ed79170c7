-- ===== src/RwList/Reader.antt =====
-- The reading side of src/utils/rwlist.c: synchronising with what was handed over, and taking from it.
use netxy.Base.{
  ℕ, zero, suc, ◌+◌, ◌<◌, ◌≡◌, refl, ap, ◌∙◌, true, false, ◌&&◌, List, [], ◌∷◌, ◌++◌, arith, length,
  head?, ltb, leb, inl, inr, Bool-cases, and_false, if◌then◌else◌, length-append, nil_of_length,
  ◌↔◌,
}
use netxy.Stack.{StackOps, IsStack}
use netxy.RwList.{RwList, take_shared, sync_read_locked, sync_read, pop, all_empty}
use netxy.RwList.Fifo.{
  queue, then_rest, items_of_num, take_shared-queue, once_pop-queue, once_pop-head,
}

some_front : {A : Type 0} (xs ys : List A) → 0 < length xs → head? xs ≡ head? (xs ++ ys)
some_front [] ys h = absurd (omega arith)
some_front (x ∷ xs) ys h = refl

module _ {A : Type 0} (s : StackOps A) (l : IsStack s) where
  -- What `pop` and `front` look at: the list itself, or what it is once `wait` has ended.
  abbrev pub seen : (RwList s → RwList s) → RwList s → ℕ → RwList s
  seen wait r timeout =
      if leb (s.num r.local_read) 0
      then (if leb (s.num r.shared) 0 && ltb 0 timeout then wait r else r)
      else r

  -- The reader's own stack is not changed while it waits.
  abbrev pub KeepsReader : (RwList s → RwList s) → Type 0
  KeepsReader wait = (r : RwList s) → l.items (wait r).local_read ≡ l.items r.local_read

  -- `r'` has the elements of `r`, and the first of those that were handed over is in the reader's
  -- stack.
  pub record Synced (r r' : RwList s) : Type 0 where
    pub order : queue s l r' ≡ queue s l r
    pub first : head? (l.items r'.local_read) ≡ head? (l.items r.local_read ++ l.items r.shared)

  take_shared-Synced : (r : RwList s) → l.items r.local_read ≡ [] → Synced r (take_shared s r)
  unfolding take_shared
  take_shared-Synced r e = record {
    order = take_shared-queue s l r e;
    first = elim (Bool-cases (ltb 0 (s.num r.shared))) [
      | inl h ↦ rw h (rw e)
      | inr h ↦ rw h (rw (e, nil_of_length (l.items r.shared) (ground (arith, l.num_lem r.shared))))
    ];
  }

  self-Synced :
      (r : RwList s)
      → head? (l.items r.local_read) ≡ head? (l.items r.local_read ++ l.items r.shared)
      → Synced r r
  self-Synced r e = record { order = refl; first = e }

  sync_read_locked-Synced :
      (wait : RwList s → RwList s) (r : RwList s) (timeout : ℕ)
      → KeepsReader wait
      → l.items r.local_read ≡ []
      → Synced
          (if leb (s.num r.shared) 0 && ltb 0 timeout then wait r else r)
          (sync_read_locked s wait r timeout)
  unfolding sync_read_locked
  sync_read_locked-Synced wait r timeout keeps e = elim (Bool-cases (leb (s.num r.shared) 0)) [
    | inl h ↦ rw h (by_timeout timeout h)
    | inr h ↦ rw (h, and_false) (take_shared-Synced r e)
  ]
    where
      by_timeout :
          (t : ℕ)
          → leb (s.num r.shared) 0 ≡ true
          → Synced
              (if ltb 0 t then wait r else r)
              (if leb t 0 && true then r else take_shared s (if ltb 0 t then wait r else r))
      by_timeout zero h = self-Synced r (rw (e, items_of_num s l r.shared h))
      by_timeout (suc t) h =
          let starts : ltb 0 (suc t) ≡ true = ground arith in
          let waits : leb (suc t) 0 ≡ false = ground arith in
          rw (starts, waits) (take_shared-Synced (wait r) (keeps r ∙ e))

  -- Synchronising keeps the order, and brings the first element that was handed over to the front of
  -- the reader's stack.
  pub sync_read-Synced :
      (wait : RwList s → RwList s) (r : RwList s) (timeout : ℕ)
      → KeepsReader wait
      → Synced (seen wait r timeout) (sync_read s wait r timeout)
  unfolding sync_read
  sync_read-Synced wait r timeout keeps = elim (Bool-cases (leb (s.num r.local_read) 0)) [
    | inl h ↦ rw h (sync_read_locked-Synced wait r timeout keeps (items_of_num s l r.local_read h))
    | inr h ↦ rw h (
        self-Synced r (
          some_front (l.items r.local_read) (l.items r.shared)
            (ground (arith, l.num_lem r.local_read))))
  ]

  -- `ox_rwlist_pop` returns the first element that is in the reader's stack or was handed over,
  -- counting what was written while it waited, or NULL if there is none; it takes out just that
  -- element and keeps all others in order.
  pop-queue :
      (wait : RwList s → RwList s) (r : RwList s) (timeout : ℕ)
      → KeepsReader wait
      → ((pop s wait r timeout).0
          ≡ head?
              (l.items (seen wait r timeout).local_read ++ l.items (seen wait r timeout).shared))
        × (then_rest (pop s wait r timeout).0 (queue s l (pop s wait r timeout).1)
            ≡ queue s l (seen wait r timeout))
  unfolding pop
  pop-queue wait r timeout keeps =
      let sync = sync_read-Synced wait r timeout keeps in
      (
        once_pop-head s l (sync_read s wait r timeout) ∙ sync.first,
        once_pop-queue s l (sync_read s wait r timeout) ∙ sync.order,
      )

  -- `ox_rwlist_allempty` tells whether there is no element at all.
  all_empty_iff : (r : RwList s) → (all_empty s r ≡ true) ↔ (queue s l r ≡ [])
  unfolding all_empty
  all_empty_iff r = (
    λ h. nil_of_length (queue s l r) (ground (arith, counted)),
    λ h. ground (arith, counted, ap (λ xs. length {A = A} xs) h),
  )
    where
      counted : length (queue s l r) ≡ s.num r.local_write + s.num r.shared + s.num r.local_read
      counted = omega (
        arith,
        l.num_lem r.local_write,
        l.num_lem r.shared,
        l.num_lem r.local_read,
        length-append (l.items r.local_read) (l.items r.shared ++ l.items r.local_write),
        length-append (l.items r.shared) (l.items r.local_write),
      )
