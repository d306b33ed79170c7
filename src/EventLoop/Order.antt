-- ===== src/EventLoop/Order.antt =====
-- The procedures run in the order in which they were given, and those that wait run when the eventfd
-- reads.
use mathlib.Core.Path.{subst}
use netxy.Base.{
  ℕ, ◌≡◌, refl, ap, ◌∙◌, sym, Bool, true, false, Option, none, some, List, [], ◌∷◌, ◌++◌, length,
  get_elem?, append-nil, append_assoc, if◌then◌else◌, leb, ◌&&◌,
}
use netxy.EventLoop.{
  Event, any_drains, OtherAt, idle, pushed, exchanging, writing, LoopAt, outside, waiting, polled,
  handling, reset, ready, running, finishing, is_free, EventLoop, Act, push_async, call_wakeup,
  go_other, push_own, push_after, call_loop, get_events, go_loop, new, begin_other, wakeup,
  push_in_loop, push_after_loop_proc, enter, wait, process_async_procs, process_after_loop_procs,
  loop, step, run,
}
use netxy.EventLoop.Flags.{Inv, Kept}
use netxy.EventLoop.Turns.{at_place, At}
use netxy.EventLoop.Wakeup.{step-Inv, new-Inv}

module _ {P : Type 0} where
  -- What ran, then what waits, is what was given.
  record Ordered (s : EventLoop P) : Type 0 where
    async : s.ran ++ (s.copy_async_procs ++ s.async_procs) ≡ s.given
    after : s.after_ran ++ (s.copy_after_loop_procs ++ s.after_loop_procs) ≡ s.after_given

  abbrev KeptOrder : Option (EventLoop P) → Type 0
  KeptOrder none = Unit
  KeptOrder (some t) = Ordered t

  push_last :
      (xs ys zs gs : List P) (f : P)
      → xs ++ (ys ++ zs) ≡ gs
      → xs ++ (ys ++ (zs ++ f ∷ [])) ≡ gs ++ f ∷ []
  push_last xs ys zs gs f e =
      ap (λ l. xs ++ l) (sym (append_assoc ys zs (f ∷ [])))
      ∙ sym (append_assoc xs (ys ++ zs) (f ∷ []))
      ∙ ap (λ l. l ++ f ∷ []) e

  begin_other-Ordered :
      (i : ℕ) (f : Option P) (o : OtherAt) (s : EventLoop P)
      → Ordered s
      → KeptOrder (begin_other i f o s)
  unfolding begin_other
  begin_other-Ordered i (some f) idle s v = record {
    async = push_last s.ran s.copy_async_procs s.async_procs s.given f v.async;
    after = v.after;
  }
  begin_other-Ordered i none idle s v = record { async = v.async; after = v.after }
  begin_other-Ordered i (some f) pushed s v = tt
  begin_other-Ordered i (some f) exchanging s v = tt
  begin_other-Ordered i (some f) writing s v = tt
  begin_other-Ordered i none pushed s v = tt
  begin_other-Ordered i none exchanging s v = tt
  begin_other-Ordered i none writing s v = tt

  wakeup-Ordered : (i : ℕ) (o : OtherAt) (s : EventLoop P) → Ordered s → KeptOrder (wakeup i o s)
  unfolding wakeup
  wakeup-Ordered i idle s v = tt
  wakeup-Ordered i pushed s v = record { async = v.async; after = v.after }
  wakeup-Ordered i exchanging s v = record { async = v.async; after = v.after }
  wakeup-Ordered i writing s v = record { async = v.async; after = v.after }

  if-KeptOrder : (b : Bool) (s : EventLoop P) → Ordered s → KeptOrder (if b then some s else none)
  if-KeptOrder true s v = v
  if-KeptOrder false s v = tt

  enter-Ordered : (t : ℕ) (a : LoopAt) (s : EventLoop P) → Ordered s → KeptOrder (enter t a s)
  unfolding enter
  enter-Ordered t outside s v = record { async = v.async; after = v.after }
  enter-Ordered t (waiting u) s v = tt
  enter-Ordered t (polled es) s v = tt
  enter-Ordered t (handling es) s v = tt
  enter-Ordered t reset s v = tt
  enter-Ordered t ready s v = tt
  enter-Ordered t running s v = tt
  enter-Ordered t finishing s v = tt

  wait-Ordered :
      (es : List Event) (a : LoopAt) (s : EventLoop P) → Ordered s → KeptOrder (wait es a s)
  unfolding wait
  wait-Ordered es (waiting t) s v =
      if-KeptOrder
        ((if any_drains es then s.signal else true) && leb (length es) s.event_entries_num)
        (record s { at = polled es; num_complete = length es })
        (record { async = v.async; after = v.after })
  wait-Ordered es outside s v = tt
  wait-Ordered es (polled _) s v = tt
  wait-Ordered es (handling _) s v = tt
  wait-Ordered es reset s v = tt
  wait-Ordered es ready s v = tt
  wait-Ordered es running s v = tt
  wait-Ordered es finishing s v = tt

  process_async_procs-Ordered :
      (l : List P) (s : EventLoop P)
      → s.copy_async_procs ≡ l
      → s.copy_after_loop_procs ≡ []
      → Ordered s
      → Ordered (process_async_procs l s)
  unfolding process_async_procs
  process_async_procs-Ordered [] s c d v = record {
    async = v.async;
    after =
        ap (λ l. s.after_ran ++ (s.after_loop_procs ++ l)) d
        ∙ ap (λ l. s.after_ran ++ l) (append-nil s.after_loop_procs)
        ∙ sym (ap (λ l. s.after_ran ++ (l ++ s.after_loop_procs)) d)
        ∙ v.after;
  }
  process_async_procs-Ordered (f ∷ fs) s c d v = record {
    async =
        append_assoc s.ran (f ∷ []) (fs ++ s.async_procs)
        ∙ sym (ap (λ l. s.ran ++ (l ++ s.async_procs)) c)
        ∙ v.async;
    after = v.after;
  }

  process_after_loop_procs-Ordered :
      (l : List P) (s : EventLoop P)
      → s.copy_after_loop_procs ≡ l
      → Ordered s
      → Ordered (process_after_loop_procs l s)
  unfolding process_after_loop_procs
  process_after_loop_procs-Ordered [] s c v = record { async = v.async; after = v.after }
  process_after_loop_procs-Ordered (f ∷ fs) s c v = record {
    async = v.async;
    after =
        append_assoc s.after_ran (f ∷ []) (fs ++ s.after_loop_procs)
        ∙ sym (ap (λ l. s.after_ran ++ (l ++ s.after_loop_procs)) c)
        ∙ v.after;
  }

  loop-Ordered : (a : LoopAt) (s : EventLoop P) → At a s → Ordered s → KeptOrder (loop a s)
  unfolding loop
  loop-Ordered outside s w v = tt
  loop-Ordered (waiting t) s w v = tt
  loop-Ordered (polled es) s w v = record { async = v.async; after = v.after }
  loop-Ordered (handling (x ∷ es)) s w v = record { async = v.async; after = v.after }
  loop-Ordered (handling []) s w v = record { async = v.async; after = v.after }
  loop-Ordered reset s w v = record { async = v.async; after = v.after }
  loop-Ordered ready s w v = record {
    async =
        ap (λ l. s.ran ++ (s.async_procs ++ l)) w.copied.0
        ∙ ap (λ l. s.ran ++ l) (append-nil s.async_procs)
        ∙ sym (ap (λ l. s.ran ++ (l ++ s.async_procs)) w.copied.0)
        ∙ v.async;
    after = v.after;
  }
  loop-Ordered running s w v = process_async_procs-Ordered s.copy_async_procs s refl w.copied v
  loop-Ordered finishing s w v = process_after_loop_procs-Ordered s.copy_after_loop_procs s refl v

  call-KeptOrder :
      (o : Option OtherAt) (go : OtherAt → Option (EventLoop P))
      → ((x : OtherAt) → KeptOrder (go x))
      → KeptOrder (elim o [ none ↦ none | some x ↦ go x ])
  call-KeptOrder none go h = tt
  call-KeptOrder (some x) go h = h x

  step-Ordered : (a : Act P) (s : EventLoop P) → Inv s → Ordered s → KeptOrder (step a s)
  unfolding step push_in_loop push_after_loop_proc
  step-Ordered (push_async i f) s w v =
      call-KeptOrder (get_elem? s.others i) (λ o. begin_other i (some f) o s)
        (λ o. begin_other-Ordered i (some f) o s v)
  step-Ordered (call_wakeup i) s w v =
      call-KeptOrder (get_elem? s.others i) (λ o. begin_other i none o s)
        (λ o. begin_other-Ordered i none o s v)
  step-Ordered (go_other i) s w v =
      call-KeptOrder (get_elem? s.others i) (λ o. wakeup i o s) (λ o. wakeup-Ordered i o s v)
  step-Ordered (push_own f) s w v =
      if-KeptOrder (is_free s.at) _ (record { async = v.async; after = v.after })
  step-Ordered (push_after f) s w v = if-KeptOrder (is_free s.at) _ (record {
    async = v.async;
    after =
        push_last s.after_ran s.copy_after_loop_procs s.after_loop_procs s.after_given f v.after;
  })
  step-Ordered (call_loop t) s w v = enter-Ordered t s.at s v
  step-Ordered (get_events es) s w v = wait-Ordered es s.at s v
  step-Ordered go_loop s w v = loop-Ordered s.at s (at_place s.at s refl w) v

  run-Ordered : (acts : List (Act P)) (s : EventLoop P) → Inv s → Ordered s → KeptOrder (run acts s)
  unfolding run
  run-Ordered [] s w v = v
  run-Ordered (a ∷ acts) s w v =
      next (step a s) (step-Inv a s w) (step-Ordered a s w v) (λ t. run-Ordered acts t)
    where
      next :
          (o : Option (EventLoop P))
          → Kept o
          → KeptOrder o
          → ((t : EventLoop P) → Inv t → Ordered t → KeptOrder (run acts t))
          → KeptOrder (elim o [ none ↦ none | some t ↦ run acts t ])
      next none w k go = tt
      next (some t) w k go = go t w k

  new-Ordered : (threads : ℕ) → Ordered (new {P = P} threads)
  unfolding new
  new-Ordered threads = record { async = refl; after = refl }

  -- However the threads are interleaved: the procedures of other threads that ran, then those that wait,
  -- are those that were given, in the order of the pushes, and so for the procedures for the loop's end.
  pub run-new_order :
      (threads : ℕ) (acts : List (Act P)) {s : EventLoop P}
      → run acts (new threads) ≡ some s
      → (s.ran ++ (s.copy_async_procs ++ s.async_procs) ≡ s.given)
        × (s.after_ran ++ (s.copy_after_loop_procs ++ s.after_loop_procs) ≡ s.after_given)
  run-new_order threads acts e =
      let v =
        subst KeptOrder e
          (run-Ordered acts (new threads) (new-Inv threads) (new-Ordered threads)) in
      (v.async, v.after)
