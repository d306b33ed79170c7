-- ===== src/EventLoop/Wakeup.antt =====
-- No wake-up is lost: the loop does not block while procedures wait for it.
use mathlib.Core.Path.{subst}
use netxy.Base.{
  ℕ, ◌<◌, ◌≡◌, ◌⊎◌, inl, inr, refl, Bool, true, false, Option, none, some, List, [], ◌∷◌, arith,
  length, get_elem?, total,
}
use netxy.EventLoop.{
  OtherAt, waiting, EventLoop, Act, push_async, call_wakeup, go_other, push_own, push_after,
  call_loop, get_events, go_loop, new, begin_other, wakeup, step, run,
}
use netxy.EventLoop.Flags.{bit, active, Waits, Inv, Kept, begin_other-Inv, wakeup-Inv}
use netxy.EventLoop.Turns.{
  push_after_loop_proc-Inv, push_in_loop-Inv, at_place, enter-Inv, wait-Inv, loop-Inv,
}

module _ {P : Type 0} where
  call-Inv :
      (o : Option OtherAt) (go : OtherAt → Option (EventLoop P))
      → ((x : OtherAt) → o ≡ some x → Kept (go x))
      → Kept (elim o [ none ↦ none | some x ↦ go x ])
  call-Inv none go h = tt
  call-Inv (some x) go h = h x refl

  pub step-Inv : (a : Act P) (s : EventLoop P) → Inv s → Kept (step a s)
  unfolding step
  step-Inv (push_async i f) s v =
      call-Inv (get_elem? s.others i) (λ o. begin_other i (some f) o s)
        (λ o e. begin_other-Inv i (some f) o s e v)
  step-Inv (call_wakeup i) s v =
      call-Inv (get_elem? s.others i) (λ o. begin_other i none o s)
        (λ o e. begin_other-Inv i none o s e v)
  step-Inv (go_other i) s v =
      call-Inv (get_elem? s.others i) (λ o. wakeup i o s) (λ o e. wakeup-Inv i o s e v)
  step-Inv (push_own f) s v = push_in_loop-Inv f s v
  step-Inv (push_after f) s v = push_after_loop_proc-Inv f s v
  step-Inv (call_loop t) s v = enter-Inv t s.at s (at_place s.at s refl v)
  step-Inv (get_events es) s v = wait-Inv es s.at s (at_place s.at s refl v)
  step-Inv go_loop s v = loop-Inv s.at s refl v

  pub run-Inv : (acts : List (Act P)) (s : EventLoop P) → Inv s → Kept (run acts s)
  unfolding run
  run-Inv [] s v = v
  run-Inv (a ∷ acts) s v = next (step a s) (step-Inv a s v) (λ t k. run-Inv acts t k)
    where
      next :
          (o : Option (EventLoop P))
          → Kept o
          → ((t : EventLoop P) → Inv t → Kept (run acts t))
          → Kept (elim o [ none ↦ none | some t ↦ run acts t ])
      next none k go = tt
      next (some t) k go = go t k

  pub new-Inv : (threads : ℕ) → Inv (new {P = P} threads)
  unfolding new
  new-Inv threads = record {
    block = refl;
    posted = λ p. cc;
    seen = λ p. absurd (omega arith);
    after = tt;
    copied = (refl, refl);
  }

  pub run-new-Inv :
      (threads : ℕ) (acts : List (Act P)) {s : EventLoop P}
      → run acts (new threads) ≡ some s
      → Inv s
  run-new-Inv threads acts e = subst Kept e (run-Inv acts (new threads) (new-Inv threads))

  -- However the threads are interleaved: when the loop is in `epoll_wait`, and no other thread is inside
  -- a call of `pushAsyncProc` or `wakeup`, then the eventfd reads if procedures of other threads wait, and
  -- the time-out is 0 if procedures for the loop's end wait.
  pub run-new_awake :
      (threads : ℕ) (acts : List (Act P)) (s : EventLoop P) (timeout : ℕ)
      → run acts (new threads) ≡ some s
      → s.at ≡ waiting timeout
      → total active s.others ≡ 0
      → (length s.async_procs ≡ 0 ⊎ s.signal ≡ true) × (length s.after_loop_procs ≡ 0 ⊎ timeout ≡ 0)
  run-new_awake threads acts s timeout e at quiet =
      let v = at_place (waiting timeout) s at (run-new-Inv threads acts e) in
      (
        seen_bit s.async_procs s.signal (λ p. omega (arith, v.seen p, quiet)),
        waits_some timeout s.after_loop_procs v.after,
      )
    where
      seen_bit : (l : List P) (b : Bool) → (0 < length l → 0 < bit b) → length l ≡ 0 ⊎ b ≡ true
      seen_bit l true h = inr refl
      seen_bit [] false h = inl refl
      seen_bit (x ∷ l) false h = absurd (omega (arith, h (omega arith)))

      waits_some : (t : ℕ) (l : List P) → Waits (waiting t) l → length l ≡ 0 ⊎ t ≡ 0
      waits_some t [] w = inl refl
      waits_some t (x ∷ l) w = inr w
