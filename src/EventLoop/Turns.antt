-- ===== src/EventLoop/Turns.antt =====
-- The thread of the loop keeps what the flags say.
use mathlib.Core.Path.{subst}
use netxy.Base.{
  ℕ, ◌+◌, ◌<◌, ◌≡◌, refl, ap, true, List, [], ◌∷◌, arith, length, total, if◌then◌else◌, Bool-cases,
  inl, inr, leb, ◌&&◌,
}
use netxy.EventLoop.{
  Event, any_drains, LoopAt, outside, waiting, polled, handling, reset, ready, running, finishing,
  is_free, is_empty, EventLoop, push_in_loop, push_after_loop_proc, enter, wait,
  process_async_procs, process_after_loop_procs, loop,
}
use netxy.EventLoop.Flags.{bit, active, writers, woken, coming, blocked, Waits, Copied, Inv, Kept}

module _ {P : Type 0} where
  pub Waits-free : (a : LoopAt) (l : List P) → is_free a ≡ true → Waits a l
  Waits-free outside l e = tt
  Waits-free (handling es) l e = tt
  Waits-free running l e = tt
  Waits-free finishing l e = tt
  Waits-free (waiting t) l e = cc
  Waits-free (polled es) l e = tt
  Waits-free reset l e = tt
  Waits-free ready l e = tt

  pub Waits-enter : (t : ℕ) (l : List P) → Waits (waiting (if is_empty l then t else 0)) l
  Waits-enter t [] = tt
  Waits-enter t (x ∷ l) = refl

  pub push_after_loop_proc-Inv : (f : P) (s : EventLoop P) → Inv s → Kept (push_after_loop_proc f s)
  unfolding push_after_loop_proc
  push_after_loop_proc-Inv f s v = elim (Bool-cases (is_free s.at)) [
    | inl e ↦ rw e (record {
      block = v.block;
      posted = v.posted;
      seen = v.seen;
      after = Waits-free s.at _ e;
      copied = v.copied;
    })
    | inr e ↦ rw e tt
  ]

  pub push_in_loop-Inv : (f : P) (s : EventLoop P) → Inv s → Kept (push_in_loop f s)
  unfolding push_in_loop
  push_in_loop-Inv f s v = elim (Bool-cases (is_free s.at)) [
    | inl e ↦ rw e (record {
      block = v.block;
      posted = v.posted;
      seen = v.seen;
      after = v.after;
      copied = v.copied;
    })
    | inr e ↦ rw e tt
  ]

  -- The invariant at a known place.
  pub record At (a : LoopAt) (s : EventLoop P) : Type 0 where
    pub block : s.is_in_block ≡ blocked a
    pub posted :
        s.is_already_post_wakeup ≡ true → 0 < bit s.signal + (total writers s.others + woken a)
    pub seen : 0 < length s.async_procs → 0 < bit s.signal + (total active s.others + coming a)
    pub after : Waits a s.after_loop_procs
    pub copied : Copied a s.copy_async_procs s.copy_after_loop_procs

  pub at_place : (a : LoopAt) (s : EventLoop P) → s.at ≡ a → Inv s → At a s
  at_place a s e v =
      subst (λ b. At b s) e
        (record {
          block = v.block;
          posted = v.posted;
          seen = v.seen;
          after = v.after;
          copied = v.copied;
        })

  pub enter-Inv : (t : ℕ) (a : LoopAt) (s : EventLoop P) → At a s → Kept (enter t a s)
  unfolding enter
  enter-Inv t outside s v = record {
    block = v.block;
    posted = v.posted;
    seen = v.seen;
    after = Waits-enter t s.after_loop_procs;
    copied = v.copied;
  }
  enter-Inv t (waiting u) s v = tt
  enter-Inv t (polled es) s v = tt
  enter-Inv t (handling es) s v = tt
  enter-Inv t reset s v = tt
  enter-Inv t ready s v = tt
  enter-Inv t running s v = tt
  enter-Inv t finishing s v = tt

  pub wait-Inv : (es : List Event) (a : LoopAt) (s : EventLoop P) → At a s → Kept (wait es a s)
  unfolding wait
  wait-Inv es (waiting t) s v =
      elim (Bool-cases
        ((if any_drains es then s.signal else true) && leb (length es) s.event_entries_num)) [
          | inl e ↦ rw e (record {
            block = v.block;
            posted = λ p. omega arith;
            seen = λ p. omega arith;
            after = tt;
            copied = v.copied;
          })
          | inr e ↦ rw e tt
        ]
  wait-Inv es outside s v = tt
  wait-Inv es (polled _) s v = tt
  wait-Inv es (handling _) s v = tt
  wait-Inv es reset s v = tt
  wait-Inv es ready s v = tt
  wait-Inv es running s v = tt
  wait-Inv es finishing s v = tt

  pub process_async_procs-Inv :
      (l : List P) (s : EventLoop P)
      → s.at ≡ running
      → s.copy_async_procs ≡ l
      → Inv s
      → Inv (process_async_procs l s)
  unfolding process_async_procs
  process_async_procs-Inv [] s e c v =
      let w = at_place running s e v in
      record { block = w.block; posted = w.posted; seen = w.seen; after = tt; copied = c }
  process_async_procs-Inv (f ∷ fs) s e c v = record {
    block = v.block;
    posted = v.posted;
    seen = v.seen;
    after = v.after;
    copied = let w = at_place running s e v in rw e w.copied;
  }

  pub process_after_loop_procs-Inv :
      (l : List P) (s : EventLoop P)
      → s.at ≡ finishing
      → s.copy_after_loop_procs ≡ l
      → Inv s
      → Inv (process_after_loop_procs l s)
  unfolding process_after_loop_procs
  process_after_loop_procs-Inv [] s e c v =
      let w = at_place finishing s e v in
      record {
        block = w.block;
        posted = w.posted;
        seen = w.seen;
        after = tt;
        copied = (w.copied, c);
      }
  process_after_loop_procs-Inv (f ∷ fs) s e c v = record {
    block = v.block;
    posted = v.posted;
    seen = v.seen;
    after = v.after;
    copied = let w = at_place finishing s e v in rw e w.copied;
  }

  pub loop-Inv : (a : LoopAt) (s : EventLoop P) → s.at ≡ a → Inv s → Kept (loop a s)
  unfolding loop
  loop-Inv outside s e v = tt
  loop-Inv (waiting t) s e v = tt
  loop-Inv (polled es) s e v =
      let w = at_place (polled es) s e v in
      record { block = refl; posted = w.posted; seen = w.seen; after = tt; copied = w.copied }
  loop-Inv (handling (x ∷ es)) s e v =
      let w = at_place (handling (x ∷ es)) s e v in
      record {
        block = w.block;
        posted = λ p. omega arith;
        seen = λ p. omega arith;
        after = tt;
        copied = w.copied;
      }
  loop-Inv (handling []) s e v =
      let w = at_place (handling []) s e v in
      record { block = w.block; posted = λ p. cc; seen = w.seen; after = tt; copied = w.copied }
  loop-Inv reset s e v =
      let w = at_place reset s e v in
      record { block = refl; posted = w.posted; seen = w.seen; after = tt; copied = w.copied }
  loop-Inv ready s e v =
      let w = at_place ready s e v in
      record {
        block = w.block;
        posted = w.posted;
        seen = λ p. absurd (omega (arith, ap (length {A = P}) w.copied.0));
        after = tt;
        copied = w.copied.1;
      }
  loop-Inv running s e v = process_async_procs-Inv s.copy_async_procs s e refl v
  loop-Inv finishing s e v = process_after_loop_procs-Inv s.copy_after_loop_procs s e refl v
