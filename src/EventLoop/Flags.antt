-- ===== src/EventLoop/Flags.antt =====
-- What the flags of the loop and the places of the threads say of each other, and that the calls of
-- other threads keep it.
use netxy.Base.{
  ℕ, ◌+◌, ◌<◌, ◌≤◌, ◌≡◌, refl, ◌∙◌, sym, Bool, true, false, Option, none, some, List, [], ◌∷◌,
  arith, length, get_elem?, set, total, total-set, Bool-cases, inl, inr,
}
use netxy.EventLoop.{
  OtherAt, idle, pushed, exchanging, writing, LoopAt, outside, waiting, polled, handling, reset,
  ready, running, finishing, EventLoop, begin_other, wakeup,
}

abbrev pub bit : Bool → ℕ
bit true = 1
bit false = 0

-- threads inside a call
abbrev pub active : OtherAt → ℕ
active idle = 0
active pushed = 1
active exchanging = 1
active writing = 1

abbrev pub writers : OtherAt → ℕ
writers idle = 0
writers pushed = 0
writers exchanging = 0
writers writing = 1

-- The loop goes on to reset `mIsAlreadyPostWakeup`, or to swap the procedures, before it waits again.
abbrev pub woken : LoopAt → ℕ
woken outside = 0
woken (waiting t) = 0
woken (polled es) = 1
woken (handling es) = 1
woken reset = 0
woken ready = 0
woken running = 0
woken finishing = 0

abbrev pub coming : LoopAt → ℕ
coming outside = 0
coming (waiting t) = 0
coming (polled es) = 1
coming (handling es) = 1
coming reset = 1
coming ready = 1
coming running = 0
coming finishing = 0

abbrev pub blocked : LoopAt → Bool
blocked outside = true
blocked (waiting t) = true
blocked (polled es) = true
blocked (handling es) = false
blocked reset = false
blocked ready = true
blocked running = true
blocked finishing = true

-- What the loop does to the procedures that are left when it waits
abbrev pub Waits {ℓ} : {A : Type ℓ} → LoopAt → List A → Type 0
Waits outside l = Unit
Waits (waiting t) [] = Unit
Waits (waiting t) (x ∷ l) = t ≡ 0
Waits (polled es) l = Unit
Waits (handling es) l = Unit
Waits reset l = Unit
Waits ready l = Unit
Waits running l = Unit
Waits finishing l = Unit

-- the copies are empty, but while they are gone through
abbrev pub Copied {ℓ} : {A : Type ℓ} → LoopAt → List A → List A → Type ℓ
Copied running l m = m ≡ []
Copied finishing l m = l ≡ []
Copied outside l m = (l ≡ []) × (m ≡ [])
Copied (waiting t) l m = (l ≡ []) × (m ≡ [])
Copied (polled es) l m = (l ≡ []) × (m ≡ [])
Copied (handling es) l m = (l ≡ []) × (m ≡ [])
Copied reset l m = (l ≡ []) × (m ≡ [])
Copied ready l m = (l ≡ []) × (m ≡ [])

pub unblocked : (a : LoopAt) → blocked a ≡ false → coming a ≡ 1
unblocked (handling es) e = refl
unblocked reset e = refl
unblocked outside e = cc
unblocked (waiting t) e = cc
unblocked (polled es) e = cc
unblocked ready e = cc
unblocked running e = cc
unblocked finishing e = cc

pub woken-le-coming : (a : LoopAt) → woken a ≤ coming a
woken-le-coming outside = omega arith
woken-le-coming (waiting t) = omega arith
woken-le-coming (polled es) = omega arith
woken-le-coming (handling es) = omega arith
woken-le-coming reset = omega arith
woken-le-coming ready = omega arith
woken-le-coming running = omega arith
woken-le-coming finishing = omega arith

pub writers-le-active : (os : List OtherAt) → total writers os ≤ total active os
writers-le-active [] = omega arith
writers-le-active (idle ∷ os) = omega (arith, writers-le-active os)
writers-le-active (pushed ∷ os) = omega (arith, writers-le-active os)
writers-le-active (exchanging ∷ os) = omega (arith, writers-le-active os)
writers-le-active (writing ∷ os) = omega (arith, writers-le-active os)

module _ {P : Type 0} where
  -- What holds in every execution.
  pub record Inv (s : EventLoop P) : Type 0 where
    pub block : s.is_in_block ≡ blocked s.at
    pub posted :
        s.is_already_post_wakeup ≡ true → 0 < bit s.signal + (total writers s.others + woken s.at)
    pub seen : 0 < length s.async_procs → 0 < bit s.signal + (total active s.others + coming s.at)
    pub after : Waits s.at s.after_loop_procs
    pub copied : Copied s.at s.copy_async_procs s.copy_after_loop_procs

  abbrev pub Kept : Option (EventLoop P) → Type 0
  Kept none = Unit
  Kept (some t) = Inv t

  pub begin_other-Inv :
      (i : ℕ) (f : Option P) (o : OtherAt) (s : EventLoop P)
      → get_elem? s.others i ≡ some o
      → Inv s
      → Kept (begin_other i f o s)
  unfolding begin_other
  begin_other-Inv i (some f) idle s e v = record {
    block = v.block;
    posted = λ p. omega (arith, v.posted p, total-set writers s.others i pushed e);
    seen = λ p. omega (arith, total-set active s.others i pushed e);
    after = v.after;
    copied = v.copied;
  }
  begin_other-Inv i none idle s e v = record {
    block = v.block;
    posted = λ p. omega (arith, v.posted p, total-set writers s.others i pushed e);
    seen = λ p. omega (arith, total-set active s.others i pushed e);
    after = v.after;
    copied = v.copied;
  }
  begin_other-Inv i (some f) pushed s e v = tt
  begin_other-Inv i (some f) exchanging s e v = tt
  begin_other-Inv i (some f) writing s e v = tt
  begin_other-Inv i none pushed s e v = tt
  begin_other-Inv i none exchanging s e v = tt
  begin_other-Inv i none writing s e v = tt

  pub wakeup-Inv :
      (i : ℕ) (o : OtherAt) (s : EventLoop P)
      → get_elem? s.others i ≡ some o
      → Inv s
      → Kept (wakeup i o s)
  unfolding wakeup
  wakeup-Inv i idle s e v = tt
  wakeup-Inv i pushed s e v = elim (Bool-cases s.is_in_block) [
    | inl b ↦ record {
      block = v.block;
      posted = λ p. rw b (omega (arith, v.posted p, total-set writers s.others i exchanging e));
      seen = λ p. rw b (omega (arith, total-set active s.others i exchanging e));
      after = v.after;
      copied = v.copied;
    }
    | inr b ↦ record {
      block = v.block;
      posted = λ p. rw b (omega (arith, v.posted p, total-set writers s.others i idle e));
      seen = λ p. omega (arith, unblocked s.at (sym v.block ∙ b));
      after = v.after;
      copied = v.copied;
    }
  ]
  wakeup-Inv i exchanging s e v = elim (Bool-cases s.is_already_post_wakeup) [
    | inl b ↦ record {
      block = v.block;
      posted = λ p. rw b (omega (arith, v.posted b, total-set writers s.others i idle e));
      seen = λ p. rw b (
          omega (
            arith,
            v.posted b,
            total-set writers s.others i idle e,
            writers-le-active (set s.others i idle),
            woken-le-coming s.at,
          ));
      after = v.after;
      copied = v.copied;
    }
    | inr b ↦ record {
      block = v.block;
      posted = λ p. rw b (omega (arith, total-set writers s.others i writing e));
      seen = λ p. rw b (omega (arith, total-set active s.others i writing e));
      after = v.after;
      copied = v.copied;
    }
  ]
  wakeup-Inv i writing s e v = record {
    block = v.block;
    posted = λ p. omega arith;
    seen = λ p. omega arith;
    after = v.after;
    copied = v.copied;
  }
