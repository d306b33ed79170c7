-- ===== src/ThreadPool/Busy.antt =====
-- `thread_pool_isbusy` of src/utils/threadpool.c, which `thread_pool_wait` polls: when its answer
-- means that all messages have been handled, and when it does not.
use mathlib.Core.Option.{some-injective}
use netxy.Base.{
  none≢some, ℕ, zero, suc, ◌+◌, ◌≡◌, ◌⊎◌, refl, sym, ap, ◌∙◌, Bool, true, false, ◌||◌, Option, none,
  some, List, [], ◌∷◌, arith, leb, ltb, length, get_elem?, set, unsnoc, total, inl, inr, Bool-cases,
  Option-cases, replicate, if◌then◌else◌, nil_of_length,
}
use netxy.Stack.{StackOps, IsStack}
use netxy.ThreadPool.{
  WorkerAt, waiting, holding, calling, called, ended, Worker, ThreadPool, start, push_msg, take_msg,
  advance, Act, send, halt, work, step, run, any_state, overwritten, overwrite, all_kept, is_busy,
}
use netxy.ThreadPool.Messages.{held, in_flight, run_balanced}

or_false_left : (a b : Bool) → (a || b) ≡ false → a ≡ false
or_false_left a b h = ground arith

or_false_right : (a b : Bool) → (a || b) ≡ false → b ≡ false
or_false_right a b h = ground arith

-- A worker that has marked its message has its state set.
abbrev Marks : {A : Type 0} → WorkerAt A → Bool → Type 0
Marks (calling m) b = b ≡ true
Marks waiting b = Unit
Marks (holding m) b = Unit
Marks called b = Unit
Marks ended b = Unit

abbrev AllMarked : {A : Type 0} → List (Worker A) → Type 0
AllMarked [] = Unit
AllMarked (w ∷ ws) = Marks w.at w.state × AllMarked ws

AllMarked-set :
    {A : Type 0} (ws : List (Worker A)) (i : ℕ) (v : Worker A)
    → AllMarked ws
    → Marks v.at v.state
    → AllMarked (set ws i v)
AllMarked-set [] i v a m = a
AllMarked-set (w ∷ ws) zero v a m = (m, a.1)
AllMarked-set (w ∷ ws) (suc i) v a m = (a.0, AllMarked-set ws i v a.1 m)

-- A worker that stands between taking a message and marking it.
abbrev is_holding : {A : Type 0} → WorkerAt A → Bool
is_holding (holding m) = true
is_holding waiting = false
is_holding (calling m) = false
is_holding called = false
is_holding ended = false

unfoldable pub any_holding : {A : Type 0} → List (Worker A) → Bool
any_holding [] = false
any_holding (w ∷ ws) = is_holding w.at || any_holding ws

any_state-set :
    {A : Type 0} (ws : List (Worker A)) (i : ℕ) {w : Worker A} (v : Worker A)
    → get_elem? ws i ≡ some w
    → v.state ≡ w.state
    → any_state (set ws i v) ≡ any_state ws
unfolding any_state
any_state-set [] i v e h = refl
any_state-set (w ∷ ws) zero v e h =
    ap (λ b. b || any_state ws) (h ∙ sym (ap (λ t. t.state) (some-injective _ _ e)))
any_state-set (w ∷ ws) (suc i) v e h = ap (λ b. w.state || b) (any_state-set ws i v e h)

module _ {A : Type 0} (s : StackOps A) (l : IsStack s) where
  -- Between the unlock and the mark of a worker that took the last message, the pool looks idle: no
  -- message is in the list and no state is set, while that message is still to be handled.
  idle_while_holding :
      (p : ThreadPool s) (i : ℕ) (w : Worker A) (m : A)
      → p.is_run ≡ true
      → l.items p.msg_list ≡ m ∷ []
      → get_elem? p.workers i ≡ some w
      → w.at ≡ waiting
      → any_state p.workers ≡ false
      → (q : ThreadPool s) × (step s p (work i) ≡ some q)
        × (is_busy s q ≡ false)
        × (q.handled ≡ p.handled)
        × (q.workers ≡ set p.workers i (record w { at = holding (some m) }))
  unfolding step advance take_msg is_busy
  idle_while_holding p i w m on one e at idle = (
    record p {
      msg_list = (s.pop_back p.msg_list).1;
      workers = set p.workers i (record w { at = holding (some m) });
    },
    rw (e, step) (rw (at, advance) (rw (on, some_left, taken))),
    rw (none_left, any_state-set p.workers i (record w { at = holding (some m) }) e refl) idle,
    refl,
    refl,
  )
    where
      last :
          ◌≡◌ {A = Option A × List A}
            ((s.pop_back p.msg_list).0, l.items (s.pop_back p.msg_list).1)
            (some m, [])
      last = l.pop_back_lem p.msg_list ∙ ap unsnoc one

      taken : (s.pop_back p.msg_list).0 ≡ some m
      taken = ap (λ t. t.0) last

      some_left : leb (s.num p.msg_list) 0 ≡ false
      some_left = ground (arith, l.num_lem p.msg_list, ap (λ xs. length {A = A} xs) one)

      none_left : ltb 0 (s.num (s.pop_back p.msg_list).1) ≡ false
      none_left =
          ground (arith, l.num_lem (s.pop_back p.msg_list).1, ap (λ t. length {A = A} t.1) last)

  unmarked_holds_nothing :
      (weight : A → ℕ) (ws : List (Worker A))
      → AllMarked ws
      → any_state ws ≡ false
      → any_holding ws ≡ false
      → in_flight weight ws ≡ 0
  unfolding any_state any_holding
  unmarked_holds_nothing weight [] a b c = refl
  unmarked_holds_nothing weight (w ∷ ws) a b c =
      by_place w.at a.0 (or_false_left _ _ b) (or_false_left _ _ c)
        (unmarked_holds_nothing weight ws a.1 (or_false_right _ _ b) (or_false_right _ _ c))
    where
      by_place :
          (at : WorkerAt A)
          → Marks at w.state
          → w.state ≡ false
          → is_holding at ≡ false
          → in_flight weight ws ≡ 0
          → held weight at + in_flight weight ws ≡ 0
      by_place waiting a b c h = omega arith
      by_place (holding m) a b c h = cc
      by_place (calling m) a b c h = cc
      by_place called a b c h = omega arith
      by_place ended a b c h = omega arith

  take_msg-AllMarked :
      (p : ThreadPool s) (i : ℕ) (w : Worker A) {q : ThreadPool s}
      → take_msg s p i w ≡ some q
      → AllMarked p.workers
      → AllMarked q.workers
  unfolding take_msg
  take_msg-AllMarked p i w h v = elim (Bool-cases p.is_run) [
    | inr off ↦
        rw (← some-injective _ _ (rw (off, take_msg) at h)) (AllMarked-set p.workers i _ v tt)
    | inl on ↦ elim (Bool-cases (leb (s.num p.msg_list) 0)) [
      | inl none_left ↦ absurd (none≢some (rw (on, none_left, take_msg) at h))
      | inr some_left ↦
          rw (← some-injective _ _ (rw (on, some_left, take_msg) at h))
            (AllMarked-set p.workers i _ v tt)
    ]
  ]

  advance-AllMarked :
      (p : ThreadPool s) (i : ℕ) (w : Worker A) (at : WorkerAt A) {q : ThreadPool s}
      → advance s p i w at ≡ some q
      → AllMarked p.workers
      → AllMarked q.workers
  unfolding advance
  advance-AllMarked p i w waiting h v = take_msg-AllMarked p i w h v
  advance-AllMarked p i w (holding m) h v =
      rw (← some-injective _ _ h) (AllMarked-set p.workers i _ v refl)
  advance-AllMarked p i w (calling none) h v =
      rw (← some-injective _ _ h) (AllMarked-set p.workers i _ v tt)
  advance-AllMarked p i w (calling (some m)) h v =
      rw (← some-injective _ _ h) (AllMarked-set p.workers i _ v tt)
  advance-AllMarked p i w called h v =
      rw (← some-injective _ _ h) (AllMarked-set p.workers i _ v tt)
  advance-AllMarked p i w ended h v = cc

  Marks-overwritten : (x : A) (at : WorkerAt A) (b : Bool) → Marks at b → Marks (overwritten x at) b
  unfolding overwritten
  Marks-overwritten x waiting b m = tt
  Marks-overwritten x (holding none) b m = tt
  Marks-overwritten x (holding (some y)) b m = tt
  Marks-overwritten x (calling none) b m = m
  Marks-overwritten x (calling (some y)) b m = m
  Marks-overwritten x called b m = tt
  Marks-overwritten x ended b m = tt

  AllMarked-overwrite :
      (x : A) (hits : ℕ → Bool) (ws : List (Worker A))
      → AllMarked ws
      → AllMarked (overwrite x hits ws)
  unfolding overwrite
  AllMarked-overwrite x hits [] v = tt
  AllMarked-overwrite x hits (w ∷ ws) v =
      (one (hits 0), AllMarked-overwrite x (λ i. hits (suc i)) ws v.1)
    where
      one :
          (hit : Bool)
          → let u : Worker A = if hit then record w { at = overwritten x w.at } else w in
            Marks u.at u.state
      one true = Marks-overwritten x w.at w.state v.0
      one false = v.0

  push_msg-AllMarked :
      (p : ThreadPool s) (x : A) (hits : ℕ → Bool)
      → AllMarked p.workers
      → AllMarked (push_msg s p x hits).1.workers
  unfolding push_msg
  push_msg-AllMarked p x hits v = elim (Bool-cases p.is_run) [
    | inr off ↦ rw (off, push_msg) v
    | inl on ↦ elim (Bool-cases (s.push p.msg_list x).0) [
      | inr full ↦ rw (on, full, push_msg) v
      | inl stored ↦ rw (on, stored, push_msg) (AllMarked-overwrite x hits p.workers v)
    ]
  ]

  step-AllMarked :
      (p : ThreadPool s) (a : Act s) {q : ThreadPool s}
      → step s p a ≡ some q
      → AllMarked p.workers
      → AllMarked q.workers
  unfolding step
  step-AllMarked p (send x hits) h v = rw (← some-injective _ _ h) (push_msg-AllMarked p x hits v)
  step-AllMarked p halt h v = rw (← some-injective _ _ h) v
  step-AllMarked p (work i) h v = elim (Option-cases (get_elem? p.workers i)) [
    | inl e ↦ absurd (none≢some (rw (e, step) at h))
    | inr (w, e) ↦ advance-AllMarked p i w w.at (rw (e, step) at h) v
  ]

  run-AllMarked :
      (p : ThreadPool s) (acts : List (Act s)) {q : ThreadPool s}
      → run s p acts ≡ some q
      → AllMarked p.workers
      → AllMarked q.workers
  unfolding run
  run-AllMarked p [] h v = rw (← some-injective _ _ h) v
  run-AllMarked p (a ∷ acts) h v = elim (Option-cases (step s p a)) [
    | inl e ↦ absurd (none≢some (rw (e, run) at h))
    | inr (m, e) ↦ run-AllMarked m acts (rw (e, run) at h) (step-AllMarked p a e v)
  ]

  start-AllMarked : (thread_num msg_num : ℕ) → AllMarked (start s thread_num msg_num).workers
  unfolding start
  start-AllMarked n m = idle n
    where
      idle : (n : ℕ) → AllMarked {A = A} (replicate n (record { at = waiting; state = false }))
      idle zero = tt
      idle (suc n) = (tt, idle n)

  -- In any execution of a fresh pool in which no push hits a message that a worker took and has yet to
  -- read, when the pool is not busy and no worker stands between taking a message and marking it, the accepted messages are, each as often, those given to the callback.
  idle_done :
      (weight : A → ℕ) (thread_num msg_num : ℕ) (acts : List (Act s)) {q : ThreadPool s}
      → all_kept s (start s thread_num msg_num) acts ≡ true
      → run s (start s thread_num msg_num) acts ≡ some q
      → is_busy s q ≡ false
      → any_holding q.workers ≡ false
      → total weight q.pushed ≡ total weight q.handled
  unfolding is_busy
  idle_done weight n m acts {q} k h busy none_holding =
      let (empty, unmarked) = quiet (Bool-cases (ltb 0 (s.num q.msg_list))) in
      let marked = run-AllMarked (start s n m) acts h (start-AllMarked n m) in
      omega (
        arith,
        run_balanced s l weight n m acts k h,
        unmarked_holds_nothing weight q.workers marked unmarked none_holding,
        ap (total weight) empty,
      )
    where
      quiet :
          (ltb 0 (s.num q.msg_list) ≡ true) ⊎ (ltb 0 (s.num q.msg_list) ≡ false)
          → (l.items q.msg_list ≡ []) × (any_state q.workers ≡ false)
      quiet (inl e) = cc (rw e at busy)
      quiet (inr e) = (
        nil_of_length (l.items q.msg_list) (ground (arith, e, l.num_lem q.msg_list)),
        rw e at busy,
      )
