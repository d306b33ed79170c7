-- ===== src/ThreadPool/Messages.antt =====
-- Where the messages of a thread pool are: no execution loses or doubles one, as long as no push hits an
-- unread one. Messages are counted by
-- an arbitrary weight: with the weight 1 at one message and 0 elsewhere it counts that message.
use netxy.Base.{
  none≢some, ℕ, ◌+◌, ◌≡◌, refl, sym, ap, ◌∙◌, Bool, true, false, not, ◌&&◌, ◌||◌, both_true,
  if◌then◌else◌, none, some, List, [], ◌∷◌, arith, get_elem?, set, total, total-append, total-set,
  total-unsnoc, weight_of, inl, inr, Option-cases, replicate, zero, suc,
}
use mathlib.Core.Option.{some-injective}
use netxy.Stack.{StackOps, IsStack}
use netxy.ThreadPool.{
  WorkerAt, waiting, holding, calling, called, ended, Worker, ThreadPool, start, push_msg, take_msg,
  advance, any_hit, has_taken, overwritten, overwrite, goes_on, is_kept, all_kept, Act, send, halt,
  work, step, run,
}

module _ {A : Type 0} (weight : A → ℕ) where
  -- what a worker has taken and not yet given to the callback
  abbrev pub held : WorkerAt A → ℕ
  held waiting = 0
  held (holding m) = weight_of weight m
  held (calling m) = weight_of weight m
  held called = 0
  held ended = 0

  abbrev pub in_flight : List (Worker A) → ℕ
  in_flight ws = total (λ w. held w.at) ws

overwritten-kept :
    {A : Type 0} (x : A) (at : WorkerAt A) → has_taken at ≡ false → overwritten x at ≡ at
unfolding has_taken overwritten
overwritten-kept x waiting e = refl
overwritten-kept x (holding none) e = refl
overwritten-kept x (holding (some m)) e = cc
overwritten-kept x (calling none) e = refl
overwritten-kept x (calling (some m)) e = cc
overwritten-kept x called e = refl
overwritten-kept x ended e = refl

overwrite-kept :
    {A : Type 0} (x : A) (hits : ℕ → Bool) (ws : List (Worker A))
    → any_hit hits ws ≡ false
    → overwrite x hits ws ≡ ws
unfolding any_hit overwrite
overwrite-kept x hits [] e = refl
overwrite-kept x hits (w ∷ ws) e =
    let (here, later) = both_false (hits 0 && has_taken w.at) _ e in
    ap (λ v. v ∷ overwrite x (λ i. hits (suc i)) ws) (one (hits 0) here)
    ∙ ap (λ vs. w ∷ vs) (overwrite-kept x (λ i. hits (suc i)) ws later)
  where
    both_false : (a b : Bool) → (a || b) ≡ false → (a ≡ false) × (b ≡ false)
    both_false true b f = cc
    both_false false b f = (refl, f)

    one :
        (hit : Bool)
        → (hit && has_taken w.at) ≡ false
        → (if hit then record w { at = overwritten x w.at } else w) ≡ w
    one true f = ap (λ at. record w { at = at }) (overwritten-kept x w.at f)
    one false f = refl

module _ {A : Type 0} (s : StackOps A) (l : IsStack s) (weight : A → ℕ) where
  -- The accepted messages are those handled, those that workers hold, and those in the list.
  abbrev pub Balanced : ThreadPool s → Type 0
  Balanced p =
      total weight p.pushed
      ≡ total weight p.handled + in_flight weight p.workers + total weight (l.items p.msg_list)

  start-Balanced : (thread_num msg_num : ℕ) → Balanced (start s thread_num msg_num)
  unfolding start
  start-Balanced n m = ground (arith, l.create_lem m, idle n)
    where
      idle : (n : ℕ) → in_flight weight (replicate n (record { at = waiting; state = false })) ≡ 0
      idle zero = refl
      idle (suc n) = omega (arith, idle n)

  push_msg-Balanced :
      (p : ThreadPool s) (x : A) (hits : ℕ → Bool)
      → any_hit hits p.workers ≡ false
      → Balanced p
      → Balanced (push_msg s p x hits).1
  unfolding push_msg
  push_msg-Balanced p x hits kept v = ground (
    arith,
    ap (in_flight weight) (overwrite-kept x hits p.workers kept),
    l.push_lem p.msg_list x,
    l.push_stores p.msg_list x,
    total-append weight p.pushed (x ∷ []),
    total-append weight (l.items p.msg_list) (x ∷ []),
  )

  popped :
      (c : s.Carrier)
      → total weight (l.items c)
        ≡ weight_of weight (s.pop_back c).0 + total weight (l.items (s.pop_back c).1)
  popped c =
      total-unsnoc weight (l.items c)
      ∙ sym (ap (λ t. weight_of weight t.0 + total weight t.1) (l.pop_back_lem c))

  in_flight-set :
      (ws : List (Worker A)) (i : ℕ) {w : Worker A} (v : Worker A)
      → get_elem? ws i ≡ some w
      → in_flight weight (set ws i v) + held weight w.at ≡ in_flight weight ws + held weight v.at
  in_flight-set ws i v e = total-set (λ w. held weight w.at) ws i v e

  take_msg-Balanced :
      (p : ThreadPool s) (i : ℕ) (w : Worker A) {q : ThreadPool s}
      → get_elem? p.workers i ≡ some w
      → w.at ≡ waiting
      → take_msg s p i w ≡ some q
      → Balanced p
      → Balanced q
  unfolding take_msg
  take_msg-Balanced p i w e at h v = ground (
    arith,
    popped p.msg_list,
    in_flight-set p.workers i (record w { at = holding (s.pop_back p.msg_list).0 }) e,
    in_flight-set p.workers i (record w { at = ended }) e,
  )

  advance-Balanced :
      (p : ThreadPool s) (i : ℕ) (w : Worker A) (at : WorkerAt A) {q : ThreadPool s}
      → get_elem? p.workers i ≡ some w
      → w.at ≡ at
      → advance s p i w at ≡ some q
      → Balanced p
      → Balanced q
  unfolding advance
  advance-Balanced p i w waiting e at h v = take_msg-Balanced p i w e at h v
  advance-Balanced p i w (holding m) e at h v =
      ground (arith, in_flight-set p.workers i (record { at = calling m; state = true }) e)
  advance-Balanced p i w (calling none) e at h v =
      ground (arith, in_flight-set p.workers i (record w { at = called }) e)
  advance-Balanced p i w (calling (some m)) e at h v = ground (
    arith,
    in_flight-set p.workers i (record w { at = called }) e,
    total-append weight p.handled (m ∷ []),
  )
  advance-Balanced p i w called e at h v =
      ground (arith, in_flight-set p.workers i (record { at = waiting; state = false }) e)
  advance-Balanced p i w ended e at h v = cc

  step-Balanced :
      (p : ThreadPool s) (a : Act s) {q : ThreadPool s}
      → is_kept s p a ≡ true
      → step s p a ≡ some q
      → Balanced p
      → Balanced q
  unfolding step
  step-Balanced p (send x hits) k h v =
      rw (← some-injective _ _ h)
        (push_msg-Balanced p x hits (none_hit (any_hit hits p.workers) k) v)
    where
      none_hit : (b : Bool) → not b ≡ true → b ≡ false
      none_hit true f = cc
      none_hit false f = refl
  step-Balanced p halt k h v = ground (arith, h, v)
  step-Balanced p (work i) k h v = elim (Option-cases (get_elem? p.workers i)) [
    | inl e ↦ absurd (none≢some (rw (e, step) at h))
    | inr (w, e) ↦ advance-Balanced p i w w.at e refl (rw (e, step) at h) v
  ]

  run-Balanced :
      (p : ThreadPool s) (acts : List (Act s)) {q : ThreadPool s}
      → all_kept s p acts ≡ true
      → run s p acts ≡ some q
      → Balanced p
      → Balanced q
  unfolding run all_kept
  run-Balanced p [] k h v = rw (← some-injective _ _ h) v
  run-Balanced p (a ∷ acts) k h v =
      let (here, later) = both_true (is_kept s p a) _ k in
      elim (Option-cases (step s p a)) [
        | inl e ↦ absurd (none≢some (rw (e, run) at h))
        | inr (m, e) ↦
            run-Balanced m acts (sym (ap (goes_on s (λ q. all_kept s q acts)) e) ∙ later)
              (rw (e, run) at h) (step-Balanced p a here e v)
      ]

  -- In any execution of a fresh pool in which no push hits a message that a worker took and has yet to
  -- read, the messages that were accepted are, each as often, those given to the callback, those that a
  -- worker holds, and those in the list.
  pub run_balanced :
      (thread_num msg_num : ℕ) (acts : List (Act s)) {q : ThreadPool s}
      → all_kept s (start s thread_num msg_num) acts ≡ true
      → run s (start s thread_num msg_num) acts ≡ some q
      → total weight q.pushed
        ≡ total weight q.handled + in_flight weight q.workers + total weight (l.items q.msg_list)
  run_balanced n m acts k h = run-Balanced (start s n m) acts k h (start-Balanced n m)
