-- ===== src/ThreadPool.antt =====
-- src/utils/threadpool.c: worker threads that share a list of messages. What one thread does between
-- two accesses to shared state is one action, and an execution is a list of actions of any threads;
-- `none` is an action whose thread is not at that point, or waits. The list is a `Stack`. A worker gets a
-- pointer into it, and reads its message through that behind the unlock: `holding` and `calling` have what
-- the pointer points to, and a push says at which workers' pointers it puts its message, if they have yet
-- to read.
pub mod Messages
pub mod Busy
mod Tests
use netxy.Base.{
  ℕ, suc, ◌+◌, Bool, true, false, ◌&&◌, ◌||◌, not, Option, none, some, List, [], ◌∷◌, ◌++◌, ltb,
  leb, get_elem?, set, replicate, if◌then◌else◌, is_some,
}
use netxy.Stack.{StackOps}

-- Where a worker of `thread_pool_work` stands, with the message that it took (`none` for NULL):
-- before the lock; behind the unlock; with its state set; behind the callback; behind the loop.
pub data WorkerAt (A : Type 0) : Type 0 where
  waiting : WorkerAt A
  holding : Option A → WorkerAt A
  calling : Option A → WorkerAt A
  called : WorkerAt A
  ended : WorkerAt A

-- a worker, and its entry of `work_thread_state`
pub record Worker (A : Type 0) : Type 0 where
  pub at : WorkerAt A
  pub state : Bool

-- has the worker a pointer to a message that it has yet to read?
pub has_taken : {A : Type 0} → WorkerAt A → Bool
has_taken waiting = false
has_taken (holding none) = false
has_taken (holding (some m)) = true
has_taken (calling none) = false
has_taken (calling (some m)) = true
has_taken called = false
has_taken ended = false

-- Is the message of such a worker hit by a push?
pub any_hit : {A : Type 0} → (ℕ → Bool) → List (Worker A) → Bool
unfolding has_taken
any_hit hits [] = false
any_hit hits (w ∷ ws) = (hits 0 && has_taken w.at) || any_hit (λ i. hits (suc i)) ws

-- what a pointer points to behind a push at its place
pub overwritten : {A : Type 0} → A → WorkerAt A → WorkerAt A
overwritten x waiting = waiting
overwritten x (holding none) = holding none
overwritten x (holding (some m)) = holding (some x)
overwritten x (calling none) = calling none
overwritten x (calling (some m)) = calling (some x)
overwritten x called = called
overwritten x ended = ended

pub overwrite : {A : Type 0} → A → (ℕ → Bool) → List (Worker A) → List (Worker A)
unfolding overwritten
overwrite x hits [] = []
overwrite x hits (w ∷ ws) =
    (if hits 0 then record w { at = overwritten x w.at } else w)
    ∷ overwrite x (λ i. hits (suc i)) ws

-- the loop of `thread_pool_isbusy`
pub any_state : {A : Type 0} → List (Worker A) → Bool
any_state [] = false
any_state (w ∷ ws) = w.state || any_state ws

module _ {A : Type 0} (s : StackOps A) where
  -- `struct thread_pool_s`. `pushed` and `handled` record the messages that `thread_pool_pushmsg`
  -- accepted and those that the callback was given.
  pub record ThreadPool : Type 0 where
    pub is_run : Bool
    pub msg_list : s.Carrier
    pub workers : List (Worker A)
    pub pushed : List A
    pub handled : List A

  -- `thread_pool_new` and `thread_pool_start`
  unfoldable pub start : ℕ → ℕ → ThreadPool
  start thread_num msg_num = record {
    is_run = true;
    msg_list = s.create msg_num;
    workers = replicate thread_num (record { at = waiting; state = false });
    pushed = [];
    handled = [];
  }

  -- `thread_pool_pushmsg`; `hits` says at which workers' pointers the stack stores the message
  pub push_msg : ThreadPool → A → (ℕ → Bool) → Bool × ThreadPool
  unfolding overwrite
  push_msg p x hits =
      let (stored, list) = s.push p.msg_list x in
      if p.is_run
      then (if stored
          then (
            true,
            record p {
              msg_list = list;
              workers = overwrite x hits p.workers;
              pushed = p.pushed ++ (x ∷ []);
            },
          )
          else (false, record p { msg_list = list }))
      else (false, p)

  -- `thread_pool_stop`, up to the wait for the workers
  pub stop : ThreadPool → ThreadPool
  stop p = record p { is_run = false }

  -- the locked section of `thread_pool_work`: a worker that finds no message waits, unless the pool
  -- has been stopped
  pub take_msg : ThreadPool → ℕ → Worker A → Option ThreadPool
  take_msg p i w =
      let (msg, list) = s.pop_back p.msg_list in
      if not p.is_run
      then some (record p { workers = set p.workers i (record w { at = ended }) })
      else if leb (s.num p.msg_list) 0
      then none
      else some
          (record p { msg_list = list; workers = set p.workers i (record w { at = holding msg }) })

  -- what the worker `w` at place `i` does next
  pub advance : ThreadPool → ℕ → Worker A → WorkerAt A → Option ThreadPool
  unfolding take_msg
  advance p i w waiting = take_msg p i w
  advance p i w (holding msg) =
      some (record p { workers = set p.workers i (record { at = calling msg; state = true }) })
  advance p i w (calling none) =
      some (record p { workers = set p.workers i (record w { at = called }) })
  advance p i w (calling (some msg)) = some (record p {
    workers = set p.workers i (record w { at = called });
    handled = p.handled ++ (msg ∷ []);
  })
  advance p i w called =
      some (record p { workers = set p.workers i (record { at = waiting; state = false }) })
  advance p i w ended = none

  -- an action of a client or of the worker at a place
  pub data Act : Type 0 where
    send : A → (ℕ → Bool) → Act
    halt : Act
    work : ℕ → Act

  pub step : ThreadPool → Act → Option ThreadPool
  unfolding push_msg stop
  step p (send x hits) = some (push_msg p x hits).1
  step p halt = some (stop p)
  step p (work i) = elim (get_elem? p.workers i) [ none ↦ none | some w ↦ advance p i w w.at ]

  pub run : ThreadPool → List Act → Option ThreadPool
  run p [] = some p
  run p (a ∷ acts) = elim (step p a) [ none ↦ none | some q ↦ run q acts ]

  abbrev pub goes_on : (ThreadPool → Bool) → Option ThreadPool → Bool
  goes_on test none = true
  goes_on test (some p) = test p

  -- Does a push leave alone the message that a worker has yet to read?
  abbrev pub is_kept : ThreadPool → Act → Bool
  is_kept p (send x hits) = not (any_hit hits p.workers)
  is_kept p halt = true
  is_kept p (work i) = true

  -- and so in an execution
  pub all_kept : ThreadPool → List Act → Bool
  unfolding step
  all_kept p [] = true
  all_kept p (a ∷ acts) = is_kept p a && goes_on (λ q. all_kept q acts) (step p a)

  -- `thread_pool_isbusy`
  pub is_busy : ThreadPool → Bool
  unfolding any_state
  is_busy p = if ltb 0 (s.num p.msg_list) then true else any_state p.workers
