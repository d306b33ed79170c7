-- ===== src/RwList.antt =====
-- src/utils/rwlist.c: a queue between one writing and one reading thread, in three stacks. The
-- stacks are those of `Stack`; `none` is a failed assert. The functions here run one thread; what
-- the other does between the unlocked tests and the locked sections is in `RwList.Threads`.
pub mod Create
pub mod Fifo
pub mod Reader
pub mod Threads
mod Tests
use netxy.Base.{
  ℕ, zero, suc, ◌+◌, Bool, true, false, ◌&&◌, ◌||◌, not, Option, none, some, ltb, leb, is_some,
  if◌then◌else◌,
}
use netxy.Stack.{StackOps}

-- `ox_rwlist_new`: what each of its allocations gives (`none`, or false, for NULL). The test names
-- `shared` twice and `local_read` never; the result has a NULL field where one was not tested.
pub record Parts (C : Type 0) : Type 0 where
  pub local_write : Option C
  pub shared : Option C
  pub local_read : Option C
  pub mutex : Bool
  pub cond : Bool

pub new : {C : Type 0} → Bool → Parts C → Option (Parts C)
new false p = none
new true p =
    if not (is_some p.local_write)
      || (not (is_some p.shared) || (not (is_some p.shared) || not p.mutex))
    then none
    else some p

module _ {A : Type 0} (s : StackOps A) where
  open s use {Carrier, push, pop_front, front, num}

  -- `struct rwlist_s`, less the mutex and the condition variable
  pub record RwList : Type 0 where
    pub local_write : Carrier
    pub shared : Carrier
    pub local_read : Carrier
    pub max_pending_num : ℕ

  -- the test of `ox_rwlist_push` and of `rwlist_sync_write`, made without the lock
  pub may_publish : RwList → Bool
  may_publish r = leb (num r.shared) 0 && leb (num r.local_read) 0

  -- the locked section of `rwlist_sync_write` and of `ox_rwlist_force_flush`
  pub publish : RwList → RwList
  publish r = record r { local_write = r.shared; shared = r.local_write }

  -- `rwlist_sync_write`
  pub sync_write : RwList → RwList
  sync_write r = if may_publish r then publish r else r

  -- the first statements of `ox_rwlist_push`
  pub push_local : RwList → A → Option RwList
  push_local r x =
      let (stored, w) = push r.local_write x in
      if stored then some (record r { local_write = w }) else none

  -- the test of `ox_rwlist_push` that follows
  pub is_due : RwList → Bool
  is_due r = ltb r.max_pending_num (num r.local_write) && may_publish r

  -- `ox_rwlist_push`
  pub push_back : RwList → A → Option RwList
  push_back r x = elim (push_local r x) [
    | none ↦ none
    | some r' ↦ some (if is_due r' then sync_write r' else r')
  ]

  -- the end of the locked section of `rwlist_sync_read`
  pub take_shared : RwList → RwList
  take_shared r =
      if ltb 0 (num r.shared) then record r { shared = r.local_read; local_read = r.shared } else r

  -- `rwlist_sync_read`: a timeout of 0 stands for every one that is not positive. `wait` is what
  -- the writing thread does while `ox_thread_cond_timewait` has given the lock up.
  pub sync_read_locked : (RwList → RwList) → RwList → ℕ → RwList
  sync_read_locked wait r timeout =
      if leb timeout 0 && leb (num r.shared) 0
      then r
      else take_shared (if leb (num r.shared) 0 && ltb 0 timeout then wait r else r)

  -- `ox_rwlist_sync_read`, and the first statements of `ox_rwlist_front` and `ox_rwlist_pop`
  pub sync_read : (RwList → RwList) → RwList → ℕ → RwList
  sync_read wait r timeout = if leb (num r.local_read) 0 then sync_read_locked wait r timeout else r

  -- `ox_rwlist_once_front`
  pub once_front : RwList → Option A
  once_front r = front r.local_read

  -- `ox_rwlist_once_pop`
  pub once_pop : RwList → Option A × RwList
  once_pop r = let (out, rest) = pop_front r.local_read in (out, record r { local_read = rest })

  -- `ox_rwlist_front`
  pub peek : (RwList → RwList) → RwList → ℕ → Option A × RwList
  peek wait r timeout = let r' = sync_read wait r timeout in (once_front r', r')

  -- `ox_rwlist_pop`
  pub pop : (RwList → RwList) → RwList → ℕ → Option A × RwList
  pop wait r timeout = once_pop (sync_read wait r timeout)

  -- `ox_rwlist_flush`
  pub flush : RwList → RwList
  flush r = if ltb 0 (num r.local_write) then sync_write r else r

  -- the loop of `ox_rwlist_force_flush`, from the first stack to the second, on fuel; it ignores
  -- whether a push stored its element
  pub drain : ℕ → Carrier → Carrier → Option (Carrier × Carrier)
  drain zero from to = none
  drain (suc fuel) from to =
      let (out, rest) = pop_front from in
      elim out [ none ↦ some (rest, to) | some x ↦ drain fuel rest (push to x).1 ]

  -- the locked section of its second branch: as many rounds as elements, and one to see the end
  pub merge : RwList → Option RwList
  merge r = elim (drain (num r.local_write + 1) r.local_write r.shared) [
    | none ↦ none
    | some (w, sh) ↦ some (record r { local_write = w; shared = sh })
  ]

  -- `ox_rwlist_force_flush`
  pub force_flush : RwList → Option RwList
  force_flush r =
      if ltb 0 (num r.local_write)
      then (if leb (num r.shared) 0 then some (publish r) else merge r)
      else some r

  -- `ox_rwlist_allempty`
  pub all_empty : RwList → Bool
  all_empty r = leb (num r.local_write + num r.shared + num r.local_read) 0
