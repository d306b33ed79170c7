-- ===== src/MsgQueue.antt =====
-- src/utils/MsgQueue.h: a queue between a writing and a reading thread, which share the middle of its three
-- lists under a mutex. Each critical section is one action; waiting is left out, as it changes no list.
pub mod Fifo
mod Tests
use mathlib.Core.List.{reverse}
use netxy.Base.{
  ℕ, suc, Bool, true, false, not, ◌&&◌, Option, none, some, List, [], ◌∷◌, ◌++◌, ltb, length,
  unsnoc, if◌then◌else◌,
}

module _ {ℓ} (T : Type ℓ) where
  pub record MsgQueue : Type ℓ where
    pub read_list : List T
    pub write_list : List T
    pub shared_list : List T

abbrev pub empty {ℓ} : {T : Type ℓ} → List T → Bool
empty [] = true
empty (x ∷ xs) = false

module _ {ℓ} {T : Type ℓ} where
  -- `push`
  unfoldable pub push : T → MsgQueue T → MsgQueue T
  push t q = record q { write_list = q.write_list ++ t ∷ [] }

  -- `trySyncWrite`, whose test under the lock is that before it
  unfoldable pub try_sync_write : MsgQueue T → MsgQueue T
  try_sync_write q =
      if not (empty q.write_list) && empty q.shared_list
      then record q { shared_list = q.write_list; write_list = q.shared_list }
      else q

  -- the loop over `mSharedList` from its end, with `push_front`
  unfoldable pub push_fronts : List T → List T → List T
  push_fronts [] write_list = write_list
  push_fronts (x ∷ xs) write_list = push_fronts xs (x ∷ write_list)

  -- the critical section of `forceSyncWrite`, which does not test `mSharedList` again
  unfoldable pub force_locked : MsgQueue T → MsgQueue T
  force_locked q =
      if empty q.write_list
      then q
      else if ltb (length q.shared_list) (length q.write_list)
      then record q {
        shared_list = push_fronts (reverse q.shared_list) q.write_list;
        write_list = [];
      }
      else record q { shared_list = q.shared_list ++ q.write_list; write_list = [] }

  -- `forceSyncWrite`
  unfoldable pub force_sync_write : MsgQueue T → MsgQueue T
  force_sync_write q =
      if empty q.write_list
      then q
      else if empty q.shared_list
      then try_sync_write q
      else force_locked q

  -- `popFront`
  pub pop_front : MsgQueue T → Option T × MsgQueue T
  pop_front q = elim q.read_list [ [] ↦ (none, q) | x ∷ xs ↦ (some x, record q { read_list = xs }) ]

  -- `syncRead`
  unfoldable pub sync_read : MsgQueue T → MsgQueue T
  sync_read q =
      if empty q.read_list && not (empty q.shared_list)
      then record q { read_list = q.shared_list; shared_list = q.read_list }
      else q

  -- `popBack`
  unfoldable pub pop_back : MsgQueue T → Option T × MsgQueue T
  pop_back q = elim (unsnoc q.read_list).0 [
    | none ↦ (none, q)
    | some x ↦ (some x, record q { read_list = (unsnoc q.read_list).1 })
  ]

  -- `clear`
  pub clear : MsgQueue T → MsgQueue T
  clear q = record q { write_list = []; shared_list = []; read_list = [] }
