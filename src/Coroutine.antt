-- ===== src/Coroutine.antt =====
-- src/utils/coroutine.c: coroutines and their scheduler. This file has what both variants of the source
-- share: the states, and the list of the coroutines that can run. `Unix` is the variant for
-- `ucontext`, `Windows` the one for fibers. Switching contexts and saving stacks are the machine's: a
-- coroutine is its state, and what its function calls are actions.
pub mod Active
pub mod Unix
use netxy.Base.{
  ℕ, zero, suc, ◌+◌, Bool, true, false, Option, none, some, List, [], ◌∷◌, ◌==◌, get_elem?, total,
  if◌then◌else◌,
}

-- `enum COROUTINE_STATE`; a dead coroutine has no entry.
pub data State : Type 0 where
  ready : State
  running : State
  suspend : State
  block : State

abbrev pub status : List (Option State) → ℕ → Option State
status cos id = elim (get_elem? cos id) [ none ↦ none | some entry ↦ entry ]

-- 1 for an entry whose coroutine waits to run
abbrev pub runnable : Option State → ℕ
runnable none = 0
runnable (some ready) = 1
runnable (some running) = 0
runnable (some suspend) = 1
runnable (some block) = 0

abbrev pub is_running : Option State → Bool
is_running none = false
is_running (some ready) = false
is_running (some running) = true
is_running (some suspend) = false
is_running (some block) = false

abbrev pub is_at : Option ℕ → ℕ → Bool
is_at none id = false
is_at (some k) id = id == k

abbrev pub entry_num : List (Option State) → ℕ
entry_num cos = total (λ entry. elim entry [ none ↦ 0 | some st ↦ 1 ]) cos
