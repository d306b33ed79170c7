-- ===== src/RwList/Tests.antt =====
-- Runs of the list over plain stacks, and its theorems at them.
use netxy.Base.{ℕ, ◌≡◌, refl, true, none, some, [], ◌∷◌, ◌++◌, is_some}
use netxy.Stack.{StackOps, IsStack}
use netxy.Stack.Model.{list_stack, list_stack_laws}
use netxy.RwList.{
  Parts, new, RwList, may_publish, publish, push_local, take_shared, sync_read_locked, sync_read,
  once_pop, pop, drain, merge, force_flush,
}
use netxy.RwList.Create.{new_parts}
use netxy.RwList.Fifo.{queue}
use netxy.RwList.Threads.{
  World, WriterAt, push, publish_test, publish_locked, Reach, here, next, begin, Reach-order,
}

abbrev stack : StackOps ℕ
stack = list_stack ℕ

abbrev plain : IsStack stack
plain = list_stack_laws ℕ

-- 1 has been read, 2 was handed over, and the writer holds 3 and 4.
abbrev sample : RwList stack
sample = record { local_write = 3 ∷ 4 ∷ []; shared = 2 ∷ []; local_read = []; max_pending_num = 1 }

abbrev lacking : Parts ℕ
lacking = record {
  local_write = some 1;
  shared = some 2;
  local_read = none;
  mutex = true;
  cond = true;
}

pop_takes_shared :
    pop stack (λ r. r) sample 0 ≡ (some 2, record sample { shared = []; local_read = [] })
unfolding pop sync_read sync_read_locked take_shared once_pop
pop_takes_shared = refl

force_flush_merges :
    force_flush stack sample ≡ some (record sample { local_write = []; shared = 2 ∷ 3 ∷ 4 ∷ [] })
unfolding force_flush merge drain
force_flush_merges = refl

new_parts_example :
    (lacking ≡ lacking)
    × (is_some lacking.local_write ≡ true)
    × (is_some lacking.shared ≡ true)
    × (lacking.mutex ≡ true)
unfolding new
new_parts_example = new_parts true lacking refl

-- A push, its hand-over, and the reader's pop of what was handed over.
abbrev pushed_one : World stack
pushed_one = record (begin stack 4 0) {
  list = record { local_write = 9 ∷ []; shared = []; local_read = []; max_pending_num = 0 };
  pushed = 9 ∷ [];
}

one_pushed : Reach stack (begin stack 4 0) pushed_one
unfolding begin push_local
one_pushed = next here (push (begin stack 4 0) 9 pushed_one.list refl refl)

one_published :
    Reach stack
      (begin stack 4 0)
      (record pushed_one { list = publish stack pushed_one.list; writer = WriterAt.idle })
unfolding begin may_publish
one_published =
    next (next one_pushed (publish_test pushed_one refl refl refl))
      (publish_locked (record pushed_one { writer = WriterAt.publishing }) refl)

Reach-order_example : [] ++ queue stack plain (publish stack pushed_one.list) ≡ 9 ∷ []
unfolding begin
Reach-order_example = Reach-order stack plain 4 0 one_published
