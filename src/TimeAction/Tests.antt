-- ===== src/TimeAction/Tests.antt =====
-- A manager of two timers over plain stacks and sorted lists, and the theorems at it.
use netxy.Base.{ℕ, ◌+◌, ◌≤◌, ◌<◌, ◌≡◌, ◌⊎◌, refl, true, none, some, List, [], ◌∷◌, arith, get_elem?}
use netxy.Stack.{StackOps, IsStack}
use netxy.Stack.Model.{list_stack, list_stack_laws}
use netxy.Heap.Model.{list_heap, list_heap_laws}
use netxy.TimeAction.{
  Node, node_init, key_of, forward, back, TimerMgr, push_ids, move_ids, new, grow, put, take_id,
  add, release, round, schedule, Act, del_timer, add_timer, step, run,
}
use netxy.TimeAction.Valid.{pending, IsValid}
use netxy.TimeAction.Rounds.{round_due, run-new-IsValid, schedule_lem}

abbrev stack : StackOps ℕ
stack = list_stack ℕ

abbrev plain : IsStack stack
plain = list_stack_laws ℕ

abbrev fresh : TimerMgr stack list_heap
fresh = record {
  node_num = 2;
  free_node_ids = 0 ∷ 1 ∷ [];
  node_array = node_init ∷ node_init ∷ [];
  compositor_heap = [];
}

-- A timer for 15 and one for 12 are added.
abbrev script : List (Act stack list_heap)
script =
    add_timer true true 10 (some 7) (forward 5) 1
    ∷ add_timer true true 10 (some 8) (forward 2) 2
    ∷ []

abbrev two_timers : TimerMgr stack list_heap
two_timers = record {
  node_num = 2;
  free_node_ids = [];
  node_array =
      record { left_time = 12; arg = 2; callback = some 8 }
      ∷ (record { left_time = 15; arg = 1; callback = some 7 } ∷ []);
  compositor_heap = 0 ∷ 1 ∷ [];
}

abbrev one_left : TimerMgr stack list_heap
one_left = record two_timers { free_node_ids = 0 ∷ []; compositor_heap = 1 ∷ [] }

new-fresh : new stack list_heap true 2 ≡ some fresh
unfolding new push_ids
new-fresh = refl

run-script : run stack list_heap fresh script ≡ two_timers
unfolding run step add take_id put
run-script = refl

first_round : round stack list_heap 13 two_timers ≡ some (some (8, 2), one_left)
unfolding round release
first_round = refl

-- The third timer needs more nodes.
added_third : add stack list_heap true true 20 two_timers (some 9) (back 4) 3 ≡ (
  some 3,
  record {
    node_num = 4;
    free_node_ids = 2 ∷ [];
    node_array =
        record { left_time = 12; arg = 2; callback = some 8 }
        ∷ (record { left_time = 15; arg = 1; callback = some 7 }
            ∷ (node_init ∷ (record { left_time = 16; arg = 3; callback = some 9 } ∷ [])));
    compositor_heap = 0 ∷ 1 ∷ 3 ∷ [];
  },
)
unfolding add take_id grow move_ids push_ids put
added_third = refl

run-new-IsValid_example :
    IsValid stack list_heap plain list_heap_laws (run stack list_heap fresh script) none
run-new-IsValid_example =
    run-new-IsValid stack list_heap plain list_heap_laws true 2 script new-fresh

two_timers-IsValid : IsValid stack list_heap plain list_heap_laws two_timers none
two_timers-IsValid =
    rw run-script at (run-new-IsValid stack list_heap plain list_heap_laws true 2 script new-fresh)

round_due_example :
    (id : ℕ) × (node : Node) × (get_elem? two_timers.node_array id ≡ some node)
    × (node.callback ≡ some 8)
    × (node.arg ≡ 2)
    × (node.left_time ≤ 13)
    × (node.left_time ≤ 15)
    × (pending stack list_heap plain list_heap_laws two_timers id
        ≡ pending stack list_heap plain list_heap_laws one_left id + 1)
round_due_example =
    round_due stack list_heap plain list_heap_laws 13 two_timers 8 2 1 two_timers-IsValid
      (omega arith) first_round

-- The callback deletes the timer 0.
abbrev deletes : ℕ → ℕ → List (Act stack list_heap)
deletes callback arg = del_timer 0 ∷ []

schedule_lem_example :
    (r : List (ℕ × ℕ) × TimerMgr stack list_heap) × (schedule stack list_heap deletes 3 13
        two_timers
      ≡ some r)
    × IsValid stack list_heap plain list_heap_laws r.1 none
    × ((pending stack list_heap plain list_heap_laws r.1 1 ≡ 0) ⊎ (13 < key_of r.1.node_array 1))
schedule_lem_example =
    schedule_lem stack list_heap plain list_heap_laws deletes 3 13 two_timers 1
      (λ callback arg. refl) two_timers-IsValid (omega arith)
