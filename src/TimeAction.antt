-- ===== src/TimeAction.antt =====
-- src/utils/timeaction.c: timers, kept in an array of nodes whose ids are free, or in a heap ordered by
-- time. The stack and the heap are those of `Stack` and `Heap`; `malloc` and the clock are arguments. Times
-- are not negative, and a delay does not reach back behind the clock's zero. A callback and its argument
-- are numbers, 0 for a NULL argument.

pub mod Ids
pub mod Valid
pub mod Timers
pub mod Rounds
mod Tests
use netxy.Base.{
  ℕ, zero, suc, ◌+◌, ◌-◌, ◌*◌, Bool, true, false, Option, none, some, List, [], ◌∷◌, ◌++◌, ltb,
  length, get_elem?, set, replicate, if◌then◌else◌,
}
use netxy.Stack.{StackOps}
use netxy.Heap.{HeapOps}

-- `struct timeaction_node_s`, whose `index` is its place
pub record Node : Type 0 where
  pub left_time : ℕ
  pub arg : ℕ
  pub callback : Option ℕ

-- `timeaction_node_init`
abbrev pub node_init : Node
node_init = record { left_time = 0; arg = 0; callback = none }

-- what `compare_timer` compares
abbrev pub key_of : List Node → ℕ → ℕ
key_of nodes id = elim (get_elem? nodes id) [ none ↦ 0 | some node ↦ node.left_time ]

-- the `delay` of `ox_timer_mgr_add`: positive, or not
pub data Delay : Type 0 where
  forward : ℕ → Delay
  back : ℕ → Delay

abbrev pub due : ℕ → Delay → ℕ
due now (forward d) = d + now
due now (back d) = now - d

module _ (s : StackOps ℕ) (h : HeapOps) where
  -- `struct timer_mgr_s`
  pub record TimerMgr : Type 0 where
    pub node_num : ℕ
    pub free_node_ids : s.Carrier
    pub node_array : List Node
    pub compositor_heap : h.Carrier

  -- the loop of `timeaction_mgr_init` that pushes the new ids from `i` on
  pub push_ids : ℕ → ℕ → s.Carrier → s.Carrier
  push_ids i zero free = free
  push_ids i (suc rounds) free = push_ids (i + 1) rounds (s.push free i).1

  -- its loop that moves the old free ids
  pub move_ids : ℕ → s.Carrier → s.Carrier → s.Carrier
  move_ids zero old free = free
  move_ids (suc rounds) old free =
      let (out, rest) = s.pop_back old in
      elim out [ none ↦ free | some i ↦ move_ids rounds rest (s.push free i).1 ]

  -- `ox_timer_mgr_new`: `timeaction_mgr_init` on an empty struct
  pub new : Bool → ℕ → Option TimerMgr
  new got num =
      if got
      then some (record {
        node_num = num;
        free_node_ids = push_ids 0 num (s.create num);
        node_array = replicate num node_init;
        compositor_heap = h.create num;
      })
      else none

  -- `timeaction_mgr_init` on a used struct, for `num` nodes or more than it has
  pub grow : Bool → Bool → TimerMgr → ℕ → TimerMgr
  grow got_heap got m num =
      let moved = move_ids (s.num m.free_node_ids + 1) m.free_node_ids (s.create num) in
      if got_heap
      then if got
        then record {
          node_num = num;
          free_node_ids = push_ids m.node_num (num - m.node_num) moved;
          node_array = m.node_array ++ replicate (num - m.node_num) node_init;
          compositor_heap = h.increase m.compositor_heap num;
        }
        else record m { compositor_heap = h.increase m.compositor_heap num }
      else m

  -- the part of `ox_timer_mgr_add` behind a free id
  pub put : TimerMgr → ℕ → Node → TimerMgr
  put m id node =
      let nodes = set m.node_array id node in
      record m {
        node_array = nodes;
        compositor_heap = h.insert (key_of nodes) m.compositor_heap id;
      }

  -- the `ox_stack_popback` that takes a free id
  pub take_id : TimerMgr → Option ℕ × TimerMgr
  take_id m =
      let (out, rest) = s.pop_back m.free_node_ids in (out, record m { free_node_ids = rest })

  -- `ox_timer_mgr_add`; `none` is ERROR_COMPOSITOR_INDEX
  pub add : Bool → Bool → ℕ → TimerMgr → Option ℕ → Delay → ℕ → Option ℕ × TimerMgr
  add got_heap got now m none delay arg = (none, m)
  add got_heap got now m (some callback) delay arg =
      let node : Node = record { left_time = due now delay; arg = arg; callback = some callback } in
      let (first, rest) = take_id m in
      let (second, more) = take_id (grow got_heap got rest (2 * rest.node_num)) in
      elim first [
        | some id ↦ (some id, put rest id node)
        | none ↦ elim second [ none ↦ (none, more) | some id ↦ (some id, put more id node) ]
      ]

  -- `ox_timer_mgr_del`
  pub del : TimerMgr → ℕ → TimerMgr
  del m id =
      if ltb id m.node_num
      then elim (get_elem? m.node_array id) [
        | none ↦ m
        | some node ↦ record m {
          node_array = set m.node_array id (record node { callback = none });
        }
      ]
      else m

  -- the top is taken out of the heap, and its id is free again
  pub release : TimerMgr → ℕ → TimerMgr
  release m id = record m {
    compositor_heap = h.pop (key_of m.node_array) m.compositor_heap;
    free_node_ids = (s.push m.free_node_ids id).1;
  }

  -- one round of the loop of `ox_timer_mgr_schedule`, with the callback and the argument that it calls;
  -- `none` leaves the loop
  pub round : ℕ → TimerMgr → Option (Option (ℕ × ℕ) × TimerMgr)
  round now m = elim (h.top m.compositor_heap) [
    | none ↦ none
    | some id ↦ elim (get_elem? m.node_array id) [
      | none ↦ none
      | some node ↦ elim node.callback [
        | none ↦ some (none, release m id)
        | some callback ↦
            if ltb now node.left_time then none else some (some (callback, node.arg), release m id)
      ]
    ]
  ]

  -- what happens to the timers: the calls of the clients and of the callbacks, and the rounds
  pub data Act : Type 0 where
    add_timer : Bool → Bool → ℕ → Option ℕ → Delay → ℕ → Act
    del_timer : ℕ → Act
    next_round : ℕ → Act

  pub step : TimerMgr → Act → TimerMgr
  step m (add_timer got_heap got now callback delay arg) =
      (add got_heap got now m callback delay arg).1
  step m (del_timer id) = del m id
  step m (next_round now) = elim (round now m) [ none ↦ m | some r ↦ r.1 ]

  pub run : TimerMgr → List Act → TimerMgr
  run m [] = m
  run m (a ∷ acts) = run (step m a) acts

  -- `ox_timer_mgr_schedule`, at the time that it reads first: what it calls, in order. `acts` is what a
  -- callback does with its argument, before the next round.
  pub schedule : (ℕ → ℕ → List Act) → ℕ → ℕ → TimerMgr → Option (List (ℕ × ℕ) × TimerMgr)
  schedule acts zero now m = none
  schedule acts (suc fuel) now m = elim (round now m) [
    | none ↦ some ([], m)
    | some (out, rest) ↦ elim out [
      | none ↦ schedule acts fuel now rest
      | some (callback, arg) ↦ elim (schedule acts fuel now (run rest (acts callback arg))) [
        | none ↦ none
        | some (calls, last) ↦ some ((callback, arg) ∷ calls, last)
      ]
    ]
  ]
