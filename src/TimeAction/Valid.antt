-- ===== src/TimeAction/Valid.antt =====
-- What holds of the timers in any execution: each id is free once or in the heap once, and the heap is
-- ordered by the times in the nodes.
use mathlib.Core.Option.{some-injective}
use netxy.Base.{
  ℕ, zero, suc, ◌+◌, ◌-◌, ◌≤◌, ◌<◌, ◌≡◌, refl, sym, ap, ◌∙◌, Bool, true, false, Option, none, some,
  List, [], ◌∷◌, ◌++◌, arith, ltb, ◌==◌, length, get_elem?, set, length-set, replicate,
  length-append, length-replicate, count, if◌then◌else◌, Option-cases, Bool-cases, inl, inr,
}
use netxy.Stack.{StackOps, IsStack}
use netxy.Heap.{HeapOps, IsHeap}
use netxy.TimeAction.{
  Node, node_init, key_of, TimerMgr, move_ids, new, grow, put, take_id, del, release,
}
use netxy.TimeAction.Ids.{is_id, free_count, push_free, pop_free, push_ids_lem, move_ids_lem}

key_of-set :
    (nodes : List Node) (i : ℕ) (v : Node) (id : ℕ)
    → (id == i) ≡ false
    → key_of (set nodes i v) id ≡ key_of nodes id
key_of-set [] i v id e = refl
key_of-set (n ∷ nodes) zero v zero e = cc
key_of-set (n ∷ nodes) zero v (suc id) e = refl
key_of-set (n ∷ nodes) (suc i) v zero e = refl
key_of-set (n ∷ nodes) (suc i) v (suc id) e = key_of-set nodes i v id (ground (arith, e))

key_of-grow :
    (nodes more : List Node) (id : ℕ)
    → id < length nodes
    → key_of (nodes ++ more) id ≡ key_of nodes id
key_of-grow [] more id below = absurd (omega arith)
key_of-grow (n ∷ nodes) more zero below = refl
key_of-grow (n ∷ nodes) more (suc id) below = key_of-grow nodes more id (omega arith)

key_of-same :
    (nodes : List Node) (i : ℕ) (v : Node) {node : Node} (id : ℕ)
    → get_elem? nodes i ≡ some node
    → v.left_time ≡ node.left_time
    → key_of (set nodes i v) id ≡ key_of nodes id
key_of-same [] i v id e same = refl
key_of-same (n ∷ nodes) zero v zero e same =
    same ∙ sym (ap (λ t. t.left_time) (some-injective _ _ e))
key_of-same (n ∷ nodes) zero v (suc id) e same = refl
key_of-same (n ∷ nodes) (suc i) v zero e same = refl
key_of-same (n ∷ nodes) (suc i) v (suc id) e same = key_of-same nodes i v id e same

module _ (s : StackOps ℕ) (h : HeapOps) (l : IsStack s) (o : IsHeap h) where
  abbrev pub pending : TimerMgr s h → ℕ → ℕ
  pending m id = count id (o.items m.compositor_heap)

  -- The ids that are not pending, one that a caller holds, are free.
  pub record IsValid (m : TimerMgr s h) (held : Option ℕ) : Type 0 where
    pub ids :
        (id : ℕ)
        → pending m id + free_count s h l id m.free_node_ids + is_id held id
          ≡ (if ltb id m.node_num then 1 else 0)
    pub nodes : length m.node_array ≡ m.node_num
    pub ordered : o.Ordered (key_of m.node_array) m.compositor_heap

  pub new-IsValid :
      (got : Bool) (num : ℕ) {m : TimerMgr s h} → new s h got num ≡ some m → IsValid m none
  unfolding new
  new-IsValid false num e = cc
  new-IsValid true num e = rw (← some-injective _ _ e) record {
    ids = λ id. ground (
      arith,
      ap (count id) (o.create_items num),
      push_ids_lem s h l 0 num id (s.create num),
      ap (count id) (l.create_lem num),
    );
    nodes = length-replicate num node_init;
    ordered = o.create_ordered (key_of (replicate num node_init)) num;
  }

  pub take_id-IsValid :
      (m : TimerMgr s h) → IsValid m none → IsValid (take_id s h m).1 (take_id s h m).0
  unfolding take_id
  take_id-IsValid m v = record {
    ids = λ id. omega (arith, v.ids id, pop_free s h l m.free_node_ids id);
    nodes = v.nodes;
    ordered = v.ordered;
  }

  pub grow-IsValid :
      (got_heap got : Bool) (m : TimerMgr s h) (num : ℕ)
      → m.node_num ≤ num
      → IsValid m none
      → IsValid (grow s h got_heap got m num) none
  unfolding grow
  grow-IsValid false got m num more v = v
  grow-IsValid true false m num more v = record {
    ids = λ id. omega (arith, v.ids id, ap (count id) (o.increase_items m.compositor_heap num));
    nodes = v.nodes;
    ordered = o.increase_ordered (key_of m.node_array) m.compositor_heap num v.ordered;
  }
  grow-IsValid true true m num more v = record {
    ids = λ id. ground (
      arith,
      v.ids id,
      ap (count id) (o.increase_items m.compositor_heap num),
      push_ids_lem s h l m.node_num (num - m.node_num) id
          (move_ids s h (s.num m.free_node_ids + 1) m.free_node_ids (s.create num)),
      move_ids_lem s h l (s.num m.free_node_ids + 1) id m.free_node_ids (s.create num)
          (omega (arith, l.num_lem m.free_node_ids)),
      ap (count id) (l.create_lem num),
    );
    nodes = omega (
      arith,
      length-append m.node_array (replicate (num - m.node_num) node_init),
      length-replicate (num - m.node_num) node_init,
      v.nodes,
    );
    ordered = o.increase_ordered _ m.compositor_heap num (
        o.same_keys (key_of m.node_array) _ m.compositor_heap
          (λ j here. sym (
            key_of-grow m.node_array (replicate (num - m.node_num) node_init) j
              (ground (arith, here, v.ids j, v.nodes))))
          v.ordered);
  }

  pub put-IsValid :
      (m : TimerMgr s h) (id : ℕ) (node : Node)
      → IsValid m (some id)
      → IsValid (put s h m id node) none
  unfolding put
  put-IsValid m id node v = record {
    ids = λ k.
        omega (
          arith,
          v.ids k,
          o.insert_count (key_of (set m.node_array id node)) m.compositor_heap id k,
        );
    nodes = length-set m.node_array id node ∙ v.nodes;
    ordered = o.insert_ordered _ m.compositor_heap id (
        o.same_keys (key_of m.node_array) _ m.compositor_heap
          (λ j here. sym (key_of-set m.node_array id node j (ground (arith, here, v.ids j))))
          v.ordered);
  }

  pub del-IsValid : (m : TimerMgr s h) (id : ℕ) → IsValid m none → IsValid (del s h m id) none
  unfolding del
  del-IsValid m id v = elim (Bool-cases (ltb id m.node_num)) [
    | inr outside ↦ rw (outside, del) v
    | inl inside ↦ elim (Option-cases (get_elem? m.node_array id)) [
      | inl e ↦ rw (inside, e, del) v
      | inr (node, e) ↦
          rw (inside, e, del)
            record {
              ids = v.ids;
              nodes = length-set m.node_array id _ ∙ v.nodes;
              ordered =
                  o.same_keys (key_of m.node_array) _ m.compositor_heap
                    (λ j here.
                      sym (key_of-same m.node_array id (record node { callback = none }) j e refl))
                    v.ordered;
            }
    ]
  ]

  pub release-IsValid :
      (m : TimerMgr s h) (id : ℕ)
      → h.top m.compositor_heap ≡ some id
      → IsValid m none
      → IsValid (release s h m id) none
  unfolding release
  release-IsValid m id top v = record {
    ids = λ k. omega (
      arith,
      v.ids k,
      o.pop_count (key_of m.node_array) m.compositor_heap id k top,
      push_free s h l m.free_node_ids id k,
    );
    nodes = v.nodes;
    ordered = o.pop_ordered (key_of m.node_array) m.compositor_heap v.ordered;
  }
