-- ===== src/TypePool.antt =====
-- src/utils/typepool.c: a pool of equal blocks, kept in nodes. A node is its place in the chain of
-- nodes, which grows at the end only; a block is its node and its place there, so the node pointer in
-- a block's header is the first component. The stacks of free blocks are those of `Stack`. Whether
-- `malloc` succeeds is an argument.
pub mod Blocks
pub mod Made
pub mod Claims
pub mod Growth
mod Tests
use netxy.Base.{
  ℕ, zero, suc, ◌+◌, ◌-◌, Bool, true, false, Option, none, some, List, [], ◌∷◌, ◌++◌, ltb, length,
  get_elem?, set, is_some, if◌then◌else◌,
}
use netxy.Stack.{StackOps}

abbrev pub Block : Type 0
Block = ℕ × ℕ

module _ (s : StackOps Block) where
  -- `struct type_pool_node_s`: how many blocks its array has, and those that are free
  pub record Node : Type 0 where
    pub num : ℕ
    pub free : s.Carrier

  -- `struct type_pool_s`; `none` is a NULL `free_node`
  pub record TypePool : Type 0 where
    pub base_num : ℕ
    pub nodes : List Node
    pub free_node : Option ℕ
    pub nodenum : ℕ

  -- the loop of `type_pool_node_new`, with `rounds` blocks to push from block `i` on
  unfoldable pub push_blocks : ℕ → ℕ → ℕ → s.Carrier → s.Carrier
  push_blocks node zero i free = free
  push_blocks node (suc rounds) i free = push_blocks node rounds (i + 1) (s.push free (node, i)).1

  -- `type_pool_node_new`, for the node at place `node`
  unfoldable pub node_new : Bool → ℕ → ℕ → Option Node
  node_new got node num =
      if got
      then some (record { num = num; free = push_blocks node num 0 (s.create num) })
      else none

  -- `ox_type_pool_new`
  unfoldable pub new : Bool → ℕ → Option TypePool
  new got num = elim (node_new got 0 num) [
    | none ↦ none
    | some node ↦
        some (record { base_num = num; nodes = node ∷ []; free_node = some 0; nodenum = 1 })
  ]

  -- `ox_type_pool_increase`
  pub increase : Bool → TypePool → ℕ → TypePool
  increase got p increase_num = elim (node_new got (length p.nodes) increase_num) [
    | none ↦ p
    | some node ↦ record p { nodes = p.nodes ++ (node ∷ []); free_node = some (length p.nodes) }
  ]

  -- `ox_stack_popback` on the stack of the node at a place
  unfoldable pub pop_at : List Node → ℕ → Option Block × List Node
  pop_at [] n = (none, [])
  pop_at (node ∷ nodes) zero =
      let (out, rest) = s.pop_back node.free in (out, record node { free = rest } ∷ nodes)
  pop_at (node ∷ nodes) (suc n) = let (out, rest) = pop_at nodes n in (out, node ∷ rest)

  -- the loop of `type_pool_claim_help` over the nodes from place `k` on: the block found, the nodes,
  -- and the place behind the last node tried
  unfoldable pub scan : ℕ → List Node → Option Block × List Node × ℕ
  scan k [] = (none, [], k)
  scan k (node ∷ nodes) =
      let (out, rest) = s.pop_back node.free in
      let later = scan (k + 1) nodes in
      elim out [
        | some b ↦ (some b, record node { free = rest } ∷ nodes, k + 1)
        | none ↦ (later.0, record node { free = rest } ∷ later.1, later.2)
      ]

  -- its first test, at `free_node`
  unfoldable pub claim_first : TypePool → Option Block × List Node
  claim_first p = elim p.free_node [ none ↦ (none, p.nodes) | some n ↦ pop_at p.nodes n ]

  -- `type_pool_claim_help`
  unfoldable pub claim_help : TypePool → Option Block × TypePool
  claim_help p =
      let (first, nodes) = claim_first p in
      let (found, rest, k) = scan 0 nodes in
      elim first [
        | some b ↦ (some b, record p { nodes = nodes })
        | none ↦ elim found [
          | none ↦ (none, record p { nodes = rest })
          | some b ↦ (
            some b,
            record p { nodes = rest; free_node = if ltb k (length rest) then some k else none },
          )
        ]
      ]

  -- `ox_type_pool_claim`
  unfoldable pub claim : Bool → TypePool → Option Block × TypePool
  claim got p =
      let (first, q) = claim_help p in
      let grown = increase got q q.base_num in
      elim first [
        | some b ↦ (some b, q)
        | none ↦ claim_help (record grown { nodenum = grown.nodenum + 1 })
      ]

  -- `ox_type_pool_reclaim`: the block goes back to the node that its header names.
  pub reclaim : TypePool → Block → TypePool
  reclaim p b = elim (get_elem? p.nodes b.0) [
    | none ↦ p
    | some node ↦ record p {
      nodes = set p.nodes b.0 (record node { free = (s.push node.free b).1 });
      free_node = some b.0;
    }
  ]
