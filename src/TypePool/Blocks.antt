-- ===== src/TypePool/Blocks.antt =====
-- Which blocks a pool has free, counted by an arbitrary weight, and how each part of a claim changes
-- that. With the weight 1 at one block and 0 elsewhere it counts that block.
use mathlib.Core.Option.{some-injective}
use netxy.Base.{
  ℕ, zero, suc, ◌+◌, ◌≡◌, refl, sym, ap, ◌∙◌, Bool, true, false, none, some, List, [], ◌∷◌, arith,
  unsnoc, total, weight_of, total-append, total-unsnoc, Option-cases, inl, inr,
}
use netxy.Stack.{StackOps, IsStack}
use netxy.TypePool.{
  Block, Node, TypePool, push_blocks, node_new, pop_at, scan, claim_first, claim_help,
}

-- the `rounds` blocks of the node at place `node`, from block `i` on
abbrev pub blocks_from : ℕ → ℕ → ℕ → List Block
blocks_from node zero i = []
blocks_from node (suc rounds) i = (node, i) ∷ blocks_from node rounds (i + 1)

module _ (s : StackOps Block) (l : IsStack s) (weight : Block → ℕ) where
  abbrev pub node_weight : Node s → ℕ
  node_weight node = total weight (l.items node.free)

  abbrev pub free_weight : List (Node s) → ℕ
  free_weight nodes = total node_weight nodes

  push_blocks_lem :
      (node rounds i : ℕ) (c : s.Carrier)
      → total weight (l.items (push_blocks s node rounds i c))
        ≡ total weight (l.items c) + total weight (blocks_from node rounds i)
  unfolding push_blocks
  push_blocks_lem node zero i c = omega arith
  push_blocks_lem node (suc rounds) i c = omega (
    arith,
    push_blocks_lem node rounds (i + 1) (s.push c (node, i)).1,
    ap (λ xs. total weight xs) (l.push_lem c (node, i)),
    total-append weight (l.items c) ((node, i) ∷ []),
  )

  popped :
      (c : s.Carrier)
      → total weight (l.items c)
        ≡ weight_of weight (s.pop_back c).0 + total weight (l.items (s.pop_back c).1)
  popped c =
      total-unsnoc weight (l.items c)
      ∙ sym (ap (λ t. weight_of weight t.0 + total weight t.1) (l.pop_back_lem c))

  -- A fresh node has just its blocks free.
  pub node_new_weight :
      (node num : ℕ) (got : Bool) {new : Node s}
      → node_new s got node num ≡ some new
      → node_weight new ≡ total weight (blocks_from node num 0)
  unfolding node_new
  node_new_weight node num true e = omega (
    arith,
    push_blocks_lem node num 0 (s.create num),
    ap node_weight (some-injective _ _ e),
    ap (λ xs. total weight xs) (l.create_lem num),
  )
  node_new_weight node num false e = cc

  pub node_new_num :
      (node num : ℕ) (got : Bool) {new : Node s}
      → node_new s got node num ≡ some new
      → new.num ≡ num
  unfolding node_new
  node_new_num node num true e = sym (ap (λ t. t.num) (some-injective _ _ e))
  node_new_num node num false e = cc

  pop_at_weight :
      (nodes : List (Node s)) (n : ℕ)
      → free_weight nodes ≡ weight_of weight (pop_at s nodes n).0 + free_weight (pop_at s nodes n).1
  unfolding pop_at
  pop_at_weight [] n = refl
  pop_at_weight (node ∷ nodes) zero = omega (arith, popped node.free)
  pop_at_weight (node ∷ nodes) (suc n) = omega (arith, pop_at_weight nodes n)

  scan_weight :
      (k : ℕ) (nodes : List (Node s))
      → free_weight nodes ≡ weight_of weight (scan s k nodes).0 + free_weight (scan s k nodes).1
  unfolding scan
  scan_weight k [] = refl
  scan_weight k (node ∷ nodes) = elim (Option-cases (s.pop_back node.free).0) [
    | inl e ↦
        rw (e, scan)
          (omega (arith, popped node.free, ap (weight_of weight) e, scan_weight (k + 1) nodes))
    | inr (b, e) ↦ rw (e, scan) (omega (arith, popped node.free, ap (weight_of weight) e))
  ]

  claim_first_weight :
      (p : TypePool s)
      → free_weight p.nodes ≡ weight_of weight (claim_first s p).0 + free_weight (claim_first s p).1
  unfolding claim_first
  claim_first_weight p = elim (Option-cases p.free_node) [
    | inl e ↦ rw (e, claim_first) (omega arith)
    | inr (n, e) ↦ rw (e, claim_first) (pop_at_weight p.nodes n)
  ]

  -- `type_pool_claim_help` takes the block that it returns, and no other, from the free ones.
  pub claim_help_weight :
      (p : TypePool s)
      → free_weight p.nodes
        ≡ weight_of weight (claim_help s p).0 + free_weight (claim_help s p).1.nodes
  unfolding claim_help
  claim_help_weight p =
      let first = claim_first s p in
      elim (Option-cases first.0) [
        | inl e ↦ elim (Option-cases (scan s 0 first.1).0) [
          | inl e2 ↦
              rw (e, e2, claim_help)
                (omega (
                  arith,
                  claim_first_weight p,
                  scan_weight 0 first.1,
                  ap (weight_of weight) e,
                  ap (weight_of weight) e2,
                ))
          | inr (b, e2) ↦
              rw (e, e2, claim_help)
                (omega (
                  arith,
                  claim_first_weight p,
                  scan_weight 0 first.1,
                  ap (weight_of weight) e,
                  ap (weight_of weight) e2,
                ))
        ]
        | inr (b, e) ↦
            rw (e, claim_help) (omega (arith, claim_first_weight p, ap (weight_of weight) e))
      ]

  popped_none : (c : s.Carrier) → (s.pop_back c).0 ≡ none → total weight (l.items c) ≡ 0
  popped_none c e = empty (l.items c) (sym (ap (λ t. t.0) (l.pop_back_lem c)) ∙ e)
    where
      empty : (xs : List Block) → (unsnoc xs).0 ≡ none → total weight xs ≡ 0
      empty [] e = refl
      empty (x ∷ []) e = cc
      empty (x ∷ (y ∷ xs)) e = absurd (never y xs e)
        where
          never : (y : Block) (xs : List Block) → (unsnoc (y ∷ xs)).0 ≡ none → ⊥
          never y [] e = cc
          never y (z ∷ xs) e = never z xs e

  scan-none : (k : ℕ) (nodes : List (Node s)) → (scan s k nodes).0 ≡ none → free_weight nodes ≡ 0
  unfolding scan
  scan-none k [] h = refl
  scan-none k (node ∷ nodes) h = elim (Option-cases (s.pop_back node.free).0) [
    | inl e ↦ omega (arith, popped_none node.free e, scan-none (k + 1) nodes (rw (e, scan) at h))
    | inr (b, e) ↦ cc (rw (e, scan) at h)
  ]

  -- It fails only if no block of the pool is free.
  pub claim_help-none : (p : TypePool s) → (claim_help s p).0 ≡ none → free_weight p.nodes ≡ 0
  unfolding claim_help
  claim_help-none p h =
      let first = claim_first s p in
      elim (Option-cases first.0) [
        | inl e ↦ elim (Option-cases (scan s 0 first.1).0) [
          | inl e2 ↦
              omega (arith, claim_first_weight p, scan-none 0 first.1 e2, ap (weight_of weight) e)
          | inr (b, e2) ↦ cc (rw (e, e2, claim_help) at h)
        ]
        | inr (b, e) ↦ cc (rw (e, claim_help) at h)
      ]
