-- ===== src/TypePool/Made.antt =====
-- The blocks that a pool's nodes were made with, free or not: no operation but an increase changes
-- them, and each is one place of one node.
use mathlib.Core.Option.{some-injective}
use netxy.Base.{
  ℕ, zero, suc, ◌+◌, ◌≤◌, ◌<◌, ◌≡◌, refl, sym, ap, ◌∙◌, false, ◌&&◌, some, List, [], ◌∷◌, ◌++◌,
  arith, ◌==◌, leb, ltb, Bool-cases, length, get_elem?, set, total, if◌then◌else◌, Option-cases,
  inl, inr,
}
use netxy.Stack.{StackOps}
use netxy.TypePool.{Block, Node, TypePool, pop_at, scan, claim_first, claim_help}
use netxy.TypePool.Blocks.{blocks_from}

module _ (s : StackOps Block) where
  -- the weight of the blocks of the nodes from place `k` on
  abbrev pub made : (Block → ℕ) → ℕ → List (Node s) → ℕ
  made weight k [] = 0
  made weight k (node ∷ nodes) = total weight (blocks_from k node.num 0) + made weight (k + 1) nodes

  module _ (weight : Block → ℕ) where
    pub made-append :
        (k : ℕ) (nodes : List (Node s)) (node : Node s)
        → made weight k (nodes ++ (node ∷ []))
          ≡ made weight k nodes + total weight (blocks_from (k + length nodes) node.num 0)
    made-append k [] node = rw add_zero (omega arith)
      where
        add_zero : k + 0 ≡ k
        add_zero = omega arith
    made-append k (n ∷ nodes) node = rw (← add_suc) (omega (arith, made-append (k + 1) nodes node))
      where
        add_suc : k + 1 + length nodes ≡ k + suc (length nodes)
        add_suc = omega arith

    pub made-set :
        (k : ℕ) (nodes : List (Node s)) (i : ℕ) {node : Node s} (free : s.Carrier)
        → get_elem? nodes i ≡ some node
        → made weight k (set nodes i (record node { free = free })) ≡ made weight k nodes
    made-set k [] i free e = refl
    made-set k (n ∷ nodes) zero free e =
        ap (λ t. total weight (blocks_from k t 0) + made weight (k + 1) nodes)
          (sym (ap (λ t. t.num) (some-injective _ _ e)))
    made-set k (n ∷ nodes) (suc i) free e = omega (arith, made-set (k + 1) nodes i free e)

    pop_at-made :
        (k : ℕ) (nodes : List (Node s)) (n : ℕ)
        → made weight k (pop_at s nodes n).1 ≡ made weight k nodes
    unfolding pop_at
    pop_at-made k [] n = refl
    pop_at-made k (node ∷ nodes) zero = refl
    pop_at-made k (node ∷ nodes) (suc n) = omega (arith, pop_at-made (k + 1) nodes n)

    scan-made :
        (k j : ℕ) (nodes : List (Node s)) → made weight k (scan s j nodes).1 ≡ made weight k nodes
    unfolding scan
    scan-made k j [] = refl
    scan-made k j (node ∷ nodes) = elim (Option-cases (s.pop_back node.free).0) [
      | inl e ↦ rw (e, scan) (omega (arith, scan-made (k + 1) (j + 1) nodes))
      | inr (b, e) ↦ rw (e, scan) refl
    ]

    claim_first-made : (p : TypePool s) → made weight 0 (claim_first s p).1 ≡ made weight 0 p.nodes
    unfolding claim_first
    claim_first-made p = elim (Option-cases p.free_node) [
      | inl e ↦ rw (e, claim_first) refl
      | inr (n, e) ↦ rw (e, claim_first) (pop_at-made 0 p.nodes n)
    ]

    pub claim_help-made :
        (p : TypePool s) → made weight 0 (claim_help s p).1.nodes ≡ made weight 0 p.nodes
    unfolding claim_help
    claim_help-made p =
        let first = claim_first s p in
        let whole = scan-made 0 0 first.1 ∙ claim_first-made p in
        elim (Option-cases first.0) [
          | inl e ↦ elim (Option-cases (scan s 0 first.1).0) [
            | inl e2 ↦ rw (e, e2, claim_help) whole
            | inr (b, e2) ↦ rw (e, e2, claim_help) whole
          ]
          | inr (b, e) ↦ rw (e, claim_help) (claim_first-made p)
        ]

-- 1 for a block, 0 for every other
abbrev pub this : Block → Block → ℕ
this b c = if (b.0 == c.0) && (b.1 == c.1) then 1 else 0

-- 1 for the blocks of the nodes behind a place
abbrev pub behind : ℕ → Block → ℕ
behind n c = if leb n c.0 then 1 else 0

this_other_node :
    (b : Block) (node rounds i : ℕ)
    → (b.0 == node) ≡ false
    → total (this b) (blocks_from node rounds i) ≡ 0
this_other_node b node zero i h = refl
this_other_node b node (suc rounds) i h =
    rw h (omega (arith, this_other_node b node rounds (i + 1) h))

this_before :
    (b : Block) (node rounds i : ℕ) → b.1 < i → total (this b) (blocks_from node rounds i) ≡ 0
this_before b node zero i h = refl
this_before b node (suc rounds) i h =
    ground (arith, this_before b node rounds (i + 1) (omega arith))

this_once : (b : Block) (node rounds i : ℕ) → total (this b) (blocks_from node rounds i) ≤ 1
this_once b node zero i = omega arith
this_once b node (suc rounds) i = elim (Bool-cases (ltb b.1 (i + 1))) [
  | inl e ↦ ground (arith, this_before b node rounds (i + 1) (ground (arith, e)))
  | inr e ↦ ground (arith, e, this_once b node rounds (i + 1))
]

module _ (s : StackOps Block) where
  made_elsewhere :
      (b : Block) (k : ℕ) (nodes : List (Node s)) → b.0 < k → made s (this b) k nodes ≡ 0
  made_elsewhere b k [] h = refl
  made_elsewhere b k (node ∷ nodes) h = omega (
    arith,
    this_other_node b k node.num 0 (ground arith),
    made_elsewhere b (k + 1) nodes (omega arith),
  )

  -- A block is made at most once.
  pub made_once : (b : Block) (k : ℕ) (nodes : List (Node s)) → made s (this b) k nodes ≤ 1
  made_once b k [] = omega arith
  made_once b k (node ∷ nodes) = elim (Bool-cases (b.0 == k)) [
    | inl e ↦
        omega (arith, this_once b k node.num 0, made_elsewhere b (k + 1) nodes (ground (arith, e)))
    | inr e ↦ omega (arith, this_other_node b k node.num 0 e, made_once b (k + 1) nodes)
  ]

  -- No block names a node that is not there.
  pub made_within :
      (n k : ℕ) (nodes : List (Node s)) → k + length nodes ≤ n → made s (behind n) k nodes ≡ 0
  made_within n k [] h = refl
  made_within n k (node ∷ nodes) h =
      omega (arith, here n k node.num 0 (omega arith), made_within n (k + 1) nodes (omega arith))
    where
      here : (n k rounds i : ℕ) → k < n → total (behind n) (blocks_from k rounds i) ≡ 0
      here n k zero i h = refl
      here n k (suc rounds) i h = ground (arith, here n k rounds (i + 1) h)
