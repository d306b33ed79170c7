-- ===== src/TypePool/Claims.antt =====
-- The clients of a type pool: what they have claimed, and what the pool promises them. A client gives
-- back a block that it has claimed; giving back anything else has no meaning here.
use mathlib.Core.Option.{some-injective}
use netxy.Base.{
  ℕ, ◌+◌, ◌≤◌, ◌<◌, ◌≡◌, refl, ap, Bool, Option, none, some, List, [], ◌∷◌, arith, length,
  get_elem?, remove, total, weight_of, total-set, total-append, total-remove, get_elem?-behind,
  Option-cases, inl, inr, none≢some,
}
use netxy.Stack.{StackOps, IsStack}
use netxy.TypePool.{Block, Node, TypePool, node_new, new, increase, claim_help, claim, reclaim}
use netxy.TypePool.Blocks.{
  blocks_from, node_weight, free_weight, node_new_weight, claim_help_weight, node_new_num,
}
use netxy.TypePool.Made.{
  made, made-append, made-set, claim_help-made, this, behind, made_once, made_within,
}

module _ (s : StackOps Block) where
  pub record World : Type 0 where
    pub pool : TypePool s
    pub claimed : List Block

  -- `take` and `enlarge` say whether `malloc` succeeds; `give_back` names its place in `claimed`.
  pub data Act : Type 0 where
    take : Bool → Act
    give_back : ℕ → Act
    enlarge : Bool → ℕ → Act

  unfoldable pub step : World → Act → Option World
  step w (take got) =
      let (out, pool) = claim s got w.pool in
      elim out [
        | none ↦ some (record w { pool = pool })
        | some b ↦ some (record { pool = pool; claimed = b ∷ w.claimed })
      ]
  step w (give_back i) = elim (get_elem? w.claimed i) [
    | none ↦ none
    | some b ↦ some (record { pool = reclaim s w.pool b; claimed = remove w.claimed i })
  ]
  step w (enlarge got num) = some (record w { pool = increase s got w.pool num })

  unfoldable pub run : World → List Act → Option World
  run w [] = some w
  run w (a ∷ acts) = elim (step w a) [ none ↦ none | some v ↦ run v acts ]

module _ (s : StackOps Block) (l : IsStack s) where
  -- By any weight, the claimed blocks and the free ones together are those made.
  abbrev Conserves : World s → Type 0
  Conserves w =
      (weight : Block → ℕ)
      → total weight w.claimed + free_weight s l weight w.pool.nodes ≡ made s weight 0 w.pool.nodes

  module _ (weight : Block → ℕ) where
    increase_weight :
        (got : Bool) (p : TypePool s) (num : ℕ)
        → free_weight s l weight (increase s got p num).nodes + made s weight 0 p.nodes
          ≡ free_weight s l weight p.nodes + made s weight 0 (increase s got p num).nodes
    unfolding increase
    increase_weight got p num =
        let zero_add : 0 + length p.nodes ≡ length p.nodes = omega arith in
        elim (Option-cases (node_new s got (length p.nodes) num)) [
          | inl e ↦ rw (e, increase) refl
          | inr (node, e) ↦
              rw (e, increase)
                (omega (
                  arith,
                  total-append (node_weight s l weight) p.nodes (node ∷ []),
                  made-append s weight 0 p.nodes node,
                  node_new_weight s l weight (length p.nodes) num got e,
                  ap (λ k. total weight (blocks_from k node.num 0)) zero_add,
                  ap (λ n. total weight (blocks_from (length p.nodes) n 0))
                      (node_new_num s l weight (length p.nodes) num got e),
                ))
        ]

    claim_weight :
        (got : Bool) (p : TypePool s)
        → weight_of weight (claim s got p).0
            + free_weight s l weight (claim s got p).1.nodes
            + made s weight 0 p.nodes
          ≡ free_weight s l weight p.nodes + made s weight 0 (claim s got p).1.nodes
    unfolding claim
    claim_weight got p =
        let q = (claim_help s p).1 in
        let grown = increase s got q q.base_num in
        let again = record grown { nodenum = grown.nodenum + 1 } in
        elim (Option-cases (claim_help s p).0) [
          | inl e ↦
              rw (e, claim)
                (omega (
                  arith,
                  claim_help_weight s l weight p,
                  ap (weight_of weight) e,
                  claim_help-made s weight p,
                  increase_weight got q q.base_num,
                  claim_help_weight s l weight again,
                  claim_help-made s weight again,
                ))
          | inr (b, e) ↦
              rw (e, claim)
                (omega (
                  arith,
                  claim_help_weight s l weight p,
                  ap (weight_of weight) e,
                  claim_help-made s weight p,
                ))
        ]

    reclaim_weight :
        (p : TypePool s) (b : Block) {node : Node s}
        → get_elem? p.nodes b.0 ≡ some node
        → (free_weight s l weight (reclaim s p b).nodes ≡ weight b + free_weight s l weight p.nodes)
          × (made s weight 0 (reclaim s p b).nodes ≡ made s weight 0 p.nodes)
    unfolding reclaim
    reclaim_weight p b {node} e =
        rw (e, reclaim)
          (
            omega (
              arith,
              total-set (node_weight s l weight) p.nodes b.0
                  (record node { free = (s.push node.free b).1 }) e,
              ap (total weight) (l.push_lem node.free b),
              total-append weight (l.items node.free) (b ∷ []),
            ),
            made-set s weight 0 p.nodes b.0 (s.push node.free b).1 e,
          )

  -- A claimed block names a node that is there.
  claimed_within :
      (w : World s)
      → Conserves w
      → (i : ℕ) {b : Block} → get_elem? w.claimed i ≡ some b
      → b.0 < length w.pool.nodes
  claimed_within w v i {b} e = ground (
    arith,
    v (behind (length w.pool.nodes)),
    made_within s (length w.pool.nodes) 0 w.pool.nodes (omega arith),
    total-remove (behind (length w.pool.nodes)) w.claimed i e,
  )

  step-Conserves :
      (w : World s) (a : Act s) {v : World s} → step s w a ≡ some v → Conserves w → Conserves v
  unfolding step
  step-Conserves w (take got) h c weight = elim (Option-cases (claim s got w.pool).0) [
    | inl e ↦
        rw (← some-injective _ _ (rw (e, step) at h))
          (omega (arith, c weight, claim_weight weight got w.pool, ap (weight_of weight) e))
    | inr (b, e) ↦
        rw (← some-injective _ _ (rw (e, step) at h))
          (omega (arith, c weight, claim_weight weight got w.pool, ap (weight_of weight) e))
  ]
  step-Conserves w (give_back i) h c weight = elim (Option-cases (get_elem? w.claimed i)) [
    | inl e ↦ absurd (none≢some (rw (e, step) at h))
    | inr (b, e) ↦ elim (Option-cases (get_elem? w.pool.nodes b.0)) [
      | inl e2 ↦
          absurd (omega (arith, claimed_within w c i e, get_elem?-behind w.pool.nodes b.0 e2))
      | inr (node, e2) ↦
          let (free, all) = reclaim_weight weight w.pool b e2 in
          rw (← some-injective _ _ (rw (e, step) at h))
            (omega (arith, c weight, free, all, total-remove weight w.claimed i e))
    ]
  ]
  step-Conserves w (enlarge got num) h c weight =
      rw (← some-injective _ _ h) (omega (arith, c weight, increase_weight weight got w.pool num))

  run-Conserves :
      (w : World s) (acts : List (Act s)) {v : World s}
      → run s w acts ≡ some v
      → Conserves w
      → Conserves v
  unfolding run
  run-Conserves w [] h c = rw (← some-injective _ _ h) c
  run-Conserves w (a ∷ acts) h c = elim (Option-cases (step s w a)) [
    | inl e ↦ absurd (none≢some (rw (e, run) at h))
    | inr (m, e) ↦ run-Conserves m acts (rw (e, run) at h) (step-Conserves w a e c)
  ]

  new-Conserves :
      (got : Bool) (num : ℕ) {p : TypePool s}
      → new s got num ≡ some p
      → Conserves (record { pool = p; claimed = [] })
  unfolding new
  new-Conserves got num h weight = elim (Option-cases (node_new s got 0 num)) [
    | inl e ↦ absurd (none≢some (rw (e, new) at h))
    | inr (node, e) ↦ rw (← some-injective _ _ (rw (e, new) at h)) (
        omega (
          arith,
          node_new_weight s l weight 0 num got e,
          ap (λ n. total weight (blocks_from 0 n 0)) (node_new_num s l weight 0 num got e),
        ))
  ]

  -- However clients of a fresh pool claim, give back and enlarge it, by any weight, the blocks that
  -- they hold and those that are free are together those that the nodes were made with.
  run_conserves :
      (got : Bool) (num : ℕ) (acts : List (Act s)) (weight : Block → ℕ) {p : TypePool s}
      {w : World s}
      → new s got num ≡ some p
      → run s (record { pool = p; claimed = [] }) acts ≡ some w
      → total weight w.claimed + free_weight s l weight w.pool.nodes ≡ made s weight 0 w.pool.nodes
  run_conserves got num acts weight {p} fresh h =
      run-Conserves (record { pool = p; claimed = [] }) acts h (new-Conserves got num fresh) weight

  -- However clients of a fresh pool claim, give back and enlarge it, no block is held by two of them,
  -- held twice by one, free twice, or held while it is free.
  pub run_exclusive :
      (got : Bool) (num : ℕ) (acts : List (Act s)) (b : Block) {p : TypePool s} {w : World s}
      → new s got num ≡ some p
      → run s (record { pool = p; claimed = [] }) acts ≡ some w
      → total (this b) w.claimed + free_weight s l (this b) w.pool.nodes ≤ 1
  run_exclusive got num acts b {w = w} fresh h =
      omega (arith, run_conserves got num acts (this b) fresh h, made_once s b 0 w.pool.nodes)
