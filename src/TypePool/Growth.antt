-- ===== src/TypePool/Growth.antt =====
-- When a claim on a type pool fails, and when it makes the pool grow: only if no block is free.
use netxy.Base.{
  ℕ, zero, suc, ◌+◌, ◌≡◌, ◌⊎◌, ◌↔◌, refl, sym, ap, ◌∙◌, Bool, true, false, ◌&&◌, none, List, [],
  ◌∷◌, arith, ◌==◌, length, length-append, total, weight_of, total-append, if◌then◌else◌,
  Option-cases, inl, inr, none≢some,
}
use netxy.Stack.{StackOps, IsStack}
use netxy.TypePool.{
  Block, Node, TypePool, node_new, increase, pop_at, scan, claim_first, claim_help, claim,
}
use netxy.TypePool.Blocks.{
  blocks_from, node_weight, free_weight, node_new_weight, claim_help_weight, claim_help-none,
}

-- every block counts
abbrev pub each : Block → ℕ
each b = 1

each_block : (node rounds i : ℕ) → total each (blocks_from node rounds i) ≡ rounds
each_block node zero i = refl
each_block node (suc rounds) i = omega (arith, each_block node rounds (i + 1))

module _ (s : StackOps Block) where
  pop_at-length : (nodes : List (Node s)) (n : ℕ) → length (pop_at s nodes n).1 ≡ length nodes
  unfolding pop_at
  pop_at-length [] n = refl
  pop_at-length (node ∷ nodes) zero = refl
  pop_at-length (node ∷ nodes) (suc n) = ap suc (pop_at-length nodes n)

  scan-length : (k : ℕ) (nodes : List (Node s)) → length (scan s k nodes).1 ≡ length nodes
  unfolding scan
  scan-length k [] = refl
  scan-length k (node ∷ nodes) = elim (Option-cases (s.pop_back node.free).0) [
    | inl e ↦ rw (e, scan) (ap suc (scan-length (k + 1) nodes))
    | inr (b, e) ↦ rw (e, scan) refl
  ]

  claim_first-length : (p : TypePool s) → length (claim_first s p).1 ≡ length p.nodes
  unfolding claim_first
  claim_first-length p = elim (Option-cases p.free_node) [
    | inl e ↦ rw (e, claim_first) refl
    | inr (n, e) ↦ rw (e, claim_first) (pop_at-length p.nodes n)
  ]

  -- what `type_pool_claim_help` leaves alone
  claim_help_rest :
      (p : TypePool s)
      → (length (claim_help s p).1.nodes ≡ length p.nodes)
        × ((claim_help s p).1.nodenum ≡ p.nodenum)
        × ((claim_help s p).1.base_num ≡ p.base_num)
  unfolding claim_help
  claim_help_rest p =
      let first = claim_first s p in
      let whole = scan-length 0 first.1 ∙ claim_first-length p in
      elim (Option-cases first.0) [
        | inl e ↦ elim (Option-cases (scan s 0 first.1).0) [
          | inl e2 ↦ rw (e, e2, claim_help) (whole, refl, refl)
          | inr (b, e2) ↦ rw (e, e2, claim_help) (whole, refl, refl)
        ]
        | inr (b, e) ↦ rw (e, claim_help) (claim_first-length p, refl, refl)
      ]

  increase_rest :
      (got : Bool) (p : TypePool s) (num : ℕ)
      → (length (increase s got p num).nodes ≡ length p.nodes + (if got then 1 else 0))
        × ((increase s got p num).nodenum ≡ p.nodenum)
  unfolding increase node_new
  increase_rest true p num = (length-append p.nodes _, refl)
  increase_rest false p num = (omega arith, refl)

module _ (s : StackOps Block) (l : IsStack s) where
  abbrev pub free_num : TypePool s → ℕ
  free_num p = free_weight s l each p.nodes

  -- `type_pool_claim_help` fails when, and only when, no block is free.
  claim_help_iff : (p : TypePool s) → (claim_help s p).0 ≡ none ↔ free_num p ≡ 0
  claim_help_iff p = (
    claim_help-none s l each p,
    λ h. elim (Option-cases (claim_help s p).0) [
      | inl e ↦ e
      | inr (b, e) ↦ absurd (omega (arith, claim_help_weight s l each p, ap (weight_of each) e))
    ],
  )

  increase_free :
      (got : Bool) (p : TypePool s) (num : ℕ)
      → free_num (increase s got p num) ≡ free_num p + (if got then num else 0)
  unfolding increase node_new
  increase_free true p num = omega (
    arith,
    total-append (node_weight s l each) p.nodes _,
    node_new_weight s l each (length p.nodes) num true refl,
    each_block (length p.nodes) num 0,
  )
  increase_free false p num = omega arith

  -- the pool after the growth of `ox_type_pool_claim`
  abbrev grown : Bool → TypePool s → TypePool s
  grown got p =
      let q = (claim_help s p).1 in
      let more = increase s got q q.base_num in record more { nodenum = more.nodenum + 1 }

  grown_free :
      (got : Bool) (p : TypePool s)
      → (claim_help s p).0 ≡ none
      → free_num (grown got p) ≡ (if got then p.base_num else 0)
  grown_free got p e =
      let q = (claim_help s p).1 in
      let (same, count, base) = claim_help_rest s p in
      omega (
        arith,
        increase_free got q q.base_num,
        ap (λ n. if got then n else 0) base,
        claim_help_weight s l each p,
        claim_help-none s l each p e,
      )

  -- A claim fails when, and only when, no block is free and the pool only_if grow: `malloc` fails, or
  -- the pool was made for no blocks.
  claim_fails :
      (got : Bool) (p : TypePool s)
      → (claim s got p).0 ≡ none ↔ (free_num p ≡ 0) × ((got ≡ false) ⊎ (p.base_num ≡ 0))
  unfolding claim
  claim_fails got p = elim (Option-cases (claim_help s p).0) [
    | inl e ↦
        rw (e, claim)
          (
            λ h. (
              claim_help-none s l each p e,
              only_if got (sym (grown_free got p e) ∙ (claim_help_iff (grown got p)).0 h),
            ),
            λ h. (claim_help_iff (grown got p)).1 (grown_free got p e ∙ when got h.1),
          )
    | inr (b, e) ↦
        rw (e, claim)
          (
            λ h. absurd (none≢some (sym h)),
            λ h. absurd (none≢some (sym ((claim_help_iff p).1 h.0) ∙ e)),
          )
  ]
    where
      only_if :
          (got : Bool) → (if got then p.base_num else 0) ≡ 0 → (got ≡ false) ⊎ (p.base_num ≡ 0)
      only_if true h = inr h
      only_if false h = inl refl

      when : (got : Bool) → (got ≡ false) ⊎ (p.base_num ≡ 0) → (if got then p.base_num else 0) ≡ 0
      when true (inl h) = cc
      when true (inr h) = h
      when false h = refl

  -- A claim grows the pool by one node when no block is free and `malloc` succeeds, and not otherwise;
  -- it counts one more node whenever no block is free, also when `malloc` fails.
  claim_growth :
      (got : Bool) (p : TypePool s)
      → (length (claim s got p).1.nodes
          ≡ length p.nodes + (if (free_num p == 0) && got then 1 else 0))
        × ((claim s got p).1.nodenum ≡ p.nodenum + (if free_num p == 0 then 1 else 0))
  unfolding claim
  claim_growth got p =
      let q = (claim_help s p).1 in
      let (same, count, base) = claim_help_rest s p in
      let (longer, count_grown) = increase_rest s got q q.base_num in
      let (same_again, count_again, base_again) = claim_help_rest s (grown got p) in
      elim (Option-cases (claim_help s p).0) [
        | inl e ↦
            let z : free_num p ≡ 0 = claim_help-none s l each p e in
            rw (e, z, claim)
              (
                omega (arith, same, longer, same_again),
                omega (arith, count, count_grown, count_again),
              )
        | inr (b, e) ↦
            let z : (free_num p == 0) ≡ false =
              ground (arith, claim_help_weight s l each p, ap (weight_of each) e) in
            rw (e, z, claim) (omega (arith, same), omega (arith, count))
      ]
