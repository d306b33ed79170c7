-- ===== src/MultiPool.antt =====
-- src/utils/multipool.c: several type pools of growing block lengths. A message carries the index of
-- its pool as a signed `char`; `none` is a negative one. Lengths and `max` are not negative. A failed
-- assert, and an access outside an array or through NULL, is `none`.
pub mod Fit
pub mod Claims
mod Tests
use netxy.Base.{
  ℕ, zero, suc, ◌+◌, ◌%◌, Bool, true, false, Option, none, some, List, [], ◌∷◌, map, ltb, leb,
  length, take, get_elem?, set, if◌then◌else◌,
}
use netxy.Stack.{StackOps}
use netxy.TypePool.{Block, TypePool}
use netxy.TypePool

-- what a number is when it is stored in a `char`
unfoldable pub char_of : ℕ → Option ℕ
char_of n = if ltb (n % 256) 128 then some (n % 256) else none

-- `packet_pool_max`: a loop that counts up to a negative bound has no round
unfoldable pub char_bound : ℕ → ℕ
char_bound n = elim (char_of n) [ none ↦ 0 | some k ↦ k ]

-- `struct multi_pool_basemsg_data_s`, and the block that it stands in
pub record Msg : Type 0 where
  pub pool_index : Option ℕ
  pub block : Block

-- the loop of `ox_multi_pool_lenclaim`, from place `k` on, with `rounds` places below the bound
unfoldable pub first_fit : List ℕ → ℕ → ℕ → ℕ → ℕ
first_fit lens len k zero = k
first_fit lens len k (suc rounds) =
    let later = first_fit lens len (k + 1) rounds in
    elim (get_elem? lens k) [ none ↦ k | some n ↦ if leb len n then k else later ]

module _ (s : StackOps Block) where
  -- `struct multi_pool_s`; a pool that could not be made is NULL
  pub record MultiPool : Type 0 where
    pub msg_pools : List (Option (TypePool s))
    pub max : ℕ
    pub lens : List ℕ

  -- the loop of `ox_multi_pool_new` that makes the pools from place `i` on
  unfoldable pub new_pools : (ℕ → Bool) → ℕ → List ℕ → List (Option (TypePool s))
  new_pools got i [] = []
  new_pools got i (num ∷ nums) = TypePool.new s (got i) num ∷ new_pools got (i + 1) nums

  -- `ox_multi_pool_new`, on arrays of at least `max` entries
  unfoldable pub new : (ℕ → Bool) → List ℕ → List ℕ → ℕ → ℕ → MultiPool
  new got nums lens max add = record {
    msg_pools = new_pools got 0 (take max nums);
    max = max;
    lens = map (λ n. n + add) (take max lens);
  }

  -- what both claims do with the pool at an index
  unfoldable pub claim_at : Bool → MultiPool → ℕ → Option (Option Msg × MultiPool)
  claim_at got m i = elim (get_elem? m.msg_pools i) [
    | none ↦ none
    | some none ↦ none
    | some (some pool) ↦
        let (out, rest) = TypePool.claim s got pool in
        let after = record m { msg_pools = set m.msg_pools i (some rest) } in
        elim out [
          | none ↦ some (none, after)
          | some b ↦ some (some (record { pool_index = char_of i; block = b }), after)
        ]
  ]

  -- `ox_multi_pool_claim`
  unfoldable pub claim : Bool → MultiPool → ℕ → Option (Option Msg × MultiPool)
  claim got m i = if ltb i m.max then claim_at got m i else none

  -- `ox_multi_pool_lenclaim`
  unfoldable pub len_claim : Bool → MultiPool → ℕ → Option (Option Msg × MultiPool)
  len_claim got m len =
      let i = first_fit m.lens len 0 (char_bound m.max) in
      if ltb i (char_bound m.max) then claim_at got m i else some (none, m)

  -- `ox_multi_pool_reclaim`
  unfoldable pub reclaim : MultiPool → Msg → Option MultiPool
  reclaim m msg = elim msg.pool_index [
    | none ↦ none
    | some i ↦ elim (get_elem? m.msg_pools i) [
      | none ↦ none
      | some none ↦ none
      | some (some pool) ↦
          some
            (record m { msg_pools = set m.msg_pools i (some (TypePool.reclaim s pool msg.block)) })
    ]
  ]

  -- `ox_multi_pool_config_len`
  unfoldable pub config_len : MultiPool → Msg → Option ℕ
  config_len m msg = elim msg.pool_index [
    | none ↦ none
    | some i ↦ if ltb i m.max then get_elem? m.lens i else none
  ]

  -- `ox_multi_pool_typelen`
  unfoldable pub type_len : MultiPool → ℕ → Option ℕ
  type_len m i = if ltb i m.max then get_elem? m.lens i else some 0
