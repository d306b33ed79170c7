-- ===== src/MultiPool/Claims.antt =====
-- A message goes back to the pool that it came from, as long as the index fits its header.
use mathlib.Core.Option.{some-injective}
use netxy.Base.{
  ℕ, zero, suc, ◌+◌, ◌%◌, ◌≤◌, ◌<◌, ◌≡◌, refl, sym, ap, ◌∙◌, Bool, true, false, Option, none, some,
  List, [], ◌∷◌, arith, map, ltb, length, take, length-take, get_elem?, get_elem?-set, set-set, set,
  Bool-cases, inl, inr, none≢some,
}
use netxy.Stack.{StackOps}
use netxy.TypePool.{Block, TypePool}
use netxy.TypePool
use netxy.MultiPool.{
  Msg, MultiPool, char_of, char_bound, first_fit, claim_at, claim, len_claim, reclaim, type_len,
  new_pools, new,
}
use netxy.MultiPool.Fit.{IsValid, claim_at_inv, char_of_small}

module _ (s : StackOps Block) where
  claim_inv :
      (got : Bool) (m : MultiPool s) (i : ℕ) {r : Option Msg × MultiPool s}
      → claim s got m i ≡ some r
      → claim_at s got m i ≡ some r
  unfolding claim
  claim_inv got m i h = elim (Bool-cases (ltb i m.max)) [
    | inl inside ↦ rw (inside, claim) at h
    | inr outside ↦ absurd (none≢some (rw (outside, claim) at h))
  ]

  -- A message claimed from one of the first 128 pools, given back at once, goes to that pool: of all
  -- the pools only that one is changed, by the claim and the reclaim of one block.
  claim-reclaim :
      (got : Bool) (m : MultiPool s) (i : ℕ) {msg : Msg} {after : MultiPool s}
      → i < 128
      → claim s got m i ≡ some (some msg, after)
      → (pool : TypePool s) × (get_elem? m.msg_pools i ≡ some (some pool))
        × (reclaim s after msg
            ≡ some (record m {
              msg_pools =
                  set m.msg_pools i
                    (some (TypePool.reclaim s (TypePool.claim s got pool).1 msg.block));
            }))
  unfolding reclaim
  claim-reclaim got m i {msg} small h =
      let (pool, there, block, index, same) = claim_at_inv s got m i (claim_inv got m i h) in
      (
        pool,
        there,
        sym (ap (λ t. reclaim s t msg) same) ∙ back m i msg (index ∙ char_of_small i small) _ there,
      )
    where
      back :
          (m : MultiPool s) (i : ℕ) (msg : Msg)
          → msg.pool_index ≡ some i
          → (used : TypePool s) {pool : Option (TypePool s)} → get_elem? m.msg_pools i ≡ some pool
          → reclaim s (record m { msg_pools = set m.msg_pools i (some used) }) msg
            ≡ some (record m {
              msg_pools = set m.msg_pools i (some (TypePool.reclaim s used msg.block));
            })
      back m i msg named used e =
          rw (named, reclaim)
            (rw (get_elem?-set m.msg_pools i (some used) e, reclaim)
              (ap (λ ps. some (record m { msg_pools = ps })) (set-set m.msg_pools i _ _)))

  -- A message claimed from a pool whose index does not fit a signed `char` cannot be given back: its
  -- header holds a negative index.
  claim_lost :
      (got : Bool) (m : MultiPool s) (i : ℕ) {msg : Msg} {after : MultiPool s}
      → 128 ≤ i
      → i < 256
      → claim s got m i ≡ some (some msg, after)
      → reclaim s after msg ≡ none
  unfolding reclaim char_of
  claim_lost got m i {msg} {after} large below h =
      let (pool, there, block, index, same) = claim_at_inv s got m i (claim_inv got m i h) in
      let wraps : ltb (i % 256) 128 ≡ false = ground arith in
      let negative : msg.pool_index ≡ none = index ∙ rw wraps refl in rw negative refl

  -- With 128 to 255 pools, no claim by length gets a message.
  len_claim-none :
      (got : Bool) (m : MultiPool s) (len : ℕ)
      → 128 ≤ m.max
      → m.max < 256
      → len_claim s got m len ≡ some (none, m)
  unfolding len_claim char_bound char_of first_fit
  len_claim-none got m len large below =
      let wraps : ltb (m.max % 256) 128 ≡ false = ground arith in
      rw (wraps, len_claim, char_bound, char_of) refl

  length-new_pools :
      (got : ℕ → Bool) (i : ℕ) (nums : List ℕ) → length (new_pools s got i nums) ≡ length nums
  unfolding new_pools
  length-new_pools got i [] = refl
  length-new_pools got i (n ∷ nums) = ap suc (length-new_pools got (i + 1) nums)

  -- `ox_multi_pool_new` makes as many pools and lengths as it says, and each length is the given one
  -- with the addend.
  new_lem :
      (got : ℕ → Bool) (nums lens : List ℕ) (max add i : ℕ) {n : ℕ}
      → max ≤ length nums
      → max ≤ length lens
      → i < max
      → get_elem? lens i ≡ some n
      → IsValid s (new s got nums lens max add)
        × (type_len s (new s got nums lens max add) i ≡ some (n + add))
  unfolding new type_len
  new_lem got nums lens max add i h h2 below e =
      let inside : ltb i max ≡ true = ground arith in
      (
        (
          length-new_pools got 0 (take max nums) ∙ length-take max nums ∙ omega arith,
          length-map (take max lens) ∙ length-take max lens ∙ omega arith,
        ),
        rw inside (sums max i lens below e),
      )
    where
      length-map : (xs : List ℕ) → length (map (λ n. n + add) xs) ≡ length xs
      length-map [] = refl
      length-map (x ∷ xs) = ap suc (length-map xs)

      sums :
          (max i : ℕ) (lens : List ℕ) {n : ℕ}
          → i < max
          → get_elem? lens i ≡ some n
          → get_elem? (map (λ n. n + add) (take max lens)) i ≡ some (n + add)
      sums zero i lens h e = absurd (omega arith)
      sums (suc max) i [] h e = cc
      sums (suc max) zero (x ∷ lens) h e = ap (λ k. some (k + add)) (some-injective _ _ e)
      sums (suc max) (suc i) (x ∷ lens) h e = sums max i lens (omega arith) e
