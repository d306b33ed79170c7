-- ===== src/MultiPool/Tests.antt =====
-- Two pools of one block each, for lengths 8 and 32, and the theorems at them.
use netxy.Base.{
  ℕ, zero, suc, ◌<◌, ◌≡◌, refl, true, none, some, [], ◌∷◌, arith, set, get_elem?, replicate,
}
use netxy.Stack.{StackOps}
use netxy.Stack.Model.{list_stack}
use netxy.TypePool.{
  Block, Node, TypePool, push_blocks, node_new, increase, pop_at, scan, claim_first, claim_help,
}
use netxy.TypePool
use netxy.MultiPool.{
  Msg, MultiPool, char_of, char_bound, first_fit, claim_at, claim, len_claim, new_pools, new,
}
use netxy.MultiPool.Fit.{IsValid}

abbrev stack : StackOps Block
stack = list_stack Block

abbrev full : TypePool stack
full = record {
  base_num = 1;
  nodes = record { num = 1; free = (0, 0) ∷ [] } ∷ [];
  free_node = some 0;
  nodenum = 1;
}

abbrev used : TypePool stack
used = record full { nodes = record { num = 1; free = [] } ∷ [] }

abbrev two_pools : MultiPool stack
two_pools = record { msg_pools = some full ∷ some full ∷ []; max = 2; lens = 8 ∷ 32 ∷ [] }

abbrev from_second : Msg
from_second = record { pool_index = some 1; block = (0, 0) }

abbrev after_claim : MultiPool stack
after_claim = record two_pools { msg_pools = some full ∷ some used ∷ [] }

new_two : new stack (λ i. true) (1 ∷ 1 ∷ []) (4 ∷ 28 ∷ []) 2 4 ≡ two_pools
unfolding new new_pools TypePool.new node_new push_blocks
new_two = refl

claimed_20 : len_claim stack true two_pools 20 ≡ some (some from_second, after_claim)
unfolding len_claim char_bound char_of first_fit claim_at TypePool.claim claim_help claim_first
    pop_at scan
claimed_20 = refl

claimed_second : claim stack true two_pools 1 ≡ some (some from_second, after_claim)
unfolding claim char_of claim_at TypePool.claim claim_help claim_first pop_at scan
claimed_second = refl

two_pools-IsValid : IsValid stack two_pools
two_pools-IsValid = (refl, refl)

all_made :
    (k : ℕ) → k < 2 → (pool : TypePool stack) × (get_elem? two_pools.msg_pools k ≡ some (some pool))
all_made zero h = (full, refl)
all_made (suc zero) h = (full, refl)
all_made (suc (suc k)) h = absurd (omega arith)

-- 129 pools, of which the last is claimed from
abbrev many : MultiPool stack
many = record { msg_pools = replicate 129 (some full); max = 129; lens = replicate 129 8 }

abbrev from_last : Msg
from_last = record { pool_index = none; block = (0, 0) }

claimed_last :
    claim stack true many 128
    ≡ some (some from_last, record many { msg_pools = set many.msg_pools 128 (some used) })
unfolding claim char_of claim_at TypePool.claim claim_help claim_first pop_at scan
claimed_last = refl
