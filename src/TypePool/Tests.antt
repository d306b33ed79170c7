-- ===== src/TypePool/Tests.antt =====
-- A pool of two blocks over plain stacks, and the theorems at it.
use netxy.Base.{◌+◌, ◌≤◌, ◌≡◌, refl, true, false, none, some, List, [], ◌∷◌, total}
use netxy.Stack.{StackOps, IsStack}
use netxy.Stack.Model.{list_stack, list_stack_laws}
use netxy.TypePool.{
  Block, TypePool, push_blocks, node_new, new, increase, pop_at, scan, claim_first, claim_help,
  claim, reclaim,
}
use netxy.TypePool.Blocks.{free_weight}
use netxy.TypePool.Made.{this}
use netxy.TypePool.Claims.{World, Act, take, give_back, step, run, run_exclusive}

abbrev stack : StackOps Block
stack = list_stack Block

abbrev plain : IsStack stack
plain = list_stack_laws Block

abbrev fresh : TypePool stack
fresh = record {
  base_num = 2;
  nodes = record { num = 2; free = (0, 0) ∷ (0, 1) ∷ [] } ∷ [];
  free_node = some 0;
  nodenum = 1;
}

-- Three blocks are claimed, of which the last needs a second node, and the second one is given back.
abbrev script : List (Act stack)
script = take true ∷ take true ∷ take true ∷ give_back 1 ∷ []

abbrev after_script : World stack
after_script = record {
  pool = record {
    base_num = 2;
    nodes = record { num = 2; free = (0, 0) ∷ [] } ∷ (record { num = 2; free = (1, 0) ∷ [] } ∷ []);
    free_node = some 0;
    nodenum = 2;
  };
  claimed = (1, 1) ∷ (0, 1) ∷ [];
}

new-fresh : new stack true 2 ≡ some fresh
unfolding new node_new push_blocks
new-fresh = refl

run-script : run stack (record { pool = fresh; claimed = [] }) script ≡ some after_script
unfolding run step claim claim_help claim_first scan pop_at increase node_new push_blocks reclaim
run-script = refl

-- a pool with no free block, whose growth fails
abbrev used_up : TypePool stack
used_up = record fresh { nodes = record { num = 2; free = [] } ∷ [] }

failed_growth : claim stack false used_up ≡ (none, record used_up { nodenum = 2 })
unfolding claim claim_help claim_first scan pop_at increase node_new
failed_growth = refl

run_exclusive_example :
    total (this (0, 0)) after_script.claimed
      + free_weight stack plain (this (0, 0)) after_script.pool.nodes
    ≤ 1
run_exclusive_example = run_exclusive stack plain true 2 script (0, 0) new-fresh run-script
