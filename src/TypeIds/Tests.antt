-- ===== src/TypeIds/Tests.antt =====
-- The ids of src/utils/Typeids.h on small cases.
use netxy.Base.{ℕ, ◌+◌, ◌≡◌, some, List, [], ◌∷◌, ltb, length, count, if◌then◌else◌}
use netxy.TypeIds.{TypeIds, new}
use netxy.TypeIds.Held.{Action, claim_action, reclaim_action, run, run-new_shared}

-- Two ids are claimed and the first is given back.
abbrev some_actions : List Action
some_actions = claim_action ∷ claim_action ∷ reclaim_action 99 ∷ []

run-new_shared_example :
    (after : TypeIds) × (kept : List ℕ) × (run some_actions new [] ≡ some (after, kept))
    × ((x : ℕ) → count x after.ids + count x kept ≡ (if ltb x (length after.values) then 1 else 0))
run-new_shared_example = run-new_shared some_actions
