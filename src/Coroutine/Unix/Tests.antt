-- ===== src/Coroutine/Unix/Tests.antt =====
-- An execution of three coroutines over plain stacks, and the theorems at it.
use netxy.Base.{ℕ, ◌≡◌, refl, none, some, List, [], ◌∷◌, replicate}
use netxy.Stack.{StackOps, IsStack}
use netxy.Stack.Model.{list_stack, list_stack_laws}
use netxy.Coroutine.{ready, suspend, block}
use netxy.Coroutine.Unix.{
  Act, create, schedule, yield, wait, Schedule, open_schedule, find_free, new, enter, goto,
  run_next, yield_current, block_current, step, run,
}
use netxy.Coroutine.Unix.Valid.{IsValid}
use netxy.Coroutine.Unix.Turns.{run_turn, run_open-IsValid}

abbrev stack : StackOps ℕ
stack = list_stack ℕ

abbrev plain : IsStack stack
plain = list_stack_laws ℕ

abbrev three : List Act
three = create ∷ create ∷ create ∷ []

abbrev after_three : Schedule stack
after_three = record {
  nco = 3;
  cap = 16;
  current = none;
  cos = some ready ∷ some ready ∷ some ready ∷ replicate 13 none;
  active_list = 0 ∷ 1 ∷ 2 ∷ [];
}

-- The first coroutine yields and the second one blocks.
abbrev two_turns : List Act
two_turns = schedule ∷ yield ∷ schedule ∷ wait ∷ []

abbrev after_turns : Schedule stack
after_turns = record after_three {
  cos = some suspend ∷ some block ∷ some ready ∷ replicate 13 none;
  active_list = 2 ∷ 0 ∷ [];
}

run-three : run stack (open_schedule stack) three ≡ some after_three
unfolding run step open_schedule new find_free
run-three = refl

run-two_turns : run stack after_three two_turns ≡ some after_turns
unfolding run step run_next goto enter yield_current block_current
run-two_turns = refl

run_open-IsValid_example : IsValid stack plain after_three
run_open-IsValid_example = run_open-IsValid stack plain three run-three

run_turn_example :
    (U : Schedule stack) × (run_next stack after_turns ≡ some U) × (U.current ≡ some 2)
run_turn_example =
    run_turn stack plain after_three two_turns 2 run_open-IsValid_example refl run-two_turns refl
