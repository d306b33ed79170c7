-- ===== src/ThreadPool/Tests.antt =====
-- Executions of a pool of two workers over plain stacks, and the theorems at them.
use netxy.Base.{
  ℕ, ◌+◌, ◌≡◌, refl, Bool, true, false, some, List, [], ◌∷◌, total, ◌==◌, if◌then◌else◌,
}
use netxy.Stack.{StackOps, IsStack}
use netxy.Stack.Model.{list_stack, list_stack_laws}
use netxy.ThreadPool.{
  waiting, Worker, ThreadPool, start, push_msg, overwrite, overwritten, any_hit, has_taken,
  all_kept, take_msg, advance, Act, send, work, step, run,
}
use netxy.ThreadPool.Messages.{in_flight, run_balanced}

abbrev stack : StackOps ℕ
stack = list_stack ℕ

abbrev plain : IsStack stack
plain = list_stack_laws ℕ

abbrev idle_worker : Worker ℕ
idle_worker = record { at = waiting; state = false }

abbrev nowhere : ℕ → Bool
nowhere i = false

-- Two messages are sent; the first worker takes the second, and handles it.
abbrev script : List (Act stack)
script = send 7 nowhere ∷ send 8 nowhere ∷ work 0 ∷ work 0 ∷ work 0 ∷ work 0 ∷ []

abbrev after_script : ThreadPool stack
after_script = record {
  is_run = true;
  msg_list = 7 ∷ [];
  workers = idle_worker ∷ idle_worker ∷ [];
  pushed = 7 ∷ 8 ∷ [];
  handled = 8 ∷ [];
}

abbrev after_all : ThreadPool stack
after_all = record after_script { msg_list = []; handled = 8 ∷ 7 ∷ [] }

abbrev rest : List (Act stack)
rest =
    send 7 nowhere
    ∷ send 8 nowhere
    ∷ work 0
    ∷ work 0
    ∷ work 0
    ∷ work 0
    ∷ work 1
    ∷ work 1
    ∷ work 1
    ∷ work 1
    ∷ []

newest_first : run stack (start stack 2 10) script ≡ some after_script
unfolding run step start push_msg overwrite overwritten take_msg advance
newest_first = refl

all_handled : run stack (start stack 2 10) rest ≡ some after_all
unfolding run step start push_msg overwrite overwritten take_msg advance
all_handled = refl

-- A worker takes a message, another one is pushed at its place, and both workers then handle that one.
abbrev hit : List (Act stack)
hit =
    send 7 nowhere
    ∷ work 0
    ∷ send 8 (λ i. i == 0)
    ∷ work 1
    ∷ work 0
    ∷ work 0
    ∷ work 1
    ∷ work 1
    ∷ work 0
    ∷ work 1
    ∷ []

handled_twice :
    run stack (start stack 2 10) hit
    ≡ some (record after_script { msg_list = []; handled = 8 ∷ 8 ∷ [] })
unfolding run step start push_msg overwrite overwritten take_msg advance
handled_twice = refl

script_kept : all_kept stack (start stack 2 10) script ≡ true
unfolding all_kept any_hit has_taken run step start push_msg overwrite overwritten take_msg advance
script_kept = refl

-- counts the message 7
abbrev sevens : ℕ → ℕ
sevens m = if m == 7 then 1 else 0

run_balanced_example :
    total sevens (7 ∷ 8 ∷ [])
    ≡ total sevens (8 ∷ []) + in_flight sevens after_script.workers + total sevens (7 ∷ [])
run_balanced_example = run_balanced stack plain sevens 2 10 script script_kept newest_first
