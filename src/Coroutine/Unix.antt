-- ===== src/Coroutine/Unix.antt =====
-- The `ucontext` variant of src/utils/coroutine.c. `none` is a failed assert. `coroutine_resume` has
-- no meaning here: it hands the plain array of pointers to `ox_array_at`.

pub mod Claim
pub mod Valid
pub mod Scheduling
pub mod Turns
mod Tests
use netxy.Base.{
  ℕ, zero, suc, ◌+◌, ◌-◌, ◌*◌, ◌%◌, Bool, true, false, Option, none, some, List, [], ◌∷◌, ◌++◌, ltb,
  leb, get_elem?, set, replicate, is_some, if◌then◌else◌,
}
use netxy.Stack.{StackOps}
use netxy.Coroutine.{State, ready, running, suspend, block}

-- the loop of `coroutine_new` for an empty entry, from round `i` on
pub find_free : List (Option State) → ℕ → ℕ → ℕ → ℕ → Option ℕ
find_free cos nco cap i zero = none
find_free cos nco cap i (suc rounds) =
    let later = find_free cos nco cap (i + 1) rounds in
    elim (get_elem? cos ((i + nco) % cap)) [
      | none ↦ none
      | some none ↦ some ((i + nco) % cap)
      | some (some st) ↦ later
    ]

-- what the main function, and the one that runs, can call
pub data Act : Type 0 where
  create : Act
  schedule : Act
  yield : Act
  wait : Act
  finish : Act

module _ (s : StackOps ℕ) where
  -- `struct schedule`; `none` is the -1 of `running`
  pub record Schedule : Type 0 where
    pub nco : ℕ
    pub cap : ℕ
    pub current : Option ℕ
    pub cos : List (Option State)
    pub active_list : s.Carrier

  -- `coroutine_open`
  pub open_schedule : Schedule
  open_schedule = record {
    nco = 0;
    cap = 16;
    current = none;
    cos = replicate 16 none;
    active_list = s.create 1024;
  }

  -- `coroutine_new`: the id, and the schedule
  pub new : Schedule → Option (ℕ × Schedule)
  new S =
      if leb S.cap S.nco
      then some (
        S.cap,
        record S {
          nco = S.nco + 1;
          cap = S.cap * 2;
          cos = set (S.cos ++ replicate S.cap none) S.cap (some ready);
          active_list = (s.push S.active_list S.cap).1;
        },
      )
      else elim (find_free S.cos S.nco S.cap 0 S.cap) [
        | none ↦ none
        | some id ↦ some (
          id,
          record S {
            nco = S.nco + 1;
            cos = set S.cos id (some ready);
            active_list = (s.push S.active_list id).1;
          },
        )
      ]

  -- the switch of `coroutine_goto`
  enter : Schedule → ℕ → State → Option Schedule
  enter S id ready = some (record S { current = some id; cos = set S.cos id (some running) })
  enter S id suspend = some (record S { current = some id; cos = set S.cos id (some running) })
  enter S id running = none
  enter S id block = none

  -- `coroutine_goto`
  pub goto : Schedule → ℕ → Option Schedule
  goto S id =
      if is_some S.current
      then none
      else if ltb id S.cap
      then elim (get_elem? S.cos id) [
        | none ↦ none
        | some none ↦ some S
        | some (some st) ↦ enter S id st
      ]
      else none

  -- `coroutine_schedule`, up to the switch to the coroutine
  pub run_next : Schedule → Option Schedule
  run_next S =
      let (first, rest) = s.pop_front S.active_list in
      if ltb 0 (s.num S.active_list)
      then elim first [ none ↦ none | some id ↦ goto (record S { active_list = rest }) id ]
      else some S

  -- `coroutine_yield`
  pub yield_current : Schedule → Option Schedule
  yield_current S = elim S.current [
    | none ↦ none
    | some id ↦ some (record S {
      current = none;
      cos = set S.cos id (some suspend);
      active_list = (s.push S.active_list id).1;
    })
  ]

  -- `coroutine_block`
  pub block_current : Schedule → Option Schedule
  block_current S = elim S.current [
    | none ↦ none
    | some id ↦ some (record S { current = none; cos = set S.cos id (some block) })
  ]

  -- `mainfunc` behind the call of the coroutine's function
  pub finish_current : Schedule → Option Schedule
  finish_current S = elim S.current [
    | none ↦ none
    | some id ↦ some (record S { nco = S.nco - 1; current = none; cos = set S.cos id none })
  ]

  pub step : Schedule → Act → Option Schedule
  step S create = elim (new S) [ none ↦ none | some r ↦ some r.1 ]
  step S schedule = run_next S
  step S yield = yield_current S
  step S wait = block_current S
  step S finish = finish_current S

  pub run : Schedule → List Act → Option Schedule
  run S [] = some S
  run S (a ∷ acts) = elim (step S a) [ none ↦ none | some T ↦ run T acts ]
