-- ===== src/Stack.antt =====
-- The `ox_stack_*` functions that src/utils takes from "stack.h", which is not part of the
-- repository: an interface, and what the callers rely on. A failed `ox_stack_new` is the callers'
-- concern; here `create` is one that succeeded. `Stack.Model` shows that the interface can be met.
pub mod Model
use netxy.Base.{
  ℕ, ◌≡◌, Bool, true, Option, none, some, List, [], ◌∷◌, ◌++◌, length, head?, tail, unsnoc,
}

-- `push` says whether it stored the element; a pop yields none (NULL) on an empty stack.
pub record StackOps (A : Type 0) : Type 1 where
  pub Carrier : Type 0
  pub create : ℕ → Carrier
  pub push : Carrier → A → Bool × Carrier
  pub pop_back : Carrier → Option A × Carrier
  pub pop_front : Carrier → Option A × Carrier
  pub front : Carrier → Option A
  pub num : Carrier → ℕ

-- A stack is a list, oldest element first. `push` grows the storage, so it always succeeds.
pub record IsStack {A : Type 0} (s : StackOps A) : Type 0 where
  pub items : s.Carrier → List A
  pub create_lem : (n : ℕ) → items (s.create n) ≡ []
  pub push_stores : (c : s.Carrier) (x : A) → (s.push c x).0 ≡ true
  pub push_lem : (c : s.Carrier) (x : A) → items (s.push c x).1 ≡ items c ++ (x ∷ [])
  pub pop_back_lem : (c : s.Carrier) → ((s.pop_back c).0, items (s.pop_back c).1) ≡ unsnoc (items c)
  pub pop_front_value : (c : s.Carrier) → (s.pop_front c).0 ≡ head? (items c)
  pub pop_front_rest : (c : s.Carrier) → items (s.pop_front c).1 ≡ tail (items c)
  pub front_lem : (c : s.Carrier) → s.front c ≡ head? (items c)
  pub num_lem : (c : s.Carrier) → s.num c ≡ length (items c)
