-- ===== src/Stack/Model.antt =====
-- Stacks as plain lists meet the interface.
use netxy.Base.{refl, true, [], ◌∷◌, ◌++◌, List, length, head?, tail, unsnoc}
use netxy.Stack.{StackOps, IsStack}

abbrev pub list_stack : (A : Type 0) → StackOps A
list_stack A = record {
  Carrier = List A;
  create = λ n. [];
  push = λ c x. (true, c ++ (x ∷ []));
  pop_back = unsnoc;
  pop_front = λ c. (head? c, tail c);
  front = head?;
  num = length;
}

abbrev pub list_stack_laws : (A : Type 0) → IsStack (list_stack A)
list_stack_laws A = record {
  items = λ c. c;
  create_lem = λ n. refl;
  push_stores = λ c x. refl;
  push_lem = λ c x. refl;
  pop_back_lem = λ c. refl;
  pop_front_value = λ c. refl;
  pop_front_rest = λ c. refl;
  front_lem = λ c. refl;
  num_lem = λ c. refl;
}
