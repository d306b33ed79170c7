-- ===== src/MsgNet/Tests.antt =====
-- Three modules that register for one kind, and the theorems at them.
use netxy.Base.{◌≡◌, refl, some, List, [], ◌∷◌, ◌++◌, map, arith, get_elem?, set}
use netxy.MsgNet.{
  register_msg, p2p_msg, register_module, p2p_module, client, Msg, MsgNet, insert_chain,
  insert_module, create, call_module, call_client, call_chain, handle, handle_all, broadcast,
  send_to, send_register,
}
use netxy.MsgNet.Dispatch.{call_of, registered_called}
use netxy.MsgNet.Reserved.{kinds_kept}

abbrev script : List Msg
script =
    send_register 4 9
    ∷ send_register 5 9
    ∷ send_register 6 9
    ∷ broadcast 9 1 77
    ∷ send_to 9 1 5 78
    ∷ []

abbrev after_script : MsgNet
after_script = record {
  nodes = set create.nodes 9 (client 4 ∷ client 6 ∷ client 5 ∷ []);
  calls = call_of 9 1 77 4 ∷ call_of 9 1 77 6 ∷ call_of 9 1 77 5 ∷ call_of 9 1 78 5 ∷ [];
}

handle_script : handle_all create script ≡ some after_script
unfolding handle_all handle call_chain call_module call_client insert_module insert_chain create
    send_register broadcast send_to
handle_script = refl

registered_called_example :
    (q : MsgNet) × (handle_all create
        (map (λ m. send_register m 9) (4 ∷ 5 ∷ 6 ∷ []) ++ (broadcast 9 1 77 ∷ []))
      ≡ some q)
    × (q.calls ≡ map (call_of 9 1 77) (4 ∷ 6 ∷ 5 ∷ []))
registered_called_example = registered_called 4 (5 ∷ 6 ∷ []) 9 1 77 (omega arith) (omega arith)

kinds_kept_example :
    (get_elem? after_script.nodes register_msg ≡ some (register_module ∷ []))
    × (get_elem? after_script.nodes p2p_msg ≡ some (p2p_module ∷ []))
kinds_kept_example = kinds_kept script handle_script
