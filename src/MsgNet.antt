-- ===== src/MsgNet.antt =====
-- src/utils/msgnet.c: modules that register for kinds of messages, and the dispatch of messages to them.
-- Messages are handled one after the other; that two workers of a thread pool do it at once, with no lock
-- around the table, is not modelled. A module is a number, 0 and 1 for the two that are built in. A failed
-- assert, an access outside the table, and data of another kind than its message says, is `none`.
pub mod Dispatch
pub mod Reserved
mod Tests
use netxy.Base.{
  ℕ, zero, suc, Bool, true, false, ◌||◌, Option, none, some, List, [], ◌∷◌, ◌++◌, ltb, ◌==◌,
  get_elem?, set, replicate, if◌then◌else◌,
}

-- `msgnet.h`: MSGNET_REGISTERMODULE_MSG and MSGNET_P2P_MSG
abbrev pub register_msg : ℕ
register_msg = 0

abbrev pub p2p_msg : ℕ
p2p_msg = 1

-- the callback of a module: `_register_module_callback`, `_p2p_msg_callback`, or a client's
pub data Module : Type 0 where
  register_module : Module
  p2p_module : Module
  client : ℕ → Module

-- the data of a message: `struct reg_msg_data`, `struct p2p_msg_data` (destination, kind, data), or a
-- client's own
pub data Data : Type 0 where
  reg_data : Module → ℕ → Data
  p2p_data : ℕ → ℕ → ℕ → Data
  own_data : ℕ → Data

-- `struct msg_s`
pub record Msg : Type 0 where
  pub msg_id : ℕ
  pub data_of : Data
  pub source : ℕ

-- a call of a client's callback: the client, the kind, the source and the data
pub record Call : Type 0 where
  pub callee : ℕ
  pub kind : ℕ
  pub caller : ℕ
  pub payload : ℕ

-- `struct msgnet`: for each kind the chain of its modules; and the calls of clients so far
pub record MsgNet : Type 0 where
  pub nodes : List (List Module)
  pub calls : List Call

-- `_msgnet_insert_module`, in a chain: behind the first
pub insert_chain : List Module → Module → List Module
insert_chain [] m = m ∷ []
insert_chain (first ∷ rest) m = first ∷ m ∷ rest

-- `_msgnet_insert_module`
pub insert_module : MsgNet → Module → ℕ → Option MsgNet
insert_module net m kind = elim (get_elem? net.nodes kind) [
  | none ↦ none
  | some chain ↦ some (record net { nodes = set net.nodes kind (insert_chain chain m) })
]

-- `msgnet_create`
pub create : MsgNet
create = record { nodes = (register_module ∷ []) ∷ (p2p_module ∷ []) ∷ replicate 98 []; calls = [] }

call_client : MsgNet → ℕ → ℕ → ℕ → ℕ → MsgNet
call_client net callee kind caller payload = record net {
  calls =
      net.calls
      ++ (record { callee = callee; kind = kind; caller = caller; payload = payload } ∷ []);
}

-- one call of `_msgnet_msg_handler`: `_register_module_callback`, `_p2p_msg_callback`, or a client's
pub call_module : MsgNet → Module → Msg → Option MsgNet
call_module net m msg = call_with net m msg.data_of
  where
    register : MsgNet → Module → ℕ → Option MsgNet
    register net m kind =
        if (kind == register_msg) || (kind == p2p_msg) then none else insert_module net m kind

    call_with : MsgNet → Module → Data → Option MsgNet
    call_with net register_module (reg_data m kind) = register net m kind
    call_with net p2p_module (p2p_data dest kind payload) =
        some (call_client net dest kind msg.source payload)
    call_with net (client c) (own_data payload) =
        some (call_client net c msg.msg_id msg.source payload)
    call_with net _ _ = none

-- the loop of `_msgnet_msg_handler`
pub call_chain : MsgNet → List Module → Msg → Option MsgNet
call_chain net [] msg = some net
call_chain net (m ∷ chain) msg = elim (call_module net m msg) [
  | none ↦ none
  | some after ↦ call_chain after chain msg
]

-- `_msgnet_msg_handler`
pub handle : MsgNet → Msg → Option MsgNet
handle net msg = elim (get_elem? net.nodes msg.msg_id) [
  | none ↦ none
  | some chain ↦ call_chain net chain msg
]

-- messages handled in a row
pub handle_all : MsgNet → List Msg → Option MsgNet
handle_all net [] = some net
handle_all net (msg ∷ msgs) = elim (handle net msg) [
  | none ↦ none
  | some after ↦ handle_all after msgs
]

-- `msgnet_broadcast` of a client's data, `msgnet_sendto` and `msgnet_send_register`: the message that
-- they give to the thread pool
pub broadcast : ℕ → ℕ → ℕ → Msg
broadcast kind source payload = record {
  msg_id = kind;
  data_of = own_data payload;
  source = source;
}

pub send_to : ℕ → ℕ → ℕ → ℕ → Msg
send_to kind source dest payload = record {
  msg_id = p2p_msg;
  data_of = p2p_data dest kind payload;
  source = source;
}

pub send_register : ℕ → ℕ → Msg
send_register m kind = record {
  msg_id = register_msg;
  data_of = reg_data (client m) kind;
  source = m;
}
