-- ===== src/MsgNet/Reserved.antt =====
-- The kinds that are built in stay with their modules.
use mathlib.Core.Option.{some-injective}
use netxy.Base.{
  ℕ, ◌≡◌, refl, ◌∙◌, false, ◌||◌, some, List, [], ◌∷◌, arith, ◌==◌, get_elem?, get_elem?-set_other,
  Bool-cases, Option-cases, inl, inr, none≢some,
}
use netxy.MsgNet.{
  register_msg, p2p_msg, Module, register_module, p2p_module, client, Data, reg_data, p2p_data,
  own_data, Msg, MsgNet, insert_chain, insert_module, create, call_client, call_module, call_chain,
  handle, handle_all,
}

abbrev Reserved : MsgNet → Type 0
Reserved net =
    (get_elem? net.nodes register_msg ≡ some (register_module ∷ []))
    × (get_elem? net.nodes p2p_msg ≡ some (p2p_module ∷ []))

insert_module-Reserved :
    (net : MsgNet) (m : Module) (kind : ℕ) {after : MsgNet}
    → ((kind == register_msg) || (kind == p2p_msg)) ≡ false
    → insert_module net m kind ≡ some after
    → Reserved net
    → Reserved after
unfolding insert_module
insert_module-Reserved net m kind own h v = elim (Option-cases (get_elem? net.nodes kind)) [
  | inl e ↦ absurd (none≢some (rw (e, insert_module) at h))
  | inr (chain, e) ↦ rw (← some-injective _ _ (rw (e, insert_module) at h)) (
    get_elem?-set_other net.nodes kind (insert_chain chain m) 0 (ground (arith, own)) ∙ v.0,
    get_elem?-set_other net.nodes kind (insert_chain chain m) 1 (ground (arith, own)) ∙ v.1,
  )
]

call_module-Reserved :
    (net : MsgNet) (m : Module) (msg : Msg) {after : MsgNet}
    → call_module net m msg ≡ some after
    → Reserved net
    → Reserved after
unfolding call_module call_client
call_module-Reserved net m msg {after} h v = by_data m msg.data_of refl
  where
    by_data :
        (n : Module) (d : Data)
        → call_module net n (record msg { data_of = d }) ≡ call_module net m msg
        → Reserved after
    by_data register_module (reg_data n kind) e =
        elim (Bool-cases ((kind == register_msg) || (kind == p2p_msg))) [
          | inl own ↦ absurd (none≢some (rw own at (e ∙ h)))
          | inr other ↦ insert_module-Reserved net n kind other (rw other at (e ∙ h)) v
        ]
    by_data register_module (p2p_data d k p) e = absurd (none≢some (e ∙ h))
    by_data register_module (own_data p) e = absurd (none≢some (e ∙ h))
    by_data p2p_module (reg_data n k) e = absurd (none≢some (e ∙ h))
    by_data p2p_module (p2p_data d k p) e = rw (← some-injective _ _ (e ∙ h)) v
    by_data p2p_module (own_data p) e = absurd (none≢some (e ∙ h))
    by_data (client c) (reg_data n k) e = absurd (none≢some (e ∙ h))
    by_data (client c) (p2p_data d k p) e = absurd (none≢some (e ∙ h))
    by_data (client c) (own_data p) e = rw (← some-injective _ _ (e ∙ h)) v

call_chain-Reserved :
    (net : MsgNet) (chain : List Module) (msg : Msg) {after : MsgNet}
    → call_chain net chain msg ≡ some after
    → Reserved net
    → Reserved after
unfolding call_chain
call_chain-Reserved net [] msg h v = rw (← some-injective _ _ h) v
call_chain-Reserved net (m ∷ chain) msg h v = elim (Option-cases (call_module net m msg)) [
  | inl e ↦ absurd (none≢some (rw (e, call_chain) at h))
  | inr (next, e) ↦
      call_chain-Reserved next chain msg (rw (e, call_chain) at h)
        (call_module-Reserved net m msg e v)
]

handle-Reserved :
    (net : MsgNet) (msg : Msg) {after : MsgNet}
    → handle net msg ≡ some after
    → Reserved net
    → Reserved after
unfolding handle
handle-Reserved net msg h v = elim (Option-cases (get_elem? net.nodes msg.msg_id)) [
  | inl e ↦ absurd (none≢some (rw (e, handle) at h))
  | inr (chain, e) ↦ call_chain-Reserved net chain msg (rw (e, handle) at h) v
]

handle_all-Reserved :
    (net : MsgNet) (msgs : List Msg) {after : MsgNet}
    → handle_all net msgs ≡ some after
    → Reserved net
    → Reserved after
unfolding handle_all
handle_all-Reserved net [] h v = rw (← some-injective _ _ h) v
handle_all-Reserved net (msg ∷ msgs) h v = elim (Option-cases (handle net msg)) [
  | inl e ↦ absurd (none≢some (rw (e, handle_all) at h))
  | inr (next, e) ↦
      handle_all-Reserved next msgs (rw (e, handle_all) at h) (handle-Reserved net msg e v)
]

-- Whatever messages a fresh net handles, the two kinds that are built in have their own module in the
-- chain and no other.
pub kinds_kept :
    (msgs : List Msg) {after : MsgNet}
    → handle_all create msgs ≡ some after
    → (get_elem? after.nodes register_msg ≡ some (register_module ∷ []))
      × (get_elem? after.nodes p2p_msg ≡ some (p2p_module ∷ []))
unfolding create
kinds_kept msgs h = handle_all-Reserved create msgs h (refl, refl)
