-- ===== src/MsgNet/Dispatch.antt =====
-- Who is called for a message, and in which order: the first module that registered for its kind, then
-- the others, the newest first.
use netxy.Base.{
  ℕ, zero, suc, ◌≤◌, ◌<◌, ◌≡◌, refl, sym, ap, ◌∙◌, false, ◌||◌, some, List, [], ◌∷◌, ◌++◌, map,
  append-nil, append_assoc, arith, ◌==◌, get_elem?, get_elem?-set_other, get_elem?-set, set,
  replicate,
}
use netxy.MsgNet.{
  register_msg, p2p_msg, Module, register_module, client, Call, MsgNet, insert_chain, insert_module,
  create, call_module, call_client, call_chain, handle, handle_all, broadcast, send_register,
}

-- the modules but the first, in the order in which they are called
abbrev pub newest_first : List ℕ → List ℕ → List ℕ
newest_first [] rest = rest
newest_first (m ∷ ms) rest = newest_first ms (m ∷ rest)

-- the call of a client for a broadcast
abbrev pub call_of : ℕ → ℕ → ℕ → ℕ → Call
call_of kind source payload c = record {
  callee = c;
  kind = kind;
  caller = source;
  payload = payload;
}

call_clients :
    (net : MsgNet) (cs : List ℕ) (kind source payload : ℕ)
    → call_chain net (map client cs) (broadcast kind source payload)
      ≡ some (record net { calls = net.calls ++ map (call_of kind source payload) cs })
unfolding call_chain call_module call_client broadcast
call_clients net [] kind source payload =
    ap (λ c. some (record net { calls = c })) (sym (append-nil net.calls))
call_clients net (c ∷ cs) kind source payload =
    call_clients _ cs kind source payload
    ∙ ap (λ t. some (record net { calls = t }))
        (append_assoc net.calls (call_of kind source payload c ∷ [])
          (map (call_of kind source payload) cs))

-- The built-in module puts a client into the chain of its kind.
register_call :
    (net : MsgNet) (m kind : ℕ) {chain : List Module}
    → 2 ≤ kind
    → get_elem? net.nodes kind ≡ some chain
    → call_module net register_module (send_register m kind)
      ≡ some (record net { nodes = set net.nodes kind (insert_chain chain (client m)) })
unfolding call_module send_register insert_module
register_call net m kind h here =
    let own : ((kind == register_msg) || (kind == p2p_msg)) ≡ false = ground arith in
    rw own (rw (here, insert_module) refl)

register_one :
    (net : MsgNet) (m kind : ℕ) {chain : List Module}
    → 2 ≤ kind
    → get_elem? net.nodes 0 ≡ some (register_module ∷ [])
    → get_elem? net.nodes kind ≡ some chain
    → handle net (send_register m kind)
      ≡ some (record net { nodes = set net.nodes kind (insert_chain chain (client m)) })
unfolding handle call_chain send_register insert_chain
register_one net m kind h first here =
    rw (first, handle) (rw (register_call net m kind h here, call_chain) refl)

register_rest :
    (net : MsgNet) (ms : List ℕ) (first : ℕ) (rest : List ℕ) (kind source payload : ℕ)
    → 2 ≤ kind
    → get_elem? net.nodes 0 ≡ some (register_module ∷ [])
    → get_elem? net.nodes kind ≡ some (map client (first ∷ rest))
    → (q : MsgNet) × (handle_all net
          (map (λ m. send_register m kind) ms ++ (broadcast kind source payload ∷ []))
        ≡ some q)
      × (q.calls ≡ net.calls ++ map (call_of kind source payload) (first ∷ newest_first ms rest))
unfolding handle_all insert_chain handle broadcast
register_rest net [] first rest kind source payload h zeroth here = (
  record net { calls = net.calls ++ map (call_of kind source payload) (first ∷ rest) },
  rw (heard net (first ∷ rest) here, handle_all) refl,
  refl,
)
  where
    heard :
        (net : MsgNet) (cs : List ℕ)
        → get_elem? net.nodes kind ≡ some (map client cs)
        → handle net (broadcast kind source payload)
          ≡ some (record net { calls = net.calls ++ map (call_of kind source payload) cs })
    heard net cs here = rw (here, handle) (call_clients net cs kind source payload)
register_rest net (m ∷ ms) first rest kind source payload h zeroth here =
    let chain : List Module = map client (first ∷ m ∷ rest) in
    let later : MsgNet = record net { nodes = set net.nodes kind chain } in
    let other : (0 == kind) ≡ false = ground arith in
    let (q, e, calls) =
      register_rest later ms first (m ∷ rest) kind source payload h
        (get_elem?-set_other net.nodes kind chain 0 other ∙ zeroth)
        (get_elem?-set net.nodes kind chain here) in
    (q, rw (register_one net m kind h zeroth here, handle_all) e, calls)

-- On a fresh net, after the modules of a list have registered for a kind that is not built in, a
-- broadcast of that kind calls each of them with its data: the first one, and then the others, the
-- newest first.
pub registered_called :
    (first : ℕ) (ms : List ℕ) (kind source payload : ℕ)
    → 2 ≤ kind
    → kind < 100
    → (q : MsgNet) × (handle_all create
          (map (λ m. send_register m kind) (first ∷ ms) ++ (broadcast kind source payload ∷ []))
        ≡ some q)
      × (q.calls ≡ map (call_of kind source payload) (first ∷ newest_first ms []))
unfolding handle_all create insert_chain
registered_called first ms kind source payload h below =
    let chain : List Module = client first ∷ [] in
    let later : MsgNet = record create { nodes = set create.nodes kind chain } in
    let other : (0 == kind) ≡ false = ground arith in
    let here = no_module kind h below in
    let (q, e, calls) =
      register_rest later ms first [] kind source payload h
        (get_elem?-set_other create.nodes kind chain 0 other)
        (get_elem?-set create.nodes kind chain here) in
    (q, rw (register_one create first kind h refl here, handle_all) e, calls)
  where
    replicate_at : (n i : ℕ) → i < n → get_elem? (replicate {A = List Module} n []) i ≡ some []
    replicate_at zero i below = absurd (omega arith)
    replicate_at (suc n) zero below = refl
    replicate_at (suc n) (suc i) below = replicate_at n i (omega arith)

    no_module : (kind : ℕ) → 2 ≤ kind → kind < 100 → get_elem? create.nodes kind ≡ some []
    no_module zero h below = absurd (omega arith)
    no_module (suc zero) h below = absurd (omega arith)
    no_module (suc (suc k)) h below = replicate_at 98 k (omega arith)
