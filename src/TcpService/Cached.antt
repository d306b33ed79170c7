-- ===== src/TcpService/Cached.antt =====
-- `cacheSend` and `flushCachePackectList` of src/net/TCPService.cpp: packets are kept for each loop and
-- given to it together. The packets of a loop stay in order.
use mathlib.Core.Option.{some-injective}
use netxy.Base.{
  ℕ, zero, suc, ◌≡◌, refl, sym, ap, ◌∙◌, Bool, true, false, Option, none, some, List, [], ◌∷◌, ◌++◌,
  append-nil, append_assoc, map, arith, ◌==◌, get_elem?, set, if◌then◌else◌, Bool-cases,
  Option-cases, inl, inr, none≢some,
}
use netxy.TcpService.{loop_index_of}

abbrev is_nil {ℓ} : {A : Type ℓ} → List A → Bool
is_nil [] = true
is_nil (x ∷ xs) = false

module _ (P : Type 0) where
  -- An entry of `mCachePacketList`, and the packets that were given to the loop with their ids.
  pub record PacketList : Type 0 where
    pub cached : List (ℕ × P)
    pub posted : List (ℕ × P)

  pub data CacheAct : Type 0 where
    cache_act : ℕ → P → CacheAct
    flush_act : CacheAct

module _ {P : Type 0} where
  -- `cacheSend`; `none` is the failed assert
  unfoldable pub cache_send : ℕ → P → List (PacketList P) → Option (List (PacketList P))
  cache_send id packet lists = elim (get_elem? lists (loop_index_of id)) [
    | none ↦ none
    | some q ↦
        some (set lists (loop_index_of id) (record q { cached = q.cached ++ (id, packet) ∷ [] }))
  ]

  -- the body of the loop in `flushCachePackectList`
  unfoldable pub flush_list : PacketList P → PacketList P
  flush_list q =
      if is_nil q.cached then q else record { cached = []; posted = q.posted ++ q.cached }

  -- `flushCachePackectList`
  unfoldable pub flush_cache_packet_list : List (PacketList P) → List (PacketList P)
  flush_cache_packet_list lists = map flush_list lists

  unfoldable pub run_cache : List (CacheAct P) → List (PacketList P) → Option (List (PacketList P))
  run_cache [] lists = some lists
  run_cache (cache_act id packet ∷ acts) lists = elim (cache_send id packet lists) [
    | none ↦ none
    | some after ↦ run_cache acts after
  ]
  run_cache (flush_act ∷ acts) lists = run_cache acts (flush_cache_packet_list lists)

  -- the packets for a loop, those that it got first
  abbrev pub for_loop : ℕ → List (PacketList P) → List (ℕ × P)
  for_loop l lists = elim (get_elem? lists l) [ none ↦ [] | some q ↦ q.posted ++ q.cached ]

  -- the packets whose ids name a loop
  abbrev pub sent_to : ℕ → List (CacheAct P) → List (ℕ × P)
  sent_to l [] = []
  sent_to l (cache_act id packet ∷ acts) =
      (if l == loop_index_of id then (id, packet) ∷ [] else []) ++ sent_to l acts
  sent_to l (flush_act ∷ acts) = sent_to l acts

  flush_list-order :
      (q : PacketList P) → (flush_list q).posted ++ (flush_list q).cached ≡ q.posted ++ q.cached
  unfolding flush_list
  flush_list-order q = elim (Bool-cases (is_nil q.cached)) [
    | inl e ↦ rw e refl
    | inr e ↦ rw e (append-nil (q.posted ++ q.cached))
  ]

  for_loop-flush :
      (l : ℕ) (lists : List (PacketList P))
      → for_loop l (flush_cache_packet_list lists) ≡ for_loop l lists
  unfolding flush_cache_packet_list
  for_loop-flush l lists = at l lists
    where
      at :
          (l : ℕ) (lists : List (PacketList P))
          → for_loop l (map flush_list lists) ≡ for_loop l lists
      at l [] = refl
      at zero (q ∷ lists) = flush_list-order q
      at (suc l) (q ∷ lists) = at l lists

  for_loop-set :
      (l k : ℕ) (m : ℕ × P) (lists : List (PacketList P)) (q : PacketList P)
      → get_elem? lists k ≡ some q
      → for_loop l (set lists k (record q { cached = q.cached ++ m ∷ [] }))
        ≡ for_loop l lists ++ (if l == k then m ∷ [] else [])
  for_loop-set l k m [] q e = cc
  for_loop-set zero zero m (r ∷ lists) q e =
      let same : r ≡ q = some-injective _ _ e in
      rw same (sym (append_assoc q.posted q.cached (m ∷ [])))
  for_loop-set zero (suc k) m (r ∷ lists) q e =
      let apart : (0 == suc k) ≡ false = ground arith in
      rw apart (sym (append-nil (r.posted ++ r.cached)))
  for_loop-set (suc l) zero m (r ∷ lists) q e =
      let apart : (suc l == 0) ≡ false = ground arith in
      rw apart (sym (append-nil (for_loop l lists)))
  for_loop-set (suc l) (suc k) m (r ∷ lists) q e =
      let same : (suc l == suc k) ≡ (l == k) = ground arith in
      rw same (for_loop-set l k m lists q e)

  cache_send-some :
      (id : ℕ) (packet : P) (lists : List (PacketList P)) {after : List (PacketList P)}
      → cache_send id packet lists ≡ some after
      → (q : PacketList P) × (get_elem? lists (loop_index_of id) ≡ some q)
        × (set lists (loop_index_of id) (record q { cached = q.cached ++ (id, packet) ∷ [] })
            ≡ after)
  unfolding cache_send
  cache_send-some id packet lists e = elim (Option-cases (get_elem? lists (loop_index_of id))) [
    | inl h ↦ absurd (none≢some (rw (h, cache_send) at e))
    | inr (q, h) ↦ (q, h, some-injective _ _ (rw (h, cache_send) at e))
  ]

  -- Whatever packets are cached and whenever they are flushed, a loop has been given, and has cached, its
  -- packets in order, those that were there before first: none is lost, doubled or given to another loop.
  pub run_cache-order :
      (acts : List (CacheAct P)) (l : ℕ) (lists : List (PacketList P)) {after : List (PacketList P)}
      → run_cache acts lists ≡ some after
      → for_loop l after ≡ for_loop l lists ++ sent_to l acts
  unfolding run_cache
  run_cache-order [] l lists e =
      ap (for_loop l) (sym (some-injective _ _ e)) ∙ sym (append-nil (for_loop l lists))
  run_cache-order (flush_act ∷ acts) l lists e =
      run_cache-order acts l (flush_cache_packet_list lists) e
      ∙ ap (λ x. x ++ sent_to l acts) (for_loop-flush l lists)
  run_cache-order (cache_act id packet ∷ acts) l lists e =
      elim (Option-cases (cache_send id packet lists)) [
        | inl h ↦ absurd (none≢some (rw (h, run_cache) at e))
        | inr (t, h) ↦
            let (q, there, same) = cache_send-some id packet lists h in
            run_cache-order acts l t (rw (h, run_cache) at e)
            ∙ ap (λ x. for_loop l x ++ sent_to l acts) (sym same)
            ∙ ap (λ x. x ++ sent_to l acts)
                (for_loop-set l (loop_index_of id) (id, packet) lists q there)
            ∙ append_assoc (for_loop l lists)
                (if l == loop_index_of id then (id, packet) ∷ [] else []) (sent_to l acts)
      ]
