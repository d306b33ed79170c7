-- ===== src/TcpService/Closing.antt =====
-- A connection that is closed gives its place back, and keeps the table as it should be.
use mathlib.Core.Option.{some-injective}
use netxy.Base.{
  ℕ, ◌≡◌, refl, sym, ap, ◌∙◌, true, false, none, some, ◌∷◌, arith, ltb, ◌==◌, length, length-set,
  get_elem?, get_elem?-set, get_elem?-set_other, set, total-set, count, Bool-cases, inl, inr,
  none≢some,
}
use netxy.TypeIds.{reclaim_id, set_value}
use netxy.TcpService.{Sessions, index_of, alive, proc_data_socket_close}
use netxy.TcpService.Ids.{count-indices-set, count-indices-pos}
use netxy.TcpService.Valid.{Inv}

abbrev pub closed : Sessions → ℕ → ℕ → Sessions
closed s c id = record s {
  data_sockets = record {
    values = set s.data_sockets.values (index_of id) none;
    ids = index_of id ∷ s.data_sockets.ids;
  };
  sockets = set s.sockets c none;
}

module _ (loop_index : ℕ) (s : Sessions) (c id : ℕ) (here : get_elem? s.sockets c ≡ some (some id))
    (v : Inv loop_index s) where
  -- What stands behind the closing stood before it, and elsewhere.
  was_open :
      (k d : ℕ)
      → get_elem? (set s.sockets c none) k ≡ some (some d)
      → ((k == c) ≡ false) × (get_elem? s.sockets k ≡ some (some d))
  was_open k d e = elim (Bool-cases (k == c)) [
    | inl h ↦
        let same : k ≡ c = ground arith in
        absurd (
          none≢some (
            some-injective _ _ (
              sym (get_elem?-set s.sockets c none here)
              ∙ ap (get_elem? (set s.sockets c none)) (sym same)
              ∙ e)))
    | inr h ↦ (h, sym (get_elem?-set_other s.sockets c none k h) ∙ e)
  ]

  -- Two connections that stand at one place are one.
  stand_apart :
      (k d : ℕ)
      → (k == c) ≡ false
      → get_elem? s.sockets k ≡ some (some d)
      → (index_of d == index_of id) ≡ false
  stand_apart k d other e = elim (Bool-cases (index_of d == index_of id)) [
    | inr h ↦ h
    | inl h ↦
        let place : index_of d ≡ index_of id = ground arith in
        let same = some-injective _ _ (
          some-injective _ _ (
            sym (v.stands k d e)
            ∙ ap (get_elem? s.data_sockets.values) place
            ∙ v.stands c id here)) in
        ground (arith, same, other)
  ]

  stands_closed :
      (k d : ℕ)
      → get_elem? (set s.sockets c none) k ≡ some (some d)
      → get_elem? (set s.data_sockets.values (index_of id) none) (index_of d) ≡ some (some k)
  stands_closed k d e =
      let (other, old) = was_open k d e in
      get_elem?-set_other s.data_sockets.values (index_of id) none (index_of d)
        (stand_apart k d other old)
      ∙ v.stands k d old

  owner_closed :
      (i k : ℕ)
      → get_elem? (set s.data_sockets.values (index_of id) none) i ≡ some (some k)
      → (d : ℕ) × (get_elem? (set s.sockets c none) k ≡ some (some d)) × (index_of d ≡ i)
  owner_closed i k e = elim (Bool-cases (i == index_of id)) [
    | inl h ↦
        let place : i ≡ index_of id = ground arith in
        absurd (
          none≢some (
            some-injective _ _ (
              sym (get_elem?-set s.data_sockets.values (index_of id) none (v.stands c id here))
              ∙ ap (get_elem? (set s.data_sockets.values (index_of id) none)) (sym place)
              ∙ e)))
    | inr h ↦
        let (d, old, at) =
          v.owner i k
            (sym (get_elem?-set_other s.data_sockets.values (index_of id) none i h) ∙ e) in
        (d, get_elem?-set_other s.sockets c none k (another k d i old at h) ∙ old, at)
  ]
    where
      another :
          (k d i : ℕ)
          → get_elem? s.sockets k ≡ some (some d)
          → index_of d ≡ i
          → (i == index_of id) ≡ false
          → (k == c) ≡ false
      another k d i old at h = elim (Bool-cases (k == c)) [
        | inr g ↦ g
        | inl g ↦
            let same : k ≡ c = ground arith in
            let ids =
              some-injective _ _
                (some-injective _ _ (sym old ∙ ap (get_elem? s.sockets) same ∙ here)) in
            ground (arith, ap index_of ids, at, h)
      ]

  pub closed-Inv : Inv loop_index (closed s c id)
  closed-Inv =
      let long = length-set s.data_sockets.values (index_of id) none in
      record {
        shared = λ x. rw long (omega (arith, v.shared x, count-indices-set x s.sockets c here));
        stands = stands_closed;
        owner = owner_closed;
        named = λ k d e. v.named k d (was_open k d e).1;
        fields = λ k d e. let f = v.fields k d e in (f.0, f.1, rw long f.2);
        lengths = (
          v.lengths.0 ∙ sym (length-set s.sockets c none),
          v.lengths.1 ∙ sym (length-set s.sockets c none),
        );
        few = rw (length-set s.sockets c none) v.few;
        sizes = rw long (omega (arith, v.sizes, total-set alive s.sockets c none here));
      }

  -- Closing a connection that is there does not fail.
  pub proc_data_socket_close_lem : proc_data_socket_close c id s ≡ some (closed s c id)
  unfolding proc_data_socket_close set_value reclaim_id
  proc_data_socket_close_lem =
      let held = count-indices-pos s.sockets c here in
      let free : count (index_of id) s.data_sockets.ids ≡ 0 =
        ground (arith, v.shared (index_of id)) in
      let known : ltb (index_of id) (length s.data_sockets.values) ≡ true =
        ground (arith, v.shared (index_of id)) in
      let long : ltb (index_of id) (length (set s.data_sockets.values (index_of id) none)) ≡ true =
        rw (length-set s.data_sockets.values (index_of id) none) known in
      rw (known, long, free, proc_data_socket_close) refl
