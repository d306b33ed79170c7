-- ===== src/TcpService/Entering.antt =====
-- A connection that enters gets an id that no other has, and keeps the table as it should be.
use mathlib.Core.Option.{some-injective}
use mathlib.Core.Path.{subst}
use netxy.Base.{
  ℕ, ◌+◌, ◌^◌, ◌≤◌, ◌<◌, ◌≡◌, ◌⊎◌, refl, sym, ap, ◌∙◌, true, false, some, List, [], ◌∷◌, ◌++◌,
  arith, ltb, ◌==◌, length, length-append, length-set, get_elem?, get_elem?-set,
  get_elem?-set_other, get_elem?-snoc, get_elem?-within, get_elem?-inside, set, total, total-append,
  count, Bool-cases, inl, inr,
}
use netxy.TypeIds.{TypeIds, set_value}
use netxy.TypeIds.Slots.{Claimed}
use netxy.TypeIds.Held.{IsShared, claim_id-IsShared}
use netxy.TcpService.{Sessions, pack, loop_index_of, index_of, iid_of, alive, make_id, on_enter}
use netxy.TcpService.Ids.{pack_fields, indices, count-indices-snoc, count-indices-pos}
use netxy.TcpService.Valid.{Inv}

-- The state behind the entering, with the claimed table and the id.
abbrev pub entered : Sessions → TypeIds → ℕ → Sessions
entered s t id = record s {
  data_sockets = record t { values = set t.values (index_of id) (some (length s.sockets)) };
  inc_id = s.inc_id + 1;
  sockets = s.sockets ++ some id ∷ [];
  given = s.given ++ id ∷ [];
}

-- What is at a place of a list with one more element.
last_or_old {ℓ} :
    {A : Type ℓ} (xs : List A) (x y : A) (k : ℕ)
    → get_elem? (xs ++ x ∷ []) k ≡ some y
    → ((k ≡ length xs) × (x ≡ y)) ⊎ (((k == length xs) ≡ false) × (get_elem? xs k ≡ some y))
last_or_old xs x y k e = elim (Bool-cases (k == length xs)) [
  | inl last ↦ inl (ground arith, some-injective _ _ (rw last at (sym (get_elem?-snoc xs x k) ∙ e)))
  | inr old ↦ inr (old, rw old at (sym (get_elem?-snoc xs x k) ∙ e))
]

module _ (loop_index : ℕ) (s : Sessions) (t : TypeIds) (id : ℕ)
    (shared : IsShared t (index_of id ∷ indices s.sockets)) (claimed : Claimed s.data_sockets t)
    (loop_here : loop_index_of id ≡ loop_index) (counted : iid_of id ≡ length s.sockets)
    (below : index_of id < length t.values) (v : Inv loop_index s) where
  fresh : count (index_of id) (indices s.sockets) ≡ 0
  fresh = ground (arith, shared (index_of id))

  apart : (c d : ℕ) → get_elem? s.sockets c ≡ some (some d) → (index_of d == index_of id) ≡ false
  apart c d e = ground (arith, count-indices-pos s.sockets c e, fresh)

  same_place : (i : ℕ) → (i == index_of id) ≡ true → i ≡ index_of id
  same_place i e = ground arith

  stands_entered :
      (c d : ℕ)
      → get_elem? (s.sockets ++ some id ∷ []) c ≡ some (some d)
      → get_elem? (set t.values (index_of id) (some (length s.sockets))) (index_of d)
        ≡ some (some c)
  stands_entered c d e = elim (last_or_old s.sockets (some id) (some d) c e) [
    | inl (last, same) ↦
        let here = (get_elem?-within t.values (index_of id) below).1 in
        rw (← some-injective _ _ same) (
          get_elem?-set t.values (index_of id) (some (length s.sockets)) here
          ∙ ap (λ n. some (some n)) (sym last))
    | inr (other, old) ↦
        get_elem?-set_other t.values (index_of id) (some (length s.sockets)) (index_of d)
          (apart c d old)
        ∙ claimed.stays (index_of d) c (v.stands c d old)
  ]

  snoc_last : get_elem? (s.sockets ++ some id ∷ []) (length s.sockets) ≡ some (some id)
  snoc_last =
      let same : (length s.sockets == length s.sockets) ≡ true = ground arith in
      get_elem?-snoc s.sockets (some id) (length s.sockets) ∙ (rw same refl)

  snoc_old :
      {A : Type 0} (xs : List A) (x y : A) (c : ℕ)
      → get_elem? xs c ≡ some y
      → get_elem? (xs ++ x ∷ []) c ≡ some y
  snoc_old xs x y c e = ground (arith, get_elem?-snoc xs x c, get_elem?-inside xs c e)

  owner_entered :
      (i c : ℕ)
      → get_elem? (set t.values (index_of id) (some (length s.sockets))) i ≡ some (some c)
      → (d : ℕ) × (get_elem? (s.sockets ++ some id ∷ []) c ≡ some (some d)) × (index_of d ≡ i)
  owner_entered i c e = elim (Bool-cases (i == index_of id)) [
    | inl h ↦
        let place = same_place i h in
        let here = (get_elem?-within t.values (index_of id) below).1 in
        let n = some-injective _ _ (
          some-injective _ _ (
            sym (get_elem?-set t.values (index_of id) (some (length s.sockets)) here)
            ∙ ap (get_elem? (set t.values (index_of id) (some (length s.sockets)))) (sym place)
            ∙ e)) in
        (id, ap (get_elem? (s.sockets ++ some id ∷ [])) (sym n) ∙ snoc_last, sym place)
    | inr h ↦
        let o = v.owner i c (
          claimed.stood i c
            (sym (get_elem?-set_other t.values (index_of id) (some (length s.sockets)) i h) ∙ e)) in
        (o.0, snoc_old s.sockets (some id) (some o.0) c o.1, o.2)
  ]

  named_entered :
      (c d : ℕ)
      → get_elem? (s.sockets ++ some id ∷ []) c ≡ some (some d)
      → get_elem? (s.given ++ id ∷ []) c ≡ some d
  named_entered c d e = elim (last_or_old s.sockets (some id) (some d) c e) [
    | inl (last, same) ↦
        let here : (c == length s.given) ≡ true = ground (arith, v.lengths) in
        get_elem?-snoc s.given id c ∙ (rw here same)
    | inr (other, old) ↦ snoc_old s.given id d c (v.named c d old)
  ]

  fields_entered :
      (c d : ℕ)
      → length s.data_sockets.values ≤ length t.values
      → get_elem? (s.given ++ id ∷ []) c ≡ some d
      → (loop_index_of d ≡ loop_index)
        × (iid_of d ≡ c)
        × (index_of d < length (set t.values (index_of id) (some (length s.sockets))))
  fields_entered c d grown e = elim (last_or_old s.given id d c e) [
    | inl (last, same) ↦ rw (← same) (
      loop_here,
      counted ∙ sym (v.lengths.0) ∙ sym last,
      rw (length-set t.values (index_of id) (some (length s.sockets))) below,
    )
    | inr (other, old) ↦
        let f = v.fields c d old in
        (
          f.0,
          f.1,
          rw (length-set t.values (index_of id) (some (length s.sockets)))
              (omega (arith, f.2, grown)),
        )
  ]

  pub entered-Inv :
      length s.sockets < 2 ^ 31 → total alive s.sockets < 65500 → Inv loop_index (entered s t id)
  entered-Inv more room =
      let long = length-set t.values (index_of id) (some (length s.sockets)) in
      let grown : length s.data_sockets.values ≤ length t.values = ground (arith, claimed.sizes) in
      record {
        shared = λ x. rw long (omega (arith, shared x, count-indices-snoc x id s.sockets));
        stands = stands_entered;
        owner = owner_entered;
        named = named_entered;
        fields = λ c d e. fields_entered c d grown e;
        lengths = (
          omega (
            arith,
            length-append s.given (id ∷ []),
            length-append s.sockets (some id ∷ []),
            v.lengths.0,
          ),
          omega (arith, length-append s.sockets (some id ∷ []), v.lengths.1),
        );
        few = omega (arith, length-append s.sockets (some id ∷ []));
        sizes =
            rw long
              (omega (arith, claimed.sizes, v.sizes, total-append alive s.sockets (some id ∷ [])));
      }

-- Within the limits a connection enters without a fault.
pub on_enter-Inv :
    (loop_index : ℕ) (s : Sessions)
    → loop_index < 2 ^ 16
    → length s.sockets < 2 ^ 31
    → total alive s.sockets < 65500
    → Inv loop_index s
    → (t : Sessions) × (on_enter loop_index s ≡ some t) × Inv loop_index t
unfolding on_enter make_id set_value
on_enter-Inv loop_index s l more room v =
    let (i, t, e, shared, claimed) =
      claim_id-IsShared s.data_sockets (indices s.sockets) v.shared in
    let below : i < length t.values = ground (arith, shared i) in
    let grown : length t.values ≤ 65500 = omega (arith, claimed.sizes, v.sizes) in
    let id = pack loop_index i s.inc_id in
    let f = pack_fields loop_index i s.inc_id l (omega arith) (omega (arith, v.lengths.1)) in
    let inside : ltb (index_of id) (length t.values) ≡ true = ground (arith, f.1) in
    (
      entered s t id,
      rw (e, inside, on_enter) refl,
      entered-Inv loop_index s t id
          (subst (λ k. IsShared t (k ∷ indices s.sockets)) (sym f.1) shared) claimed f.0
          (f.2 ∙ v.lengths.1) (omega (arith, f.1)) v more room,
    )
