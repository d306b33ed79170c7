-- ===== src/TcpService/Names.antt =====
-- An id names the connection that it was given to, until that is closed, and no connection after it.
use mathlib.Core.Option.{some-injective}
use netxy.Base.{
  ℕ, suc, ◌^◌, ◌<◌, ◌≡◌, refl, sym, ap, ◌∙◌, false, Option, none, some, List, [], ◌∷◌, ◌++◌, arith,
  ltb, ◌==◌, get_elem?, get_elem?-within, count, if◌then◌else◌, if_true, if_false, both_true, true,
  Bool-cases, Option-cases, inl, inr, none≢some,
}
use netxy.TypeIds.{get_value}
use netxy.TcpService.{
  Sessions, iid_of, index_of, loop_index_of, user_data, find, call, new, has_room, is_allowed,
  goes_on, all_allowed, Event, enter_event, close_event, call_event, step, run,
}
use netxy.TcpService.Valid.{Inv}
use netxy.TcpService.Entering.{on_enter-Inv}
use netxy.TcpService.Closing.{closed, closed-Inv, proc_data_socket_close_lem}

-- the connection of a number, unless it was deleted
abbrev pub open_socket : ℕ → Sessions → Option ℕ
open_socket c s = elim (user_data c s) [ none ↦ none | some id ↦ some c ]

user_data-some :
    (c : ℕ) (s : Sessions) {id : ℕ}
    → get_elem? s.sockets c ≡ some (some id)
    → user_data c s ≡ some id
unfolding user_data
user_data-some c s e = rw (e, user_data) refl

user_data_there :
    (c : ℕ) (s : Sessions) {id : ℕ}
    → user_data c s ≡ some id
    → get_elem? s.sockets c ≡ some (some id)
unfolding user_data
user_data_there c s e = there (get_elem? s.sockets c) e
  where
    there :
        {id : ℕ} (o : Option (Option ℕ))
        → (elim o [ none ↦ none | some d ↦ d ]) ≡ some id
        → o ≡ some (some id)
    there none e = cc
    there (some d) e = ap some e

module _ (loop_index : ℕ) (s : Sessions) (v : Inv loop_index s) where
  -- A connection that is not deleted has the id that it was given.
  given_data : (c id : ℕ) {d : ℕ} → get_elem? s.given c ≡ some id → user_data c s ≡ some d → d ≡ id
  given_data c id {d} g u = some-injective _ _ (sym (v.named c d (user_data_there c s u)) ∙ g)

  -- the place of an id that is empty, or has another connection
  empty_place :
      (c id : ℕ)
      → get_elem? s.given c ≡ some id
      → get_elem? s.data_sockets.values (index_of id) ≡ some none
      → open_socket c s ≡ none
  empty_place c id g e = elim (Option-cases (user_data c s)) [
    | inl u ↦ rw (u, open_socket) refl
    | inr (d, u) ↦
        let same = given_data c id g u in
        absurd (
          none≢some (
            some-injective _ _ (
              sym e
              ∙ ap (λ k. get_elem? s.data_sockets.values (index_of k)) (sym same)
              ∙ v.stands c d (user_data_there c s u))))
  ]

  other_place :
      (c id k d : ℕ)
      → get_elem? s.given c ≡ some id
      → get_elem? s.data_sockets.values (index_of id) ≡ some (some k)
      → get_elem? s.sockets k ≡ some (some d)
      → (if d == id then some k else none) ≡ open_socket c s
  other_place c id k d g e h = elim (Bool-cases (d == id)) [
    | inl t ↦
        let same : d ≡ id = ground arith in
        let number : k ≡ c =
          sym ((v.fields k d (v.named k d h)).1) ∙ ap iid_of same ∙ (v.fields c id g).1 in
        if_true _ _ t
        ∙ ap some number
        ∙ sym (opened c (user_data-some c s (ap (get_elem? s.sockets) (sym number) ∙ h)))
    | inr t ↦
        if_false _ _ t
        ∙ sym (elim (Option-cases (user_data c s)) [
          | inl u ↦ rw (u, open_socket) refl
          | inr (x, u) ↦
              let same = given_data c id g u in
              let place =
                sym (
                  ap (λ j. get_elem? s.data_sockets.values (index_of j)) (sym same)
                  ∙ v.stands c x (user_data_there c s u))
                ∙ e in
              let number = some-injective _ _ (some-injective _ _ place) in
              let kept = some-injective _ _ (
                some-injective _ _
                  (sym (user_data_there c s u) ∙ ap (get_elem? s.sockets) number ∙ h)) in
              absurd (ground (arith, kept, same, t))
        ])
  ]
    where
      opened : (c : ℕ) {d : ℕ} → user_data c s ≡ some d → open_socket c s ≡ some c
      opened c u = rw (u, open_socket) refl

  -- An id that was given out is answered by its connection, unless that was deleted, and by no other.
  pub find_lem : (c id : ℕ) → get_elem? s.given c ≡ some id → find id s ≡ some (open_socket c s)
  unfolding find get_value
  find_lem c id g =
      let (o, at) = get_elem?-within s.data_sockets.values (index_of id) (v.fields c id g).2 in
      elim (Option-cases o) [
        | inl t ↦ let e = at ∙ ap some t in rw (e, find) (ap some (sym (empty_place c id g e)))
        | inr (k, t) ↦
            let e = at ∙ ap some t in
            let (d, h, place) = v.owner (index_of id) k e in
            rw (e, user_data-some k s h, find) (ap some (other_place c id k d g e h))
      ]

given_of_count :
    (ids : List ℕ) (id : ℕ) → ltb 0 (count id ids) ≡ true → (c : ℕ) × (get_elem? ids c ≡ some id)
given_of_count [] id h = cc
given_of_count (d ∷ ids) id h = elim (Bool-cases (id == d)) [
  | inl t ↦ let same : d ≡ id = ground arith in (0, ap some same)
  | inr t ↦ let r = given_of_count ids id (ground (arith, h, t)) in (suc r.0, r.1)
]

module _ (loop_index : ℕ) (fits : loop_index < 2 ^ 16) where
  call-Inv :
      (s : Sessions) (id c : ℕ)
      → Inv loop_index s
      → get_elem? s.given c ≡ some id
      → (t : Sessions) × (call id s ≡ some t) × Inv loop_index t
  unfolding call
  call-Inv s id c v g = elim (Option-cases (open_socket c s)) [
    | inl o ↦ (s, rw (find_lem loop_index s v c id g ∙ ap some o, call) refl, v)
    | inr (k, o) ↦ (
      record s { calls = s.calls ++ (id, k) ∷ [] },
      rw (find_lem loop_index s v c id g ∙ ap some o, call) refl,
      record {
        shared = v.shared;
        stands = v.stands;
        owner = v.owner;
        named = v.named;
        fields = v.fields;
        lengths = v.lengths;
        few = v.few;
        sizes = v.sizes;
      },
    )
  ]

  step-Inv :
      (e : Event) (s : Sessions)
      → is_allowed e s ≡ true
      → Inv loop_index s
      → (t : Sessions) × (step loop_index e s ≡ some t) × Inv loop_index t
  unfolding step has_room
  step-Inv enter_event s t v =
      on_enter-Inv loop_index s fits (ground (arith, t)) (ground (arith, t)) v
  step-Inv (close_event c) s t v = elim (Option-cases (user_data c s)) [
    | inl u ↦ (s, rw (u, step) refl, v)
    | inr (id, u) ↦
        let here = user_data_there c s u in
        (
          closed s c id,
          rw (u, step) (proc_data_socket_close_lem loop_index s c id here v),
          closed-Inv loop_index s c id here v,
        )
  ]
  step-Inv (call_event id) s t v = let (c, g) = given_of_count s.given id t in call-Inv s id c v g

  run-Inv :
      (es : List Event) (s : Sessions)
      → all_allowed loop_index es s ≡ true
      → Inv loop_index s
      → (t : Sessions) × (run loop_index es s ≡ some t) × Inv loop_index t
  unfolding run all_allowed
  run-Inv [] s ok v = (s, refl, v)
  run-Inv (e ∷ es) s ok v =
      let (here, more) = both_true (is_allowed e s) _ ok in
      let (t, f, w) = step-Inv e s here v in
      let r = run-Inv es t (sym (ap (goes_on (all_allowed loop_index es)) f) ∙ more) w in
      (r.0, rw (f, run) r.1, r.2)

  new-Inv : Inv loop_index new
  unfolding new
  new-Inv = record {
    shared = λ x. let e : ltb x 0 ≡ false = ground arith in sym (if_false _ _ e);
    stands = λ c id e. cc;
    owner = λ i c e. absurd (none≢some e);
    named = λ c id e. cc;
    fields = λ c id e. cc;
    lengths = (refl, refl);
    few = omega arith;
    sizes = (refl, refl, omega arith);
  }

-- Whatever connections enter and are closed and whatever ids are called, nothing fails, as long as
-- whenever a connection enters fewer than 65500 are open and fewer than 2^31 have entered in all, and the
-- ids that are called were given out. Then no two connections were given one id, and an id that was given
-- out is answered by its connection, unless that was deleted, and then by none.
pub run-new-find :
    (loop_index : ℕ) (es : List Event)
    → loop_index < 2 ^ 16
    → all_allowed loop_index es new ≡ true
    → (s : Sessions) × (run loop_index es new ≡ some s)
      × ((c d id : ℕ) → get_elem? s.given c ≡ some id → get_elem? s.given d ≡ some id → c ≡ d)
      × ((c id : ℕ)
          → get_elem? s.given c ≡ some id
          → (loop_index_of id ≡ loop_index) × (find id s ≡ some (open_socket c s)))
run-new-find loop_index es fits ok =
    let (s, e, v) = run-Inv loop_index fits es new ok (new-Inv loop_index fits) in
    (
      s,
      e,
      λ c d id g h. sym ((v.fields c id g).1) ∙ (v.fields d id h).1,
      λ c id g. ((v.fields c id g).0, find_lem loop_index s v c id g),
    )
