-- ===== src/TypeIds/Held.antt =====
-- The ids that the clients hold: each number is free or is held once.
use netxy.Base.{
  ℕ, zero, suc, ◌+◌, ◌<◌, ◌≡◌, refl, sym, ap, ◌∙◌, true, false, not, ◌&&◌, Option, none, some, List,
  [], ◌∷◌, ◌++◌, arith, ltb, ◌==◌, length, length-append, length-replicate, length-set, set,
  replicate, count, if◌then◌else◌, if_true, if_false, Bool-cases, inl, inr,
}
use netxy.TypeIds.Slots.{kept_there, was_there, length-push_ids, Claimed}
use netxy.TypeIds.{TypeIds, new, num, push_ids, increase, claim_id, reclaim_id, set_value}

-- Every number below the size is free or held, and no other is.
abbrev pub IsShared : TypeIds → List ℕ → Type 0
IsShared t held =
    (x : ℕ) → count x t.ids + count x held ≡ (if ltb x (length t.values) then 1 else 0)

-- What the clients do with ids: claim one, or give back or set the value of one that they hold.
pub data Action : Type 0 where
  claim_action : Action
  reclaim_action : ℕ → Action
  set_action : Option ℕ → ℕ → Action

unfoldable pub erase : ℕ → List ℕ → List ℕ
erase id [] = []
erase id (k ∷ held) = if id == k then held else k ∷ erase id held

unfoldable pub step : Action → TypeIds → List ℕ → Option (TypeIds × List ℕ)
step claim_action t held = elim (claim_id t) [
  | none ↦ none
  | some (id, after) ↦ some (after, id ∷ held)
]
step (reclaim_action id) t held =
    if count id held == 0
    then some (t, held)
    else elim (reclaim_id id t) [ none ↦ none | some after ↦ some (after, erase id held) ]
step (set_action value id) t held =
    if count id held == 0
    then some (t, held)
    else elim (set_value value id t) [ none ↦ none | some after ↦ some (after, held) ]

unfoldable pub run : List Action → TypeIds → List ℕ → Option (TypeIds × List ℕ)
run [] t held = some (t, held)
run (a ∷ later) t held = elim (step a t held) [
  | none ↦ none
  | some (after, kept) ↦ run later after kept
]

count-push_ids :
    (x n base : ℕ) (ids : List ℕ)
    → count x (push_ids n base ids)
      ≡ count x ids + (if not (ltb x base) && ltb x (base + n) then 1 else 0)
unfolding push_ids
count-push_ids x zero base ids = ground arith
count-push_ids x (suc n) base ids = ground (arith, count-push_ids x n base ids)

count-erase :
    (x id : ℕ) (held : List ℕ)
    → 0 < count id held
    → count x held ≡ count x (erase id held) + (if x == id then 1 else 0)
unfolding erase
count-erase x id [] h = absurd (omega arith)
count-erase x id (k ∷ held) h = ground (arith, count-erase x id held)

increase-IsShared : (t : TypeIds) (held : List ℕ) → IsShared t held → IsShared (increase t) held
unfolding increase
increase-IsShared t held v x =
    let size =
      length-append t.values (replicate num none)
      ∙ ap (λ n. length t.values + n) (length-replicate {A = Option ℕ} num none) in
    ground (arith, count-push_ids x num (length t.values) t.ids, v x, size)

-- Of the ids held, one is taken from the front of those that are free.
take-IsShared :
    (values : List (Option ℕ)) (id : ℕ) (ids held : List ℕ)
    → IsShared (record { values = values; ids = id ∷ ids }) held
    → IsShared (record { values = values; ids = ids }) (id ∷ held)
take-IsShared values id ids held v x = ground (arith, v x)

claim_from :
    (values : List (Option ℕ)) (ids held : List ℕ)
    → IsShared (record { values = values; ids = ids }) held
    → (id : ℕ) × (after : TypeIds) × (claim_id (record { values = values; ids = ids })
        ≡ some (id, after))
      × IsShared after (id ∷ held)
      × Claimed (record { values = values; ids = ids }) after
unfolding claim_id increase push_ids
claim_from values [] held v =
    let grown = increase-IsShared (record { values = values; ids = [] }) held v in
    (
      length values + 99,
      record { values = values ++ replicate num none; ids = push_ids 99 (length values) [] },
      refl,
      take-IsShared (values ++ replicate num none) (length values + 99)
          (push_ids 99 (length values) []) held grown,
      record {
        stays = kept_there values num;
        stood = was_there values num;
        sizes = inr (
          length-append values (replicate num none)
              ∙ ap (λ n. length values + n) (length-replicate {A = Option ℕ} num none),
          refl,
          length-push_ids 99 (length values) [],
        );
      },
    )
claim_from values (id ∷ ids) held v = (
  id,
  record { values = values; ids = ids },
  refl,
  take-IsShared values id ids held v,
  record { stays = λ j c e. e; stood = λ j c e. e; sizes = inl (refl, refl) },
)

pub claim_id-IsShared :
    (t : TypeIds) (held : List ℕ)
    → IsShared t held
    → (id : ℕ) × (after : TypeIds) × (claim_id t ≡ some (id, after))
      × IsShared after (id ∷ held)
      × Claimed t after
claim_id-IsShared t held v = claim_from t.values t.ids held v

pub reclaim_id-IsShared :
    (t : TypeIds) (held : List ℕ) (id : ℕ)
    → IsShared t held
    → 0 < count id held
    → (after : TypeIds) × (reclaim_id id t ≡ some after) × IsShared after (erase id held)
unfolding reclaim_id
reclaim_id-IsShared t held id v h =
    let free : count id t.ids ≡ 0 = ground (arith, v id) in
    let known : ltb id (length t.values) ≡ true = ground (arith, v id) in
    (
      record t { ids = id ∷ t.ids },
      rw known rw free refl,
      λ x. ground (arith, v x, count-erase x id held h),
    )

pub set_value-IsShared :
    (t : TypeIds) (held : List ℕ) (value : Option ℕ) (id : ℕ)
    → IsShared t held
    → 0 < count id held
    → (after : TypeIds) × (set_value value id t ≡ some after) × IsShared after held
unfolding set_value
set_value-IsShared t held value id v h =
    let known : ltb id (length t.values) ≡ true = ground (arith, v id) in
    (
      record t { values = set t.values id value },
      rw known refl,
      λ x. v x ∙ ap (λ n. if ltb x n then 1 else 0) (sym (length-set t.values id value)),
    )

-- What a client does goes through and keeps the ids shared.
step-IsShared :
    (a : Action) (t : TypeIds) (held : List ℕ)
    → IsShared t held
    → (after : TypeIds) × (kept : List ℕ) × (step a t held ≡ some (after, kept))
      × IsShared after kept
unfolding step
step-IsShared claim_action t held v =
    let r = claim_id-IsShared t held v in (r.1, r.0 ∷ held, rw (r.2, step) refl, r.3)
step-IsShared (reclaim_action id) t held v = elim (Bool-cases (count id held == 0)) [
  | inl e ↦ (t, held, if_true _ _ e, v)
  | inr e ↦
      let r = reclaim_id-IsShared t held id v (ground arith) in
      (r.0, erase id held, if_false _ _ e ∙ (rw r.1 refl), r.2)
]
step-IsShared (set_action value id) t held v = elim (Bool-cases (count id held == 0)) [
  | inl e ↦ (t, held, if_true _ _ e, v)
  | inr e ↦
      let r = set_value-IsShared t held value id v (ground arith) in
      (r.0, held, if_false _ _ e ∙ (rw r.1 refl), r.2)
]

run-IsShared :
    (actions : List Action) (t : TypeIds) (held : List ℕ)
    → IsShared t held
    → (after : TypeIds) × (kept : List ℕ) × (run actions t held ≡ some (after, kept))
      × IsShared after kept
unfolding run
run-IsShared [] t held v = (t, held, refl, v)
run-IsShared (a ∷ later) t held v =
    let first = step-IsShared a t held v in
    let rest = run-IsShared later (first.0) (first.1) (first.3) in
    (rest.0, rest.1, (rw (first.2, run) (rest.2)), rest.3)

-- However the clients claim ids, and give back or set the values of ids that they hold, from a new object on, no
-- operation fails, and then each number below the size is free or is held once, and no other number is either.
pub run-new_shared :
    (actions : List Action)
    → (after : TypeIds) × (kept : List ℕ) × (run actions new [] ≡ some (after, kept))
      × ((x : ℕ)
          → count x after.ids + count x kept ≡ (if ltb x (length after.values) then 1 else 0))
unfolding new
run-new_shared actions =
    run-IsShared actions new []
      (λ x. let e : ltb x 0 ≡ false = ground arith in sym (if_false _ _ e))
