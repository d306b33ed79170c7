-- ===== src/TimeAction/Ids.antt =====
-- Which ids are free, and how the parts of the timers change that.
use netxy.Base.{
  ℕ, zero, suc, ◌+◌, ◌<◌, ◌≡◌, refl, sym, ap, ◌∙◌, ◌&&◌, Option, none, some, [], arith, ltb, leb,
  ◌==◌, length, count, count-push, total-unsnoc, unsnoc-nil, length-unsnoc, weight_of,
  if◌then◌else◌, Option-cases, inl, inr,
}
use netxy.Stack.{StackOps, IsStack}
use netxy.Heap.{HeapOps}
use netxy.TimeAction.{push_ids, move_ids}

-- 1 for an id that is the one given
abbrev pub is_id : Option ℕ → ℕ → ℕ
is_id none id = 0
is_id (some k) id = if id == k then 1 else 0

module _ (s : StackOps ℕ) (h : HeapOps) (l : IsStack s) where
  abbrev pub free_count : ℕ → s.Carrier → ℕ
  free_count id c = count id (l.items c)

  pub push_free :
      (c : s.Carrier) (i id : ℕ)
      → free_count id (s.push c i).1 ≡ free_count id c + (if id == i then 1 else 0)
  push_free c i id = ap (count id) (l.push_lem c i) ∙ count-push id i (l.items c)

  pub pop_free :
      (c : s.Carrier) (id : ℕ)
      → free_count id c ≡ is_id (s.pop_back c).0 id + free_count id (s.pop_back c).1
  pop_free c id =
      total-unsnoc (λ k. if id == k then 1 else 0) (l.items c)
      ∙ sym (
          ap (λ t. weight_of (λ k. if id == k then 1 else 0) t.0 + count id t.1) (l.pop_back_lem c))
      ∙ same (s.pop_back c).0
    where
      same :
          (o : Option ℕ)
          → weight_of (λ k. if id == k then 1 else 0) o + count id (l.items (s.pop_back c).1)
            ≡ is_id o id + count id (l.items (s.pop_back c).1)
      same none = refl
      same (some k) = refl

  -- The new ids are those from `i` on, once each.
  pub push_ids_lem :
      (i rounds id : ℕ) (c : s.Carrier)
      → free_count id (push_ids s h i rounds c)
        ≡ free_count id c + (if leb i id && ltb id (i + rounds) then 1 else 0)
  unfolding push_ids
  push_ids_lem i zero id c = ground arith
  push_ids_lem i (suc rounds) id c =
      ground (arith, push_ids_lem (i + 1) rounds id (s.push c i).1, push_free c i id)

  -- With a round for each, all the old ids are moved.
  pub move_ids_lem :
      (rounds id : ℕ) (old c : s.Carrier)
      → length (l.items old) < rounds
      → free_count id (move_ids s h rounds old c) ≡ free_count id c + free_count id old
  unfolding move_ids
  move_ids_lem zero id old c enough = absurd (omega arith)
  move_ids_lem (suc rounds) id old c enough = elim (Option-cases (s.pop_back old).0) [
    | inl e ↦
        let empty : l.items old ≡ [] =
          unsnoc-nil (l.items old) (sym (ap (λ t. t.0) (l.pop_back_lem old)) ∙ e) in
        rw (e, move_ids) (omega (arith, ap (count id) empty))
    | inr (k, e) ↦
        let shorter = length-unsnoc (l.items old) (sym (ap (λ t. t.0) (l.pop_back_lem old)) ∙ e) in
        let rest = (s.pop_back old).1 in
        rw (e, move_ids)
          (omega (
            arith,
            move_ids_lem rounds id rest (s.push c k).1
                (omega (arith, shorter, ap (λ t. length {A = ℕ} t.1) (l.pop_back_lem old))),
            push_free c k id,
            pop_free old id,
            ap (λ o. is_id o id) e,
          ))
  ]
