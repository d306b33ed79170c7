-- ===== src/TypeIds.antt =====
-- src/utils/Typeids.h: numbers given out for values. The ids that are free are kept with the last of the
-- vector first; `none` is the exception, or a failed assert. A value is a pointer, `none` for nullptr.
pub mod Slots
pub mod Held
mod Tests
use netxy.Base.{
  ℕ, zero, suc, ◌+◌, ◌≡◌, Bool, true, false, not, ◌&&◌, Option, none, some, List, [], ◌∷◌, ◌++◌,
  ltb, ◌==◌, length, replicate, get_elem?, set, count, if◌then◌else◌,
}

pub record TypeIds : Type 0 where
  pub values : List (Option ℕ)
  pub ids : List ℕ

-- the constructor
unfoldable pub new : TypeIds
new = record { values = []; ids = [] }

-- `_NUM`
abbrev pub num : ℕ
num = 100

-- the loop of `increase`, with `oldsize`
unfoldable pub push_ids : ℕ → ℕ → List ℕ → List ℕ
push_ids zero oldsize ids = ids
push_ids (suc i) oldsize ids = (oldsize + i) ∷ push_ids i oldsize ids

-- `increase`
unfoldable pub increase : TypeIds → TypeIds
increase t = record {
  values = t.values ++ replicate num none;
  ids = push_ids num (length t.values) t.ids;
}

-- `claimID`
unfoldable pub claim_id : TypeIds → Option (ℕ × TypeIds)
claim_id t =
    let filled : TypeIds = elim t.ids [ [] ↦ increase t | id ∷ ids ↦ t ] in
    elim filled.ids [ [] ↦ none | id ∷ ids ↦ some (id, record filled { ids = ids }) ]

-- `reclaimID`
unfoldable pub reclaim_id : ℕ → TypeIds → Option TypeIds
reclaim_id id t =
    if ltb id (length t.values) && (count id t.ids == 0)
    then some (record t { ids = id ∷ t.ids })
    else none

-- `set`
unfoldable pub set_value : Option ℕ → ℕ → TypeIds → Option TypeIds
set_value v id t =
    if ltb id (length t.values) then some (record t { values = set t.values id v }) else none

-- `get`
unfoldable pub get_value : ℕ → TypeIds → Option (Option ℕ)
get_value id t = get_elem? t.values id
