-- ===== src/TcpService/Ids.antt =====
-- The fields of a session id, and the places in the table that the ids of a list name.
use netxy.Base.{
  ℕ, zero, suc, ◌+◌, ◌^◌, ◌<◌, ◌≡◌, Option, none, some, List, [], ◌∷◌, ◌++◌, arith, ◌==◌, get_elem?,
  set, count, if◌then◌else◌,
}
use netxy.TcpService.{pack, loop_index_of, index_of, iid_of}

-- An id whose fields fit their types has them.
pub pack_fields :
    (l i k : ℕ)
    → l < 2 ^ 16
    → i < 2 ^ 16
    → k < 2 ^ 32
    → (loop_index_of (pack l i k) ≡ l) × (index_of (pack l i k) ≡ i) × (iid_of (pack l i k) ≡ k)
unfolding pack loop_index_of index_of iid_of
pack_fields l i k hl hi hk = omega arith

-- the places of the connections that are not deleted
abbrev pub indices : List (Option ℕ) → List ℕ
indices [] = []
indices (none ∷ cs) = indices cs
indices (some id ∷ cs) = index_of id ∷ indices cs

pub count-indices-snoc :
    (x id : ℕ) (cs : List (Option ℕ))
    → count x (indices (cs ++ some id ∷ []))
      ≡ count x (indices cs) + (if x == index_of id then 1 else 0)
count-indices-snoc x id [] = omega arith
count-indices-snoc x id (none ∷ cs) = count-indices-snoc x id cs
count-indices-snoc x id (some d ∷ cs) = omega (arith, count-indices-snoc x id cs)

pub count-indices-set :
    (x : ℕ) (cs : List (Option ℕ)) (c : ℕ) {id : ℕ}
    → get_elem? cs c ≡ some (some id)
    → count x (indices cs) ≡ count x (indices (set cs c none)) + (if x == index_of id then 1 else 0)
count-indices-set x [] c e = cc
count-indices-set x (none ∷ cs) zero e = cc
count-indices-set x (some d ∷ cs) zero e = ground (arith, e)
count-indices-set x (none ∷ cs) (suc c) e = count-indices-set x cs c e
count-indices-set x (some d ∷ cs) (suc c) e = omega (arith, count-indices-set x cs c e)

-- A connection that is not deleted holds its place.
pub count-indices-pos :
    (cs : List (Option ℕ)) (c : ℕ) {id : ℕ}
    → get_elem? cs c ≡ some (some id)
    → 0 < count (index_of id) (indices cs)
count-indices-pos cs c {id} e = ground (arith, count-indices-set (index_of id) cs c e)
