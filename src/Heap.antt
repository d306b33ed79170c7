-- ===== src/Heap.antt =====
-- The `ox_heap_*` functions that src/utils/timeaction.c takes from "heap.h", which is not part of the
-- repository, for a heap of numbers compared by keys: an interface, and what the caller relies on. The
-- priority_queue of the standard library, in src/timer/Timer.h, is such a heap too.
-- `Heap.Model` shows that the interface can be met.
pub mod Model
use netxy.Base.{
  ℕ, ◌+◌, ◌≤◌, ◌<◌, ◌≡◌, Option, none, some, List, [], length, count, ◌==◌, if◌then◌else◌,
}

-- The keys stand for the comparison that the heap was made with.
pub record HeapOps : Type 1 where
  pub Carrier : Type 0
  pub create : ℕ → Carrier
  pub increase : Carrier → ℕ → Carrier
  pub top : Carrier → Option ℕ
  pub pop : (ℕ → ℕ) → Carrier → Carrier
  pub insert : (ℕ → ℕ) → Carrier → ℕ → Carrier

-- `Ordered key` is the heap property: the functions keep it, only the keys of what is in the heap
-- count for it, and with it the top has the least key.
pub record IsHeap (h : HeapOps) : Type 1 where
  pub items : h.Carrier → List ℕ
  pub Ordered : (ℕ → ℕ) → h.Carrier → Type 0
  pub create_items : (n : ℕ) → items (h.create n) ≡ []
  pub create_ordered : (key : ℕ → ℕ) (n : ℕ) → Ordered key (h.create n)
  pub increase_items : (c : h.Carrier) (n : ℕ) → items (h.increase c n) ≡ items c
  pub increase_ordered :
      (key : ℕ → ℕ) (c : h.Carrier) (n : ℕ) → Ordered key c → Ordered key (h.increase c n)
  pub insert_count :
      (key : ℕ → ℕ) (c : h.Carrier) (i id : ℕ)
      → count id (items (h.insert key c i)) ≡ count id (items c) + (if id == i then 1 else 0)
  pub insert_ordered :
      (key : ℕ → ℕ) (c : h.Carrier) (i : ℕ) → Ordered key c → Ordered key (h.insert key c i)
  pub top_none : (c : h.Carrier) → h.top c ≡ none → items c ≡ []
  pub top_least :
      (key : ℕ → ℕ) (c : h.Carrier) (i j : ℕ)
      → Ordered key c
      → h.top c ≡ some i
      → 0 < count j (items c)
      → key i ≤ key j
  pub pop_count :
      (key : ℕ → ℕ) (c : h.Carrier) (i id : ℕ)
      → h.top c ≡ some i
      → count id (items c) ≡ count id (items (h.pop key c)) + (if id == i then 1 else 0)
  pub pop_length :
      (key : ℕ → ℕ) (c : h.Carrier) (i : ℕ)
      → h.top c ≡ some i
      → length (items c) ≡ length (items (h.pop key c)) + 1
  pub pop_ordered : (key : ℕ → ℕ) (c : h.Carrier) → Ordered key c → Ordered key (h.pop key c)
  pub same_keys :
      (key other : ℕ → ℕ) (c : h.Carrier)
      → ((j : ℕ) → 0 < count j (items c) → key j ≡ other j)
      → Ordered key c
      → Ordered other c
