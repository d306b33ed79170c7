-- ===== src/TcpService/Valid.antt =====
-- What holds of the ids of one loop in every execution.
use netxy.Base.{ℕ, ◌+◌, ◌%◌, ◌^◌, ◌≤◌, ◌<◌, ◌≡◌, some, length, get_elem?, total}
use netxy.TypeIds.Held.{IsShared}
use netxy.TcpService.{Sessions, loop_index_of, index_of, iid_of, alive}
use netxy.TcpService.Ids.{indices}

-- The connections that are not deleted hold their places, and stand there, alone; each connection has the
-- id of its number; the table grows in steps of 100.
pub record Inv (loop_index : ℕ) (s : Sessions) : Type 0 where
  pub shared : IsShared s.data_sockets (indices s.sockets)
  pub stands :
      (c id : ℕ)
      → get_elem? s.sockets c ≡ some (some id)
      → get_elem? s.data_sockets.values (index_of id) ≡ some (some c)
  pub owner :
      (i c : ℕ)
      → get_elem? s.data_sockets.values i ≡ some (some c)
      → (id : ℕ) × (get_elem? s.sockets c ≡ some (some id)) × (index_of id ≡ i)
  pub named : (c id : ℕ) → get_elem? s.sockets c ≡ some (some id) → get_elem? s.given c ≡ some id
  pub fields :
      (c id : ℕ)
      → get_elem? s.given c ≡ some id
      → (loop_index_of id ≡ loop_index)
        × (iid_of id ≡ c)
        × (index_of id < length s.data_sockets.values)
  pub lengths : (length s.given ≡ length s.sockets) × (s.inc_id ≡ length s.sockets)
  pub few : length s.sockets ≤ 2 ^ 31
  pub sizes :
      (length s.data_sockets.ids + total alive s.sockets ≡ length s.data_sockets.values)
      × (length s.data_sockets.values % 100 ≡ 0)
      × (length s.data_sockets.values ≤ 65500)
