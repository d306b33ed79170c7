-- ===== src/Packet/Tests.antt =====
-- Packets made and read, and the claims at them.
use netxy.Base.{
  ℕ, ◌*◌, ◌^◌, ◌≤◌, ◌≡◌, refl, Bool, true, false, Option, none, some, List, [], ◌∷◌, ◌++◌, arith,
  length, if◌then◌else◌,
}
use netxy.Packet.{
  Packet, ReadPacket, to_bytes, from_bytes, host_to_network, network_to_host, read_number,
  read_binary,
}
use netxy.Packet.Items.{Item, number, binary, number_kind, binary_kind, read_items, encode}
use netxy.Packet.Bounds.{read_items-IsInside}

abbrev no_malloc : ℕ → Option (List ℕ)
no_malloc n = none

abbrev greeting : List Item
greeting = number 4 0x01020304 ∷ binary (72 ∷ 105 ∷ []) ∷ number 1 200 ∷ []

abbrev greeting_bytes : Bool → List ℕ
greeting_bytes big =
    if big
    then 0 ∷ 0 ∷ 0 ∷ 17 ∷ 0 ∷ 7 ∷ 1 ∷ 2 ∷ 3 ∷ 4 ∷ 0 ∷ 0 ∷ 0 ∷ 2 ∷ 72 ∷ 105 ∷ 200 ∷ []
    else 0 ∷ 0 ∷ 0 ∷ 17 ∷ 7 ∷ 0 ∷ 4 ∷ 3 ∷ 2 ∷ 1 ∷ 2 ∷ 0 ∷ 0 ∷ 0 ∷ 72 ∷ 105 ∷ 200 ∷ []

abbrev finished : Bool → Packet
finished big = record {
  buffer = greeting_bytes big ++ 0 ∷ 0 ∷ 0 ∷ [];
  max_len = 20;
  pos = 17;
  big_endian = big;
  is_auto_malloc = false;
  is_finish = true;
}

-- the length of a packet in the other order, read in that order
length_swapped : network_to_host false (host_to_network true 4 17) ≡ 17 * 2 ^ 24
unfolding network_to_host host_to_network to_bytes from_bytes
length_swapped = refl

length-greeting : length (encode true greeting) ≡ 11
unfolding host_to_network to_bytes
length-greeting = refl

-- a byte string whose length says more than there is
abbrev cut_short : ReadPacket
cut_short = record { buffer = 5 ∷ 0 ∷ 0 ∷ 0 ∷ 9 ∷ 7 ∷ []; pos = 0; big_endian = true }

read-cut_short :
    read_items (number_kind 1 ∷ binary_kind ∷ []) cut_short
    ≡ some (number 1 5 ∷ binary [] ∷ [], record cut_short { pos = 5 })
unfolding read_items read_number read_binary network_to_host from_bytes
read-cut_short = refl

read_items-IsInside_example : (5 ≤ 6) × (cut_short.buffer ≡ cut_short.buffer)
read_items-IsInside_example =
    read_items-IsInside (number_kind 1 ∷ binary_kind ∷ []) cut_short (omega arith) read-cut_short
