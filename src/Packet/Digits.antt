-- ===== src/Packet/Digits.antt =====
-- Numbers as bytes, in either order.
use mathlib.Core.List.{reverse, reverse-cons, reverse-reverse}
use netxy.Base.{
  ℕ, zero, suc, ◌*◌, ◌/◌, ◌^◌, ◌<◌, ◌≡◌, refl, ap, ◌∙◌, Bool, true, false, List, [], ◌∷◌, length,
  length-append, arith,
}
use netxy.Packet.{to_bytes, from_bytes, host_to_network, network_to_host}

length-to_bytes : (width v : ℕ) → length (to_bytes width v) ≡ width
unfolding to_bytes
length-to_bytes zero v = refl
length-to_bytes (suc width) v = ap suc (length-to_bytes width (v / 256))

from_bytes-to_bytes : (width v : ℕ) → v < 256 ^ width → from_bytes (to_bytes width v) ≡ v
unfolding to_bytes from_bytes
from_bytes-to_bytes zero v lt = omega arith
from_bytes-to_bytes (suc width) v lt =
    let small : v < 256 ^ width * 256 = omega arith in
    rw (from_bytes-to_bytes width (v / 256) (omega arith)) (omega arith)

length-reverse : (bs : List ℕ) → length (reverse bs) ≡ length bs
length-reverse [] = refl
length-reverse (b ∷ bs) =
    ap length (reverse-cons b bs)
    ∙ (omega (arith, length-append (reverse bs) (b ∷ []), length-reverse bs))

pub length-host_to_network :
    (convert : Bool) (width v : ℕ) → length (host_to_network convert width v) ≡ width
unfolding host_to_network
length-host_to_network true width v = length-reverse (to_bytes width v) ∙ length-to_bytes width v
length-host_to_network false width v = length-to_bytes width v

-- A number comes back in the order it was written in.
pub network_to_host-host_to_network :
    (convert : Bool) (width v : ℕ)
    → v < 256 ^ width
    → network_to_host convert (host_to_network convert width v) ≡ v
unfolding host_to_network network_to_host
network_to_host-host_to_network true width v lt =
    ap from_bytes (reverse-reverse (to_bytes width v)) ∙ from_bytes-to_bytes width v lt
network_to_host-host_to_network false width v lt = from_bytes-to_bytes width v lt
