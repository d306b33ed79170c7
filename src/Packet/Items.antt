-- ===== src/Packet/Items.antt =====
-- Packets as their users make and read them: an operation, then numbers and byte strings.
use netxy.Base.{ℕ, ◌%◌, ◌^◌, ◌<◌, Bool, Option, none, some, List, [], ◌∷◌, ◌++◌, length}
use netxy.Packet.{
  Packet, ReadPacket, host_to_network, write_number, write_binary, set_op, finish, read_number,
  read_binary,
}

-- What is written, and what is to be read: a number of a width, or a byte string.
pub data Item : Type 0 where
  number : ℕ → ℕ → Item
  binary : List ℕ → Item

pub data Kind : Type 0 where
  number_kind : ℕ → Kind
  binary_kind : Kind

abbrev pub kind_of : Item → Kind
kind_of (number width v) = number_kind width
kind_of (binary bs) = binary_kind

abbrev pub kinds : List Item → List Kind
kinds [] = []
kinds (x ∷ xs) = kind_of x ∷ kinds xs

abbrev pub write_item : (ℕ → Option (List ℕ)) → Item → Packet → Option Packet
write_item malloc (number width v) p = write_number malloc width v p
write_item malloc (binary bs) p = write_binary malloc bs p

unfoldable pub write_items : (ℕ → Option (List ℕ)) → List Item → Packet → Option Packet
write_items malloc [] p = some p
write_items malloc (x ∷ xs) p = elim (write_item malloc x p) [
  | none ↦ none
  | some q ↦ write_items malloc xs q
]

-- `SendPacket` with an operation, the items, and `getLen`
unfoldable pub make : (ℕ → Option (List ℕ)) → ℕ → List Item → Packet → Option Packet
make malloc op items p = elim (set_op malloc op p) [
  | none ↦ none
  | some q ↦ elim (write_items malloc items q) [ none ↦ none | some r ↦ finish r ]
]

abbrev pub read_item : Kind → ReadPacket → Option (Item × ReadPacket)
read_item (number_kind width) r = elim (read_number width r) [
  | none ↦ none
  | some (v, s) ↦ some (number width v, s)
]
read_item binary_kind r = elim (read_binary r) [ none ↦ none | some (bs, s) ↦ some (binary bs, s) ]

unfoldable pub read_items : List Kind → ReadPacket → Option (List Item × ReadPacket)
read_items [] r = some ([], r)
read_items (k ∷ ks) r = elim (read_item k r) [
  | none ↦ none
  | some (x, s) ↦ elim (read_items ks s) [ none ↦ none | some (xs, t) ↦ some (x ∷ xs, t) ]
]

-- `readPacketLen`, `readOP`, and the items
unfoldable pub read_all : List Kind → ReadPacket → Option (ℕ × ℕ × List Item × ReadPacket)
read_all ks r = elim (read_number 4 r) [
  | none ↦ none
  | some (len, s) ↦ elim (read_number 2 s) [
    | none ↦ none
    | some (op, t) ↦ elim (read_items ks t) [ none ↦ none | some (xs, u) ↦ some (len, op, xs, u) ]
  ]
]

-- The bytes of the items.
abbrev pub encode_item : Bool → Item → List ℕ
encode_item big (number width v) = host_to_network big width v
encode_item big (binary bs) = host_to_network big 4 (length bs % 2 ^ 32) ++ bs

abbrev pub encode : Bool → List Item → List ℕ
encode big [] = []
encode big (x ∷ xs) = encode_item big x ++ encode big xs

-- Numbers that their widths hold, and byte strings whose lengths 32 bits hold.
abbrev pub AllFit : List Item → Type 0
AllFit [] = Unit
AllFit (number width v ∷ xs) = (v < 256 ^ width) × AllFit xs
AllFit (binary bs ∷ xs) = (length bs < 2 ^ 32) × AllFit xs
