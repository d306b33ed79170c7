-- ===== src/Array.antt =====
-- src/utils/array.c: an array of elements of one size in one block of memory. An index and a number of
-- elements are not negative. `malloc` is an argument; a failed assert, and the source's reading of less
-- data than an element has, is `none`.
pub mod Elements
mod Tests
use netxy.Base.{
  ℕ, ◌+◌, ◌*◌, Bool, true, false, Option, none, some, List, ◌++◌, ltb, leb, length, take, drop,
  replicate, if◌then◌else◌,
}

-- `struct array_s`
pub record Array : Type 0 where
  pub buffer : List ℕ
  pub buffer_size : ℕ
  pub element_size : ℕ
  pub element_num : ℕ

-- `ox_array_new`
pub new : Bool → ℕ → ℕ → Option Array
new got num element_size =
    if got
    then some (record {
      buffer = replicate (num * element_size) 0;
      buffer_size = num * element_size;
      element_size = element_size;
      element_num = num;
    })
    else none

-- `ox_array_at`: the element's place in the buffer
pub at : Array → ℕ → Option ℕ
at a index = if ltb index a.element_num then some (index * a.element_size) else none

-- `memcpy` into a buffer
abbrev pub copy_to : List ℕ → ℕ → List ℕ → List ℕ
copy_to buffer place bytes = take place buffer ++ (bytes ++ drop (place + length bytes) buffer)

-- `ox_array_set`
pub set : Array → ℕ → List ℕ → Option Array
set a index bytes = elim (at a index) [
  | none ↦ none
  | some place ↦
      if ltb (length bytes) a.element_size
      then none
      else some (record a { buffer = copy_to a.buffer place (take a.element_size bytes) })
]

-- `ox_array_increase`: whether it did, and the array
pub increase : Bool → Array → ℕ → Option (Bool × Array)
increase got a increase_num =
    if leb increase_num 0
    then some (false, a)
    else if got
    then some (
      true,
      record a {
        buffer = a.buffer ++ replicate (increase_num * a.element_size) 0;
        buffer_size = a.buffer_size + increase_num * a.element_size;
        element_num = a.element_num + increase_num;
      },
    )
    else none

-- what a reader of an element finds
abbrev pub element : Array → ℕ → List ℕ
element a index = take a.element_size (drop (index * a.element_size) a.buffer)
