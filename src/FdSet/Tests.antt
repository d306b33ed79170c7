-- ===== src/FdSet/Tests.antt =====
-- Runs of the fdset with flags of two bits, and its theorems at them.
use netxy.Base.{◌≡◌, refl, true, false, [], ◌∷◌, arith}
use netxy.FdSet.{FdSet, Checks, Masks, upstep_pollfd, find, grow, add, check, ready, report, poll}
use netxy.FdSet.Bits.{Flags, common, is_zero}
use netxy.FdSet.Interest.{IsValid}

abbrev masks : Masks
masks = record {
  read = true ∷ false ∷ false ∷ [];
  write = false ∷ true ∷ false ∷ [];
  error = false ∷ false ∷ true ∷ [];
}

abbrev none_set : Flags
none_set = false ∷ false ∷ false ∷ []

abbrev both : Checks
both = record { read = true; write = true; error = false }

-- One descriptor, watched for reading, and an array that is full.
abbrev sample : FdSet
sample = record {
  poll_fds = record { fd = 5; events = true ∷ false ∷ false ∷ []; revents = none_set } ∷ [];
  limit_size = 1;
}

sample-IsValid : IsValid sample
unfolding find
sample-IsValid = record { once = (refl, tt); fits = omega arith }

add_at_limit : add masks false none_set none_set sample 6 both ≡ sample
unfolding add grow upstep_pollfd
add_at_limit = refl

check_after_poll :
    check masks (poll sample (ready 1 ((true ∷ false ∷ false ∷ []) ∷ []))).1 5 both ≡ true
unfolding check poll report find common is_zero
check_after_poll = refl
