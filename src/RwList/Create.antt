-- ===== src/RwList/Create.antt =====
-- What `ox_rwlist_new` of src/utils/rwlist.c tests of its allocations.
use netxy.Base.{◌≡◌, Bool, true, none, some, arith, is_some}
use netxy.RwList.{Parts, new}

-- Whatever `ox_rwlist_new` returns has two of its three stacks and its mutex.
pub new_parts :
    {C : Type 0} (got : Bool) (p : Parts C) {q : Parts C}
    → new got p ≡ some q
    → (q ≡ p) × (is_some q.local_write ≡ true) × (is_some q.shared ≡ true) × (q.mutex ≡ true)
unfolding new
new_parts true p e = ground arith
new_parts _ p e = ground arith

-- The third stack is not tested: when only its allocation fails, the list is returned all the same,
-- with a NULL `local_read`.
new_untested :
    {C : Type 0} (p : Parts C)
    → is_some p.local_write ≡ true
    → is_some p.shared ≡ true
    → p.mutex ≡ true
    → p.local_read ≡ none
    → (q : Parts C) × (new true p ≡ some q) × (q.local_read ≡ none)
unfolding new
new_untested p w sh m lacks = (p, ground arith, lacks)
