-- ===== src/HttpFormat/Query.antt =====
-- `HttpQueryParameter` joins keys and values with = and &.
use netxy.Base.{◌≡◌, refl, ◌∙◌, false, ℕ, List, [], ◌∷◌, ◌++◌, append_assoc}
use netxy.HttpFormat.{bytes_of, is_empty, add_parameter}

-- the parameters, one after the other
add_all : List (List ℕ × List ℕ) → List ℕ → List ℕ
add_all [] parameter = parameter
add_all ((k, v) ∷ ps) parameter = add_all ps (add_parameter k v parameter)

joined : List (List ℕ × List ℕ) → List ℕ
joined [] = []
joined ((k, v) ∷ []) = k ++ (bytes_of "=" ++ v)
joined ((k, v) ∷ (p ∷ ps)) = k ++ (bytes_of "=" ++ (v ++ (bytes_of "&" ++ joined (p ∷ ps))))

is_empty_behind : (k v : List ℕ) → is_empty (k ++ bytes_of "=" ++ v) ≡ false
is_empty_behind [] v = refl
is_empty_behind (c ∷ k) v = refl

is_empty_more : (xs k v : List ℕ) → is_empty (xs ++ bytes_of "&" ++ k ++ bytes_of "=" ++ v) ≡ false
is_empty_more [] k v = refl
is_empty_more (x ∷ xs) k v = refl

add_all_behind :
    (p : List ℕ × List ℕ) (ps : List (List ℕ × List ℕ)) (parameter : List ℕ)
    → is_empty parameter ≡ false
    → add_all (p ∷ ps) parameter ≡ parameter ++ (bytes_of "&" ++ joined (p ∷ ps))
unfolding add_all add_parameter joined
add_all_behind (k, v) [] parameter e = rw e (simp append_assoc)
add_all_behind (k, v) (q ∷ ps) parameter e = rw e (
    add_all_behind q ps (parameter ++ bytes_of "&" ++ k ++ bytes_of "=" ++ v)
      (is_empty_more parameter k v)
    ∙ simp append_assoc)

-- However many keys and values are added to an empty query, it is all of them, key=value, with & between.
add_all-joined : (ps : List (List ℕ × List ℕ)) → add_all ps [] ≡ joined ps
unfolding add_all add_parameter joined
add_all-joined [] = refl
add_all-joined ((k, v) ∷ []) = append_assoc k (bytes_of "=") v
add_all-joined ((k, v) ∷ (q ∷ ps)) =
    add_all_behind q ps (k ++ bytes_of "=" ++ v) (is_empty_behind k v) ∙ simp append_assoc
