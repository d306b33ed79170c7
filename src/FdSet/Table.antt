-- ===== src/FdSet/Table.antt =====
-- The entries of an fdset as a table from descriptors: what finding, changing, adding and removing
-- an entry do to every other.
use mathlib.Core.Option
use netxy.Base.{
  ℕ, ◌≡◌, refl, ◌-◌, ◌<◌, inl, inr, Bool-cases, true, none, some, List, [], ◌∷◌, ◌++◌, arith, ◌==◌,
  length, is_some, if◌then◌else◌,
}
use netxy.FdSet.{PollFd, find, change, try_remove}

-- No descriptor has two entries.
abbrev pub Distinct : List PollFd → Type 0
Distinct [] = Unit
Distinct (p ∷ ps) = (find ps p.fd ≡ none) × Distinct ps

-- An edit leaves the descriptor alone.
abbrev pub KeepsFd : (PollFd → PollFd) → Type 0
KeepsFd edit = (p : PollFd) → (edit p).fd ≡ p.fd

pub find-change :
    (edit : PollFd → PollFd) (ps : List PollFd) (a b : ℕ)
    → KeepsFd edit
    → find (change edit ps a) b ≡ (if a == b then Option.map edit (find ps b) else find ps b)
unfolding find change
find-change edit [] a b k = ground arith
find-change edit (p ∷ ps) a b k = ground (arith, k p, find-change edit ps a b k)

pub find-append :
    (ps : List PollFd) (p : PollFd) (b : ℕ)
    → find (ps ++ (p ∷ [])) b
      ≡ (if is_some (find ps b) then find ps b else (if p.fd == b then some p else none))
unfolding find
find-append [] p b = refl
find-append (q ∷ ps) p b = ground (arith, find-append ps p b)

pub find-try_remove :
    (ps : List PollFd) (a b : ℕ)
    → Distinct ps
    → find (try_remove ps a) b ≡ (if a == b then none else find ps b)
unfolding find try_remove
find-try_remove [] a b d = ground arith
find-try_remove (p ∷ ps) a b d = ground (arith, find-try_remove ps a b d.1)

pub Distinct-change :
    (edit : PollFd → PollFd) (ps : List PollFd) (a : ℕ)
    → KeepsFd edit
    → Distinct ps
    → Distinct (change edit ps a)
unfolding change
Distinct-change edit [] a k d = d
Distinct-change edit (p ∷ ps) a k d =
    let later = Distinct-change edit ps a k d.1 in
    elim (Bool-cases (p.fd == a)) [
      | inl h ↦ rw h (rw (k p) d.0, d.1)
      | inr h ↦ rw h (ground (arith, d.0, find-change edit ps a p.fd k), later)
    ]

pub Distinct-append :
    (ps : List PollFd) (p : PollFd) → find ps p.fd ≡ none → Distinct ps → Distinct (ps ++ (p ∷ []))
unfolding find
Distinct-append [] p e d = (refl, d)
Distinct-append (q ∷ ps) p e d =
    (ground (arith, d.0, find-append ps p q.fd), Distinct-append ps p (ground arith) d.1)

pub Distinct-try_remove : (ps : List PollFd) (a : ℕ) → Distinct ps → Distinct (try_remove ps a)
unfolding try_remove
Distinct-try_remove [] a d = d
Distinct-try_remove (p ∷ ps) a d =
    let later = Distinct-try_remove ps a d.1 in
    elim (Bool-cases (p.fd == a)) [
      | inl h ↦ rw h d.1
      | inr h ↦ rw h (ground (arith, d.0, find-try_remove ps a p.fd d.1), later)
    ]

pub length-change :
    (edit : PollFd → PollFd) (ps : List PollFd) (a : ℕ) → length (change edit ps a) ≡ length ps
unfolding change
length-change edit [] a = refl
length-change edit (p ∷ ps) a = ground (arith, length-change edit ps a)

length-found : (ps : List PollFd) (a : ℕ) → is_some (find ps a) ≡ true → 0 < length ps
unfolding find
length-found [] a h = cc
length-found (p ∷ ps) a h = omega arith

pub length-try_remove :
    (ps : List PollFd) (a : ℕ)
    → length (try_remove ps a) ≡ (if is_some (find ps a) then length ps - 1 else length ps)
unfolding try_remove find
length-try_remove [] a = refl
length-try_remove (p ∷ ps) a = ground (arith, length-try_remove ps a, length-found ps a)
