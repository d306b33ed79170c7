-- ===== src/Connector/Counts.antt =====
-- How often a descriptor or a request is in the tables, and what putting and erasing change.
use netxy.Base.{
  ℕ, ◌+◌, ◌<◌, ◌≡◌, refl, none, some, List, [], ◌∷◌, arith, ◌==◌, count, total, if◌then◌else◌,
  Bool-cases, inl, inr,
}
use mathlib.Core.Option.{some-injective}
use netxy.Connector.{ConnectingInfo, put_info, put_fd, find_info, erase_info, erase_fd}

abbrev pub has_fd : ℕ → ConnectingInfo → ℕ
has_fd fd c = if fd == c.fd then 1 else 0

-- a number is itself
pub count_self : (fd : ℕ) → ◌≡◌ {A = ℕ} (if fd == fd then 1 else 0) 1
count_self fd = ground arith

pub total-put_info :
    (w : ConnectingInfo → ℕ) (c : ConnectingInfo) (infos : List ConnectingInfo)
    → find_info c.fd infos ≡ none
    → total w (put_info c infos) ≡ total w infos + w c
unfolding find_info put_info
total-put_info w c [] e = omega arith
total-put_info w c (d ∷ infos) e = ground (arith, total-put_info w c infos)

pub count-put_fd :
    (a fd : ℕ) (fds : List ℕ)
    → count fd fds ≡ 0
    → count a (put_fd fd fds) ≡ count a fds + (if a == fd then 1 else 0)
unfolding put_fd
count-put_fd a fd [] e = omega arith
count-put_fd a fd (d ∷ fds) e = ground (arith, count-put_fd a fd fds)

pub find_info-none :
    (fd : ℕ) (infos : List ConnectingInfo) → find_info fd infos ≡ none → total (has_fd fd) infos ≡ 0
unfolding find_info
find_info-none fd [] e = refl
find_info-none fd (c ∷ infos) e = ground (arith, find_info-none fd infos)

pub find_info-fd :
    (fd : ℕ) (infos : List ConnectingInfo) {c : ConnectingInfo}
    → find_info fd infos ≡ some c
    → c.fd ≡ fd
unfolding find_info
find_info-fd fd [] e = cc
find_info-fd fd (d ∷ infos) {c} e = ground (arith, find_info-fd fd infos {c = c})

pub total-erase_info :
    (w : ConnectingInfo → ℕ) (fd : ℕ) (infos : List ConnectingInfo) {c : ConnectingInfo}
    → find_info fd infos ≡ some c
    → total w infos ≡ w c + total w (erase_info fd infos)
unfolding find_info erase_info
total-erase_info w fd [] e = cc
total-erase_info w fd (d ∷ infos) {c} e = elim (Bool-cases (d.fd == fd)) [
  | inl t ↦
      let same : d ≡ c = some-injective _ _ (rw (t, find_info) at e) in
      rw (t, erase_info) (rw same refl)
  | inr t ↦
      let later = total-erase_info w fd infos (rw (t, find_info) at e) in
      rw (t, erase_info) (omega (arith, later))
]

pub count-erase_fd :
    (a fd : ℕ) (fds : List ℕ)
    → 0 < count fd fds
    → count a fds ≡ count a (erase_fd fd fds) + (if a == fd then 1 else 0)
unfolding erase_fd
count-erase_fd a fd [] h = absurd (omega arith)
count-erase_fd a fd (d ∷ fds) h = ground (arith, count-erase_fd a fd fds)

pub count-erase_fd_absent :
    (a fd : ℕ) (fds : List ℕ) → count fd fds ≡ 0 → count a (erase_fd fd fds) ≡ count a fds
unfolding erase_fd
count-erase_fd_absent a fd [] h = refl
count-erase_fd_absent a fd (d ∷ fds) h = ground (arith, count-erase_fd_absent a fd fds)
