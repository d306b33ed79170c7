-- ===== src/FdSet/Interest.antt =====
-- What the poller is asked to watch, after `ox_fdset_add` and `ox_fdset_del`.
use mathlib.Core.Option
use netxy.Base.{
  ℕ, ◌+◌, ◌≤◌, ◌≡◌, refl, ap, Bool, true, false, Option, none, some, List, [], ◌∷◌, arith, ◌==◌,
  ltb, length, length-append, is_some, if◌then◌else◌, inl, inr, Bool-cases, Option-cases, replicate,
  ◌||◌, ◌&&◌,
}
use netxy.FdSet.{
  PollFd, FdSet, grow, with_entry, Checks, Masks, upstep_pollfd, find, change, wanted, add,
  unwanted, del_found, del,
}
use netxy.FdSet.Bits.{Flags, is_zero, clear-or_zero}
use netxy.FdSet.Table.{
  Distinct, find-change, find-append, find-try_remove, Distinct-change, Distinct-append,
  Distinct-try_remove, length-change, length-try_remove,
}

pub record IsValid (f : FdSet) : Type 0 where
  pub once : Distinct f.poll_fds
  pub fits : length f.poll_fds ≤ f.limit_size

abbrev pub read_only : Checks
read_only = record { read = true; write = false; error = false }

-- the events that the set asks for at a descriptor, `none` if it has no entry
abbrev pub events_at : FdSet → ℕ → Option Flags
events_at f fd = Option.map (λ p. p.events) (find f.poll_fds fd)

-- whether an entry can be added: there is room, or the array can grow
abbrev pub has_room : Bool → FdSet → Bool
has_room got f = ltb (length f.poll_fds) f.limit_size || got

abbrev pub events_or : Flags → Option Flags → Flags
events_or zero none = zero
events_or zero (some e) = e

grow_lem :
    (got : Bool) (f : FdSet)
    → IsValid f
    → ((grow got f).poll_fds ≡ f.poll_fds)
      × (f.limit_size ≤ (grow got f).limit_size)
      × (ltb (length f.poll_fds) (grow got f).limit_size ≡ has_room got f)
unfolding grow upstep_pollfd
grow_lem true f v = ground arith
grow_lem false f v = ground arith

with_entry_lem :
    (fresh : PollFd) (ps : List PollFd)
    → Distinct ps
    → Distinct (with_entry fresh ps) × (length (with_entry fresh ps) ≤ length ps + 1)
unfolding with_entry
with_entry_lem fresh ps d = elim (Option-cases (find ps fresh.fd)) [
  | inl e ↦ rw e (Distinct-append ps fresh e d, omega (arith, length-append ps (fresh ∷ [])))
  | inr (p, e) ↦ rw e (d, omega arith)
]

find-with_entry :
    (fresh : PollFd) (ps : List PollFd) (b : ℕ)
    → find (with_entry fresh ps) b
      ≡ (if is_some (find ps b) then find ps b else (if fresh.fd == b then some fresh else none))
unfolding with_entry
find-with_entry fresh ps b = ground (arith, find-append ps fresh b)

module _ (m : Masks) where
  -- `ox_fdset_add` keeps one entry to a descriptor, within the array.
  add-IsValid :
      (got : Bool) (zero stale : Flags) (f : FdSet) (fd : ℕ) (c : Checks)
      → IsValid f
      → IsValid (add m got zero stale f fd c)
  unfolding add
  add-IsValid got zero stale f fd c v =
      let g = grow got f in
      let (same, more, _) = grow_lem got f v in
      let once : Distinct g.poll_fds = rw same v.once in
      let fresh : PollFd = record { fd = fd; events = zero; revents = stale } in
      let (distinct, short) = with_entry_lem fresh g.poll_fds once in
      let edit : PollFd → PollFd = λ p. record p { events = wanted m c p.events } in
      elim (Bool-cases (ltb (length g.poll_fds) g.limit_size)) [
        | inl h ↦ rw h (record {
          once = Distinct-change edit (with_entry fresh g.poll_fds) fd (λ p. refl) distinct;
          fits = ground (arith, h, short, length-change edit (with_entry fresh g.poll_fds) fd);
        })
        | inr h ↦ rw h (record { once = once; fits = rw same (omega arith) })
      ]

  -- `ox_fdset_add` asks for the read and write events of the given check types at its descriptor,
  -- besides what was asked for before, and changes nothing at any other. Without room it does nothing.
  events_at-add :
      (got : Bool) (zero stale : Flags) (f : FdSet) (fd : ℕ) (c : Checks) (b : ℕ)
      → IsValid f
      → events_at (add m got zero stale f fd c) b ≡ (
          if has_room got f && (fd == b)
          then some (wanted m c (events_or zero (events_at f fd)))
          else events_at f b)
  unfolding add
  events_at-add got zero stale f fd c b v =
      let (same, _, room) = grow_lem got f v in
      let fresh : PollFd = record { fd = fd; events = zero; revents = stale } in
      let edit : PollFd → PollFd = λ p. record p { events = wanted m c p.events } in
      rw (same, room)
        (ground (
          arith,
          same,
          find-change edit (with_entry fresh f.poll_fds) fd b (λ p. refl),
          find-with_entry fresh f.poll_fds b,
        ))

  -- what is left of an entry's events, if anything is
  abbrev pub left_of : Checks → Flags → Option Flags
  left_of c e = if is_zero (unwanted m c e) then none else some (unwanted m c e)

  abbrev pub left_at : Checks → Option Flags → Option Flags
  left_at c none = none
  left_at c (some e) = left_of c e

  module _ (f : FdSet) (fd : ℕ) (c : Checks) (v : IsValid f) where
    entries : List PollFd
    entries = change (λ q. record q { events = unwanted m c q.events }) f.poll_fds fd

    entries-Distinct : Distinct entries
    unfolding entries
    entries-Distinct = Distinct-change _ f.poll_fds fd (λ p. refl) v.once

    entries_fit : length entries ≤ f.limit_size
    unfolding entries
    entries_fit =
        omega
          (arith, length-change (λ q. record q { events = unwanted m c q.events }) f.poll_fds fd)

    del_found-IsValid : (p : PollFd) → IsValid (del_found m f fd c p)
    unfolding del_found entries
    del_found-IsValid p = elim (Bool-cases (is_zero (unwanted m c p.events))) [
      | inl h ↦ rw h (record {
        once = Distinct-try_remove entries fd entries-Distinct;
        fits = ground (arith, entries_fit, length-try_remove entries fd);
      })
      | inr h ↦ rw h (record { once = entries-Distinct; fits = entries_fit })
    ]

    -- `ox_fdset_del` keeps one entry to a descriptor, within the array.
    del-IsValid : IsValid (del m f fd c)
    unfolding del
    del-IsValid = elim (Option-cases (find f.poll_fds fd)) [
      | inl e ↦ rw (e, del) v
      | inr (p, e) ↦ rw (e, del) (del_found-IsValid p)
    ]

    events_at-del_found :
        (p : PollFd) (b : ℕ)
        → find f.poll_fds fd ≡ some p
        → events_at (del_found m f fd c p) b
          ≡ (if fd == b then left_of c p.events else events_at f b)
    unfolding del_found entries
    events_at-del_found p b e = elim (Bool-cases (is_zero (unwanted m c p.events))) [
      | inl h ↦ rw h (ground (arith, find-try_remove entries fd b entries-Distinct, changed))
      | inr h ↦ rw h (ground (arith, changed))
    ]
      where
        changed : find entries b ≡ (
            if fd == b
            then Option.map {A = PollFd}
                (λ q. record q { events = unwanted m c q.events })
                (find f.poll_fds b)
            else find f.poll_fds b)
        changed = find-change _ f.poll_fds fd b (λ q. refl)

    -- `ox_fdset_del` takes the events of the given check types from its descriptor, and the descriptor
    -- from the set when no event is left; it changes nothing at any other.
    events_at-del :
        (b : ℕ)
        → events_at (del m f fd c) b
          ≡ (if fd == b then left_at c (events_at f fd) else events_at f b)
    unfolding del
    events_at-del b = elim (Option-cases (find f.poll_fds fd)) [
      | inl e ↦ rw (e, del) (ground (arith, e))
      | inr (p, e) ↦ rw (e, del) (events_at-del_found p b e)
    ]

  -- Watching a new descriptor for reading and then dropping that leaves the set asking for what it
  -- asked for before, at every descriptor, whether or not there was room.
  del-add :
      (got : Bool) (stale : Flags) (f : FdSet) (fd b : ℕ)
      → IsValid f
      → find f.poll_fds fd ≡ none
      → events_at
          (del m (add m got (replicate (length m.read) false) stale f fd read_only) fd read_only)
          b
        ≡ events_at f b
  del-add got stale f fd b v absent =
      let zero = replicate (length m.read) false in
      let g = add m got zero stale f fd read_only in
      ground (
        arith,
        absent,
        events_at-del g fd read_only (add-IsValid got zero stale f fd read_only v) b,
        events_at-add got zero stale f fd read_only b v,
        events_at-add got zero stale f fd read_only fd v,
        cleared,
        same_at,
      )
    where
      cleared :
          is_zero (unwanted m read_only (wanted m read_only (replicate (length m.read) false)))
          ≡ true
      cleared = unfold wanted unwanted in clear-or_zero m.read

      same_at : fd ≡ b → events_at f fd ≡ events_at f b
      same_at e = ap (events_at f) e
