-- ===== src/Connector/Late.antt =====
-- What `checkTimeout` does with the connections whose time has come, and with the others.
use netxy.Base.{
  ℕ, ◌+◌, ◌≡◌, sym, ◌∙◌, Bool, Option, none, List, [], ◌∷◌, ◌++◌, leb, Bool-cases, inl, inr,
  append_assoc, append-nil, if◌then◌else◌,
}
use netxy.Connector.{ConnectingInfo, PollOps, Connector, erase_fd, expire, check_timeout}

-- has the time of a connection come?
abbrev is_late : ℕ → ConnectingInfo → Bool
is_late now c = leb (c.start_connect_time + c.timeout) now

abbrev in_time : ℕ → List ConnectingInfo → List ConnectingInfo
in_time now [] = []
in_time now (c ∷ infos) = if is_late now c then in_time now infos else c ∷ in_time now infos

abbrev late_calls : ℕ → List ConnectingInfo → List (Option ℕ × ℕ)
late_calls now [] = []
late_calls now (c ∷ infos) =
    if is_late now c then (none, c.uid) ∷ late_calls now infos else late_calls now infos

abbrev late_fds : ℕ → List ConnectingInfo → List ℕ
late_fds now [] = []
late_fds now (c ∷ infos) = if is_late now c then c.fd ∷ late_fds now infos else late_fds now infos

module _ (o : PollOps) where
  expire_lem :
      (now : ℕ) (passed infos : List ConnectingInfo) (s : Connector o)
      → ((expire o now passed infos s).connecting_infos ≡ passed ++ in_time now infos)
        × ((expire o now passed infos s).calls ≡ s.calls ++ late_calls now infos)
        × ((expire o now passed infos s).closed ≡ s.closed ++ late_fds now infos)
  unfolding expire
  expire_lem now passed [] s = (sym (append-nil _), sym (append-nil _), sym (append-nil _))
  expire_lem now passed (c ∷ infos) s = elim (Bool-cases (is_late now c)) [
    | inl e ↦
        let gone : Connector o = record s {
          fd_set = o.del s.fd_set c.fd;
          connecting_fds = erase_fd c.fd s.connecting_fds;
          closed = s.closed ++ c.fd ∷ [];
          calls = s.calls ++ (none, c.uid) ∷ [];
        } in
        let (kept, calls, closed) = expire_lem now passed infos gone in
        rw (e, expire) (kept, calls ∙ append_assoc s.calls _ _, closed ∙ append_assoc s.closed _ _)
    | inr e ↦
        let (kept, calls, closed) = expire_lem now (passed ++ c ∷ []) infos s in
        rw (e, expire) (kept ∙ append_assoc passed _ _, calls, closed)
  ]

  -- checkTimeout keeps the connections whose time has not come, in their order, and for each other one, in
  -- their order, it calls the callback with -1 and the uid of its request, and closes its descriptor.
  check_timeout_lem :
      (now : ℕ) (s : Connector o)
      → ((check_timeout o now s).connecting_infos ≡ in_time now s.connecting_infos)
        × ((check_timeout o now s).calls ≡ s.calls ++ late_calls now s.connecting_infos)
        × ((check_timeout o now s).closed ≡ s.closed ++ late_fds now s.connecting_infos)
  unfolding check_timeout
  check_timeout_lem now s = expire_lem now [] s.connecting_infos s
