-- ===== src/Connector/Served.antt =====
-- A round of `pollConnectRequest` answers all the requests that it reads.
use netxy.Base.{
  ℕ, suc, ◌+◌, ◌≤◌, ◌≡◌, refl, sym, ap, none, some, List, [], ◌∷◌, arith, length, Option-cases, inl,
  inr, total, ◌==◌, if◌then◌else◌, unsnoc, unsnoc-nil, length-unsnoc, none≢some,
}
use netxy.MsgQueue.{MsgQueue, pop_back}
use netxy.Connector.{
  AsyncConnectAddr, ConnectingInfo, PollOps, find_info, ConnectAnswer, no_socket, refused,
  in_progress, connected, Connector, connect_one, poll_connect_request,
}
use netxy.Connector.Counts.{has_fd, count_self, total-put_info}

-- Does an answer give a descriptor that is to be pending?
abbrev pub gets : ℕ → ConnectAnswer → ℕ
gets fd no_socket = 0
gets fd (refused f) = 0
gets fd (connected f) = 0
gets fd (in_progress f now) = if fd == f then 1 else 0

find_info-absent :
    (fd : ℕ) (infos : List ConnectingInfo) → total (has_fd fd) infos ≡ 0 → find_info fd infos ≡ none
unfolding find_info
find_info-absent fd [] e = refl
find_info-absent fd (c ∷ infos) e = ground (arith, find_info-absent fd infos)

module _ (o : PollOps) where
  connect_one-goes :
      (addr : AsyncConnectAddr) (a : ConnectAnswer) (s : Connector o)
      → ((fd : ℕ) → gets fd a + total (has_fd fd) s.connecting_infos ≤ 1)
      → (t : Connector o) × (connect_one o addr a s ≡ some t)
        × (t.connect_requests ≡ s.connect_requests)
        × ((fd : ℕ)
            → total (has_fd fd) t.connecting_infos
              ≡ total (has_fd fd) s.connecting_infos + gets fd a)
  unfolding connect_one
  connect_one-goes addr no_socket s fresh = (_, refl, refl, λ fd. omega arith)
  connect_one-goes addr (refused f) s fresh = (_, refl, refl, λ fd. omega arith)
  connect_one-goes addr (connected f) s fresh = (_, refl, refl, λ fd. omega arith)
  connect_one-goes addr (in_progress f now) s fresh =
      let none_at : total (has_fd f) s.connecting_infos ≡ 0 =
        omega (arith, fresh f, count_self f) in
      let free = find_info-absent f s.connecting_infos none_at in
      let c : ConnectingInfo = record {
        fd = f;
        start_connect_time = now;
        timeout = addr.timeout;
        uid = addr.uid;
      } in
      rw (free, connect_one)
        (_, refl, refl, λ fd. omega (arith, total-put_info (has_fd fd) c s.connecting_infos free))

  popped-shorter :
      (q : MsgQueue AsyncConnectAddr) {addr : AsyncConnectAddr}
      → (pop_back q).0 ≡ some addr
      → suc (length (pop_back q).1.read_list) ≡ length q.read_list
  unfolding pop_back
  popped-shorter q e = elim (Option-cases (unsnoc q.read_list).0) [
    | inl h ↦ absurd (none≢some (rw (h, pop_back) at e))
    | inr (x, h) ↦ rw (h, pop_back) (length-unsnoc q.read_list h)
  ]

  none-read : (q : MsgQueue AsyncConnectAddr) → (pop_back q).0 ≡ none → q.read_list ≡ []
  unfolding pop_back
  none-read q e = elim (Option-cases (unsnoc q.read_list).0) [
    | inl h ↦ unsnoc-nil q.read_list h
    | inr (x, h) ↦ absurd (none≢some (sym (rw (h, pop_back) at e)))
  ]

  -- With an answer for each request to read, whose descriptors to be pending differ from each other and
  -- from those that are pending, pollConnectRequest comes to an end, and it leaves no request to read.
  pub poll_connect_request-served :
      (answers : List ConnectAnswer) (s : Connector o)
      → length s.connect_requests.read_list ≤ length answers
      → ((fd : ℕ) → total (gets fd) answers + total (has_fd fd) s.connecting_infos ≤ 1)
      → (t : Connector o) × (poll_connect_request o answers s ≡ some t)
        × (t.connect_requests.read_list ≡ [])
  unfolding poll_connect_request
  poll_connect_request-served [] s h fresh = elim (Option-cases (pop_back s.connect_requests).0) [
    | inl e ↦ rw (e, poll_connect_request) (s, refl, none-read s.connect_requests e)
    | inr (addr, e) ↦ absurd (omega (arith, h, popped-shorter s.connect_requests e))
  ]
  poll_connect_request-served (a ∷ answers) s h fresh =
      elim (Option-cases (pop_back s.connect_requests).0) [
        | inl e ↦ rw (e, poll_connect_request) (s, refl, none-read s.connect_requests e)
        | inr (addr, e) ↦
            let popped : Connector o = record s {
              connect_requests = (pop_back s.connect_requests).1;
            } in
            let (t, went, same, infos) =
              connect_one-goes addr a popped (λ fd. omega (arith, fresh fd)) in
            let (u, ends, empty) =
              poll_connect_request-served answers t
                (omega (
                  arith,
                  h,
                  popped-shorter s.connect_requests e,
                  ap (λ q. length q.read_list) same,
                ))
                (λ fd. omega (arith, fresh fd, infos fd)) in
            (u, rw (e, poll_connect_request) (rw went ends), empty)
      ]
