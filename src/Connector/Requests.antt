-- ===== src/Connector/Requests.antt =====
-- Each request is answered once, and each descriptor is given to the client or closed once.
use mathlib.Core.Path.{subst}
use netxy.Base.{
  ℕ, ◌+◌, ◌≡◌, ap, ◌∙◌, Option, none, some, List, [], ◌∷◌, arith, count, count-push, total,
  total-append, Option-cases, inl, inr,
}
use netxy.MsgQueue.{sync_read, pop_back}
use netxy.MsgQueue.Fifo.{total-pop_back, contents, sync_read-contents}
use netxy.Connector.{
  AsyncConnectAddr, ConnectingInfo, PollOps, find_info, ConnectAnswer, no_socket, refused,
  in_progress, connected, Connector, new, check_connect_status, expire, check_timeout, connect_one,
  poll_connect_request, Turn, ask, round, turn, run,
}
use netxy.Connector.Counts.{has_fd, total-put_info, count-put_fd, find_info-none}
use netxy.Connector.Rounds.{
  asks, holds, tells, gives, Inv, new-Inv, async_connect-Inv, check_connect_status-Inv, expire-Inv,
}

module _ (o : PollOps) where
  abbrev Kept : Option (Connector o) → Type 0
  Kept none = Unit
  Kept (some t) = Inv o t

  connect_one-Inv :
      (addr : AsyncConnectAddr) (a : ConnectAnswer) (s : Connector o)
      → (pop_back s.connect_requests).0 ≡ some addr
      → Inv o s
      → Kept
          (connect_one o addr a (record s { connect_requests = (pop_back s.connect_requests).1 }))
  unfolding connect_one
  connect_one-Inv addr no_socket s e v = record {
    requests = λ uid. omega (
      arith,
      v.requests uid,
      total-pop_back (asks uid) s.connect_requests e,
      total-append (tells uid) s.calls ((none, addr.uid) ∷ []),
    );
    descriptors = λ fd.
        omega (arith, v.descriptors fd, total-append (gives fd) s.calls ((none, addr.uid) ∷ []));
    watched = v.watched;
  }
  connect_one-Inv addr (refused f) s e v = record {
    requests = λ uid. omega (
      arith,
      v.requests uid,
      total-pop_back (asks uid) s.connect_requests e,
      total-append (tells uid) s.calls ((none, addr.uid) ∷ []),
    );
    descriptors = λ fd. omega (
      arith,
      v.descriptors fd,
      total-append (gives fd) s.calls ((none, addr.uid) ∷ []),
      count-push fd f s.opened,
      count-push fd f s.closed,
    );
    watched = v.watched;
  }
  connect_one-Inv addr (connected f) s e v = record {
    requests = λ uid. omega (
      arith,
      v.requests uid,
      total-pop_back (asks uid) s.connect_requests e,
      total-append (tells uid) s.calls ((some f, addr.uid) ∷ []),
    );
    descriptors = λ fd. omega (
      arith,
      v.descriptors fd,
      total-append (gives fd) s.calls ((some f, addr.uid) ∷ []),
      count-push fd f s.opened,
    );
    watched = v.watched;
  }
  connect_one-Inv addr (in_progress f now) s e v =
      elim (Option-cases (find_info f s.connecting_infos)) [
        | inr (c, h) ↦ rw (h, connect_one) tt
        | inl h ↦
            let c : ConnectingInfo = record {
              fd = f;
              start_connect_time = now;
              timeout = addr.timeout;
              uid = addr.uid;
            } in
            rw (h, connect_one)
              (record {
                requests = λ uid. omega (
                  arith,
                  v.requests uid,
                  total-pop_back (asks uid) s.connect_requests e,
                  total-put_info (holds uid) c s.connecting_infos h,
                );
                descriptors = λ fd. omega (
                  arith,
                  v.descriptors fd,
                  total-put_info (has_fd fd) c s.connecting_infos h,
                  count-push fd f s.opened,
                );
                watched = λ fd. omega (
                  arith,
                  v.watched fd,
                  total-put_info (has_fd fd) c s.connecting_infos h,
                  count-put_fd fd f s.connecting_fds
                      (v.watched f ∙ find_info-none f s.connecting_infos h),
                );
              })
      ]

  poll_connect_request-Inv :
      (answers : List ConnectAnswer) (s : Connector o)
      → Inv o s
      → Kept (poll_connect_request o answers s)
  unfolding poll_connect_request
  poll_connect_request-Inv [] s v = elim (Option-cases (pop_back s.connect_requests).0) [
    | inl e ↦ rw (e, poll_connect_request) v
    | inr (addr, e) ↦ rw (e, poll_connect_request) tt
  ]
  poll_connect_request-Inv (a ∷ answers) s v = elim (Option-cases (pop_back s.connect_requests).0) [
    | inl e ↦ rw (e, poll_connect_request) v
    | inr (addr, e) ↦
        rw (e, poll_connect_request)
          (more
            (connect_one o addr a (record s { connect_requests = (pop_back s.connect_requests).1 }))
            (connect_one-Inv addr a s e v) (λ t w. poll_connect_request-Inv answers t w))
  ]
    where
      more :
          (r : Option (Connector o))
          → Kept r
          → ((t : Connector o) → Inv o t → Kept (poll_connect_request o answers t))
          → Kept (elim r [ none ↦ none | some t ↦ poll_connect_request o answers t ])
      more none k go = tt
      more (some t) k go = go t k

  turn-Inv : (a : Turn o) (s : Connector o) → Inv o s → Kept (turn o a s)
  unfolding turn check_timeout
  turn-Inv (ask addr) s v = async_connect-Inv o addr s v
  turn-Inv (round answer succeeds answers now) s v =
      let t = check_connect_status o answer succeeds s in
      let w = check_connect_status-Inv o answer succeeds s v in
      end
        (poll_connect_request o answers
          (record t { connect_requests = sync_read t.connect_requests }))
        (poll_connect_request-Inv answers _ (record {
          requests = λ uid. omega (
            arith,
            w.requests uid,
            ap (total (asks uid)) (sync_read-contents t.connect_requests),
          );
          descriptors = w.descriptors;
          watched = w.watched;
        }))
    where
      end :
          (r : Option (Connector o))
          → Kept r
          → Kept (elim r [ none ↦ none | some u ↦ some (expire o now [] u.connecting_infos u) ])
      end none k = tt
      end (some u) k = expire-Inv o now [] u.connecting_infos u k

  run-Inv : (turns : List (Turn o)) (s : Connector o) → Inv o s → Kept (run o turns s)
  unfolding run
  run-Inv [] s v = v
  run-Inv (a ∷ turns) s v = next (turn o a s) (turn-Inv a s v) (λ t w. run-Inv turns t w)
    where
      next :
          (r : Option (Connector o))
          → Kept r
          → ((t : Connector o) → Inv o t → Kept (run o turns t))
          → Kept (elim r [ none ↦ none | some t ↦ run o turns t ])
      next none k go = tt
      next (some t) k go = go t k

  -- Whatever is asked and whatever the system answers: as often as a uid was asked for, the callback was
  -- called with it, its connection is pending, or its request waits; as often as a descriptor was opened,
  -- it was given to the callback, is pending, or was closed; and the descriptors that are looked at are
  -- those that are pending.
  pub run-new_once :
      (turns : List (Turn o)) {s : Connector o}
      → run o turns (new o) ≡ some s
      → ((uid : ℕ)
          → total (tells uid) s.calls
              + total (holds uid) s.connecting_infos
              + total (asks uid) (contents s.connect_requests)
            ≡ count uid s.asked)
        × ((fd : ℕ)
            → total (gives fd) s.calls + total (has_fd fd) s.connecting_infos + count fd s.closed
              ≡ count fd s.opened)
        × ((fd : ℕ) → count fd s.connecting_fds ≡ total (has_fd fd) s.connecting_infos)
  run-new_once turns e =
      let v = subst Kept e (run-Inv turns (new o) (new-Inv o)) in
      (v.requests, v.descriptors, v.watched)
