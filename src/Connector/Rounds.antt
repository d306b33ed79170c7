-- ===== src/Connector/Rounds.antt =====
-- What the table of connections, the calls and the descriptors say of each other, and that a round keeps it.
use mathlib.Core.Path.{subst}
use netxy.Base.{
  ℕ, ◌+◌, ◌≡◌, refl, sym, ap, ◌∙◌, Bool, true, false, Option, none, some, List, [], ◌∷◌, ◌++◌,
  arith, leb, ◌==◌, count, count-push, total, total-append, if◌then◌else◌, Bool-cases, Option-cases,
  inl, inr, append_assoc, append-nil,
}
use netxy.MsgQueue.{push}
use netxy.MsgQueue.Fifo.{contents, push-contents, force_sync_write-contents}
use netxy.Connector.{
  AsyncConnectAddr, ConnectingInfo, PollOps, find_info, erase_info, erase_fd, Connector, new,
  async_connect, complete, is_complete, is_failed, complete_all, check_connect_status, expire,
}
use netxy.Connector.Counts.{
  has_fd, count_self, find_info-none, find_info-fd, total-erase_info, count-erase_fd,
  count-erase_fd_absent,
}

-- is a request, a connection or a call that of a uid?
abbrev pub asks : ℕ → AsyncConnectAddr → ℕ
asks uid a = if uid == a.uid then 1 else 0

abbrev pub holds : ℕ → ConnectingInfo → ℕ
holds uid c = if uid == c.uid then 1 else 0

abbrev pub tells : ℕ → Option ℕ × ℕ → ℕ
tells uid (fd, k) = if uid == k then 1 else 0

-- does a call give a descriptor to the client?
abbrev pub gives : ℕ → Option ℕ × ℕ → ℕ
gives fd (none, k) = 0
gives fd (some f, k) = if fd == f then 1 else 0

module _ (o : PollOps) where
  -- The requests of a uid that were answered, that are pending and that wait are those that were asked, as
  -- often; and so for descriptors.
  pub record Inv (s : Connector o) : Type 0 where
    pub requests :
        (uid : ℕ)
        → total (tells uid) s.calls
            + total (holds uid) s.connecting_infos
            + total (asks uid) (contents s.connect_requests)
          ≡ count uid s.asked
    pub descriptors :
        (fd : ℕ)
        → total (gives fd) s.calls + total (has_fd fd) s.connecting_infos + count fd s.closed
          ≡ count fd s.opened
    pub watched : (fd : ℕ) → count fd s.connecting_fds ≡ total (has_fd fd) s.connecting_infos

  pub new-Inv : Inv (new o)
  unfolding new
  new-Inv = record {
    requests = λ uid. omega arith;
    descriptors = λ fd. omega arith;
    watched = λ fd. refl;
  }

  pub async_connect-Inv :
      (addr : AsyncConnectAddr) (s : Connector o) → Inv s → Inv (async_connect o addr s)
  unfolding async_connect
  async_connect-Inv addr s v = record {
    requests = λ uid. omega (
      arith,
      v.requests uid,
      count-push uid addr.uid s.asked,
      ap (total (asks uid)) (force_sync_write-contents (push addr s.connect_requests)),
      ap (total (asks uid)) (push-contents addr s.connect_requests),
      total-append (asks uid) (contents s.connect_requests) (addr ∷ []),
    );
    descriptors = v.descriptors;
    watched = v.watched;
  }

  -- What an entry that is erased takes with it
  erased :
      (a fd : ℕ) (s : Connector o) {c : ConnectingInfo}
      → Inv s
      → find_info fd s.connecting_infos ≡ some c
      → (total (has_fd a) s.connecting_infos
          ≡ (if a == fd then 1 else 0) + total (has_fd a) (erase_info fd s.connecting_infos))
        × (count a s.connecting_fds
            ≡ count a (erase_fd fd s.connecting_fds) + (if a == fd then 1 else 0))
  erased a fd s {c} v e =
      let place = find_info-fd fd s.connecting_infos e in
      let at = λ (b : ℕ).
        total-erase_info (has_fd b) fd s.connecting_infos e
        ∙ ap (λ f. (if b == f then 1 else 0) + total (has_fd b) (erase_info fd s.connecting_infos))
            place in
      let one = count_self fd in
      (at a, count-erase_fd a fd s.connecting_fds (omega (arith, v.watched fd, at fd, one)))

  complete-Inv : (fd : ℕ) (failed : Bool) (s : Connector o) → Inv s → Inv (complete o fd failed s)
  unfolding complete
  complete-Inv fd failed s v = elim (Option-cases (find_info fd s.connecting_infos)) [
    | inl e ↦
        rw (e, complete)
          (record {
            requests = v.requests;
            descriptors = v.descriptors;
            watched = λ a.
                count-erase_fd_absent a fd s.connecting_fds
                  (v.watched fd ∙ find_info-none fd s.connecting_infos e)
                ∙ v.watched a;
          })
    | inr (c, e) ↦ rw (e, complete) (ends c e failed)
  ]
    where
      ends :
          (c : ConnectingInfo)
          → find_info fd s.connecting_infos ≡ some c
          → (b : Bool)
          → Inv (
              if b
              then record s {
                fd_set = o.del s.fd_set fd;
                connecting_fds = erase_fd fd s.connecting_fds;
                connecting_infos = erase_info fd s.connecting_infos;
                closed = s.closed ++ fd ∷ [];
                calls = s.calls ++ (none, c.uid) ∷ [];
              }
              else record s {
                fd_set = o.del s.fd_set fd;
                connecting_fds = erase_fd fd s.connecting_fds;
                connecting_infos = erase_info fd s.connecting_infos;
                calls = s.calls ++ (some fd, c.uid) ∷ [];
              })
      ends c e true = record {
        requests = λ uid. omega (
          arith,
          v.requests uid,
          total-erase_info (holds uid) fd s.connecting_infos e,
          total-append (tells uid) s.calls ((none, c.uid) ∷ []),
        );
        descriptors = λ a. omega (
          arith,
          v.descriptors a,
          erased a fd s v e,
          total-append (gives a) s.calls ((none, c.uid) ∷ []),
          count-push a fd s.closed,
        );
        watched = λ a. omega (arith, v.watched a, erased a fd s v e);
      }
      ends c e false = record {
        requests = λ uid. omega (
          arith,
          v.requests uid,
          total-erase_info (holds uid) fd s.connecting_infos e,
          total-append (tells uid) s.calls ((some fd, c.uid) ∷ []),
        );
        descriptors = λ a. omega (
          arith,
          v.descriptors a,
          erased a fd s v e,
          total-append (gives a) s.calls ((some fd, c.uid) ∷ []),
        );
        watched = λ a. omega (arith, v.watched a, erased a fd s v e);
      }

  complete_all-Inv :
      (succeeds : ℕ → Bool) (polled : o.Carrier) (fds : List ℕ) (s : Connector o)
      → Inv s
      → Inv (complete_all o succeeds polled fds s)
  unfolding complete_all
  complete_all-Inv succeeds polled [] s v = v
  complete_all-Inv succeeds polled (fd ∷ fds) s v =
      complete_all-Inv succeeds polled fds _ (kept (is_complete o polled fd))
    where
      kept : (b : Bool) → Inv (if b then complete o fd (is_failed o succeeds polled fd) s else s)
      kept true = complete-Inv fd (is_failed o succeeds polled fd) s v
      kept false = v

  pub check_connect_status-Inv :
      (answer : o.Answer) (succeeds : ℕ → Bool) (s : Connector o)
      → Inv s
      → Inv (check_connect_status o answer succeeds s)
  unfolding check_connect_status
  check_connect_status-Inv answer succeeds s v = kept ((o.poll answer s.fd_set).0)
    where
      seen : Inv (record s { fd_set = (o.poll answer s.fd_set).1 })
      seen = record { requests = v.requests; descriptors = v.descriptors; watched = v.watched }

      kept :
          (b : Bool)
          → Inv (
              if b
              then complete_all o succeeds
                  (o.poll answer s.fd_set).1
                  s.connecting_fds
                  (record s { fd_set = (o.poll answer s.fd_set).1 })
              else record s { fd_set = (o.poll answer s.fd_set).1 })
      kept true = complete_all-Inv succeeds _ s.connecting_fds _ seen
      kept false = seen

  -- While `checkTimeout` goes on, the entries are those that it passed and those before it.
  pub expire-Inv :
      (now : ℕ) (passed infos : List ConnectingInfo) (s : Connector o)
      → Inv (record s { connecting_infos = passed ++ infos })
      → Inv (expire o now passed infos s)
  unfolding expire
  expire-Inv now passed [] s v =
      subst (λ l. Inv (record s { connecting_infos = l })) (append-nil passed) v
  expire-Inv now passed (c ∷ infos) s v =
      elim (Bool-cases (leb (c.start_connect_time + c.timeout) now)) [
        | inl e ↦ rw (e, expire) (expire-Inv now passed infos _ gone)
        | inr e ↦
            rw (e, expire)
              (expire-Inv now (passed ++ c ∷ []) infos s (
                subst (λ l. Inv (record s { connecting_infos = l }))
                  (sym (append_assoc passed (c ∷ []) infos)) v))
      ]
    where
      parts :
          (w : ConnectingInfo → ℕ)
          → total w (passed ++ (c ∷ infos)) ≡ w c + total w (passed ++ infos)
      parts w = omega (arith, total-append w passed (c ∷ infos), total-append w passed infos)

      gone : Inv (record s {
        fd_set = o.del s.fd_set c.fd;
        connecting_fds = erase_fd c.fd s.connecting_fds;
        closed = s.closed ++ c.fd ∷ [];
        calls = s.calls ++ (none, c.uid) ∷ [];
        connecting_infos = passed ++ infos;
      })
      gone =
          let one = count_self c.fd in
          record {
            requests = λ uid. omega (
              arith,
              v.requests uid,
              parts (holds uid),
              total-append (tells uid) s.calls ((none, c.uid) ∷ []),
            );
            descriptors = λ a. omega (
              arith,
              v.descriptors a,
              parts (has_fd a),
              total-append (gives a) s.calls ((none, c.uid) ∷ []),
              count-push a c.fd s.closed,
            );
            watched = λ a. omega (
              arith,
              v.watched a,
              parts (has_fd a),
              count-erase_fd a c.fd s.connecting_fds
                  (omega (arith, v.watched c.fd, parts (has_fd c.fd), one)),
            );
          }
