-- ===== src/DataSocket/Rounds.antt =====
-- A round of a flush: what it keeps.
use netxy.Base.{
  ℕ, ◌≤◌, ◌≡◌, refl, sym, ap, ◌∙◌, Bool, true, false, List, ◌++◌, append_assoc, ltb, ◌==◌, length,
  take, take-append_left, take-append-drop, Bool-cases, inl, inr,
}
use netxy.DataSocket.{DataSocket, check_write}
use netxy.DataSocket.Flush.{Answer, gather, erase_sent, wait_write, write_round}
use netxy.DataSocket.Queue.{
  pending, callbacks, AllFit, erase_sent-pending, erase_sent-callbacks, erase_sent-AllFit,
  gather_rest,
}

-- The system takes no more than it is offered.
abbrev pub AllWithin : (ℕ → List ℕ → Answer) → Type 0
AllWithin answers = (k : ℕ) (ready : List ℕ) → (answers k ready).count ≤ length ready

-- What the rounds of a flush keep: the bytes and the callbacks, and all that they do not write.
pub record After (s t : DataSocket) : Type 0 where
  pub bytes : t.written ++ pending t.send_list ≡ s.written ++ pending s.send_list
  pub calls : t.completed ++ callbacks t.send_list ≡ s.completed ++ callbacks s.send_list
  pub fit : AllFit t.send_list
  pub fd : t.fd ≡ s.fd
  pub final : t.is_post_final_close ≡ s.is_post_final_close
  pub posted : t.is_post_flush ≡ s.is_post_flush
  pub procs : t.after_procs ≡ s.after_procs
  pub closed : t.closed ≡ s.closed
  pub shut : t.shut ≡ s.shut
  pub disconnected : t.disconnected ≡ s.disconnected

pub kept : (s : DataSocket) → AllFit s.send_list → After s s
kept s fit = record {
  bytes = refl;
  calls = refl;
  fit = fit;
  fd = refl;
  final = refl;
  posted = refl;
  procs = refl;
  closed = refl;
  shut = refl;
  disconnected = refl;
}

pub kept_on : {s t u : DataSocket} → After s t → After t u → After s u
kept_on a b = record {
  bytes = b.bytes ∙ a.bytes;
  calls = b.calls ∙ a.calls;
  fit = b.fit;
  fd = b.fd ∙ a.fd;
  final = b.final ∙ a.final;
  posted = b.posted ∙ a.posted;
  procs = b.procs ∙ a.procs;
  closed = b.closed ∙ a.closed;
  shut = b.shut ∙ a.shut;
  disconnected = b.disconnected ∙ a.disconnected;
}

wait_write-After :
    (check : Bool) {s t : DataSocket} → After s t → After s (wait_write check t).socket
unfolding wait_write check_write
wait_write-After true a = record {
  bytes = a.bytes;
  calls = a.calls;
  fit = a.fit;
  fd = a.fd;
  final = a.final;
  posted = a.posted;
  procs = a.procs;
  closed = a.closed;
  shut = a.shut;
  disconnected = a.disconnected;
}
wait_write-After false a = record {
  bytes = a.bytes;
  calls = a.calls;
  fit = a.fit;
  fd = a.fd;
  final = a.final;
  posted = a.posted;
  procs = a.procs;
  closed = a.closed;
  shut = a.shut;
  disconnected = a.disconnected;
}

-- The socket after the system took `n` bytes of those that a round offers.
abbrev pub taken : Bool → ℕ → DataSocket → DataSocket
taken quick n s = record s {
  send_list = (erase_sent n s.send_list).0;
  completed = s.completed ++ (erase_sent n s.send_list).1;
  written = s.written ++ take n (gather quick s.send_list);
}

pub taken-After :
    (quick : Bool) (n : ℕ) (s : DataSocket)
    → AllFit s.send_list
    → n ≤ length (gather quick s.send_list)
    → After s (taken quick n s)
taken-After quick n s fit within =
    let (rest, whole) = gather_rest quick s.send_list in
    let same : take n (gather quick s.send_list) ≡ take n (pending s.send_list) =
      sym (take-append_left n (gather quick s.send_list) rest within) ∙ ap (take n) whole in
    record {
      bytes =
          append_assoc s.written (take n (gather quick s.send_list)) _
          ∙ ap (λ bs. s.written ++ bs)
              (rw (same, erase_sent-pending n s.send_list fit)
                (take-append-drop n (pending s.send_list)));
      calls =
          append_assoc s.completed (erase_sent n s.send_list).1 _
          ∙ ap (λ cs. s.completed ++ cs) (erase_sent-callbacks n s.send_list);
      fit = erase_sent-AllFit n s.send_list fit;
      fd = refl;
      final = refl;
      posted = refl;
      procs = refl;
      closed = refl;
      shut = refl;
      disconnected = refl;
    }

pub write_round-After :
    (quick check : Bool) (a : Answer) (s : DataSocket)
    → AllFit s.send_list
    → a.count ≤ length (gather quick s.send_list)
    → After s (write_round check (gather quick s.send_list) a s).socket
unfolding write_round
write_round-After quick check a s fit within =
    let sent = taken-After quick a.count s fit within in
    elim (Bool-cases (ltb 0 a.count)) [
      | inl t ↦ elim (Bool-cases (a.count == length (gather quick s.send_list))) [
        | inl u ↦ rw (t, u) sent
        | inr u ↦ rw (t, u) (wait_write-After check sent)
      ]
      | inr t ↦ elim (Bool-cases a.would_block) [
        | inl u ↦ rw (t, u) (wait_write-After check (kept s fit))
        | inr u ↦ rw (t, u) (kept s fit)
      ]
    ]
