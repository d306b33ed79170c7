-- ===== src/DataSocket/Life/Runs.antt =====
-- Runs of a connection: what was sent is written in order, and every packet's callback is called once.
use netxy.Base.{
  ℕ, suc, ◌+◌, ◌-◌, ◌≡◌, refl, sym, ap, ◌∙◌, Bool, false, Option, none, some, List, [], ◌∷◌, ◌++◌,
  append-nil, append_assoc, arith, length, take, drop, take-of_le, if◌then◌else◌,
}
use netxy.DataSocket.{
  Pending, AfterProc, flush_proc, disconnect_proc, shutdown_proc, DataSocket, is_open,
  send_packet_in_loop, proc_shutdown_in_loop,
}
use netxy.DataSocket.Flush.{Answer, unsent, callback_of}
use netxy.DataSocket.Queue.{pending, callbacks}
use netxy.DataSocket.Rounds.{AllWithin}
use netxy.DataSocket.Life.{
  call_proc, run_first, Event, send_event, writable_event, proc_event, close_event, shutdown_event,
  step, run, flushes, disconnects, IsValid,
}
use netxy.DataSocket.Life.Keep.{
  send_packet_in_loop-IsValid, can_send-IsValid, proc_close_in_loop-IsValid,
  proc_shutdown_in_loop-IsValid, shutdown_in_loop-IsValid,
}
use netxy.DataSocket.Life.Data.{
  run_after_flush-SameData, can_send-SameData, proc_shutdown_in_loop-SameData,
  shutdown_in_loop-SameData, proc_close_in_loop-SameData,
}
use netxy.DataSocket.Life.Next.{
  event_bytes, event_calls, sent_bytes, sent_calls, IsAllowed, AllAllowed, Next, SameData-Next,
  same, flush-Next,
}

flag_clear : (n : ℕ) (b : Bool) → 1 + n ≡ (if b then 1 else 0) → n ≡ 0
flag_clear n b e = ground arith

first-Next :
    (answers : ℕ → List ℕ → Answer) (procs : List AfterProc) (s : DataSocket)
    → AllWithin answers
    → IsValid s
    → s.after_procs ≡ procs
    → (t : DataSocket) × (run_first answers procs s ≡ some t) × Next s [] [] t
unfolding run_first call_proc is_open
first-Next answers [] s within v e = (s, refl, SameData-Next s s v (same s))
first-Next answers (flush_proc ∷ procs) s within v e =
    let q = v.quiet in
    let (t, f, n) =
      flush-Next answers (record s { after_procs = procs; is_post_flush = false }) within
        (record {
          fit = q.fit;
          posted = flag_clear (flushes procs) s.is_post_flush (sym (ap flushes e) ∙ q.posted);
          once = omega (arith, ap disconnects e, q.once);
          final = q.final;
          closed_once = q.closed_once;
          watched = q.watched;
        }) in
    (t, f, record { valid = n.valid; all_bytes = n.all_bytes; all_calls = n.all_calls })
first-Next answers (disconnect_proc ∷ procs) s within v e =
    let q = v.quiet in
    (
      record s { after_procs = procs; disconnected = suc s.disconnected },
      refl,
      SameData-Next s (record s { after_procs = procs; disconnected = suc s.disconnected })
          (record {
            quiet = record {
              fit = q.fit;
              posted = omega (arith, ap flushes e, q.posted);
              once = omega (arith, ap disconnects e, q.once);
              final = q.final;
              closed_once = q.closed_once;
              watched = q.watched;
            };
            wake = v.wake;
          })
          (record { send_list = refl; written = refl; completed = refl }),
    )
first-Next answers (shutdown_proc ∷ procs) s within v e =
    let q = v.quiet in
    let valid : IsValid (record s { after_procs = procs }) = record {
      quiet = record {
        fit = q.fit;
        posted = omega (arith, ap flushes e, q.posted);
        once = omega (arith, ap disconnects e, q.once);
        final = q.final;
        closed_once = q.closed_once;
        watched = q.watched;
      };
      wake = v.wake;
    } in
    (
      proc_shutdown_in_loop (record s { after_procs = procs }),
      refl,
      record {
        valid = proc_shutdown_in_loop-IsValid _ valid;
        all_bytes =
            (SameData-Next _ _ (proc_shutdown_in_loop-IsValid _ valid)
              (proc_shutdown_in_loop-SameData _)).all_bytes;
        all_calls =
            (SameData-Next _ _ (proc_shutdown_in_loop-IsValid _ valid)
              (proc_shutdown_in_loop-SameData _)).all_calls;
      },
    )

pending-append : (ps qs : List Pending) → pending (ps ++ qs) ≡ pending ps ++ pending qs
pending-append [] qs = refl
pending-append (p ∷ ps) qs =
    ap (λ bs. unsent p ++ bs) (pending-append ps qs)
    ∙ sym (append_assoc (unsent p) (pending ps) (pending qs))

callbacks-append : (ps qs : List Pending) → callbacks (ps ++ qs) ≡ callbacks ps ++ callbacks qs
callbacks-append [] qs = refl
callbacks-append (p ∷ ps) qs =
    ap (λ cs. callback_of p ++ cs) (callbacks-append ps qs)
    ∙ sym (append_assoc (callback_of p) (callbacks ps) (callbacks qs))

unsent_new :
    (packet : List ℕ) (c : Option ℕ)
    → unsent (record { bytes = packet; left = length packet; callback = c }) ≡ packet
unfolding unsent
unsent_new packet c =
    let all : length packet - length packet ≡ 0 = omega arith in
    ap (λ k. take (length packet) (drop k packet)) all
    ∙ take-of_le (length packet) packet (omega arith)

event_calls_lem :
    (packet : List ℕ) (c : Option ℕ)
    → callbacks (record { bytes = packet; left = length packet; callback = c } ∷ [])
      ≡ event_calls (send_event packet c)
unfolding event_calls
event_calls_lem packet none = refl
event_calls_lem packet (some c) = refl

send-Next :
    (packet : List ℕ) (c : Option ℕ) (s : DataSocket)
    → IsValid s
    → Next s packet (event_calls (send_event packet c)) (send_packet_in_loop packet c s)
unfolding send_packet_in_loop
send-Next packet c s v =
    let one : Pending = record { bytes = packet; left = length packet; callback = c } in
    let kept = run_after_flush-SameData (record s { send_list = s.send_list ++ one ∷ [] }) in
    record {
      valid = send_packet_in_loop-IsValid packet c s v;
      all_bytes =
          rw
            (
              kept.send_list,
              kept.written,
              pending-append s.send_list (one ∷ []),
              unsent_new packet c,
              append-nil packet,
            )
            (sym (append_assoc s.written (pending s.send_list) packet));
      all_calls =
          rw
            (
              kept.send_list,
              kept.completed,
              callbacks-append s.send_list (one ∷ []),
              event_calls_lem packet c,
            )
            (sym (append_assoc s.completed (callbacks s.send_list) _));
    }

step-Next :
    (e : Event) (s : DataSocket)
    → IsAllowed e
    → IsValid s
    → (t : DataSocket) × (step e s ≡ some t) × Next s (event_bytes e) (event_calls e) t
unfolding step event_bytes event_calls
step-Next (send_event packet c) s ok v = (_, refl, send-Next packet c s v)
step-Next writable_event s ok v =
    (_, refl, SameData-Next s _ (can_send-IsValid s v) (can_send-SameData s))
step-Next (proc_event answers) s ok v = first-Next answers s.after_procs s ok v refl
step-Next close_event s ok v = (
  _,
  refl,
  SameData-Next s _ (proc_close_in_loop-IsValid s v.quiet) (proc_close_in_loop-SameData s v.quiet),
)
step-Next shutdown_event s ok v =
    (_, refl, SameData-Next s _ (shutdown_in_loop-IsValid s v) (shutdown_in_loop-SameData s))

-- Whatever happens to a well-formed connection, it goes on, stays well-formed, and the bytes that were
-- written, then those that wait, are all those that were sent, in order, and so with the callbacks.
pub run-Next :
    (es : List Event) (s : DataSocket)
    → AllAllowed es
    → IsValid s
    → (t : DataSocket) × (run es s ≡ some t) × Next s (sent_bytes es) (sent_calls es) t
unfolding run sent_bytes sent_calls
run-Next [] s ok v = (s, refl, SameData-Next s s v (same s))
run-Next (e ∷ es) s ok v =
    let (t, f, n) = step-Next e s ok.0 v in
    let (u, g, m) = run-Next es t ok.1 n.valid in
    (
      u,
      rw (f, run) g,
      record {
        valid = m.valid;
        all_bytes =
            m.all_bytes
            ∙ ap (λ bs. bs ++ sent_bytes es) n.all_bytes
            ∙ append_assoc _ (event_bytes e) (sent_bytes es);
        all_calls =
            m.all_calls
            ∙ ap (λ cs. cs ++ sent_calls es) n.all_calls
            ∙ append_assoc _ (event_calls e) (sent_calls es);
      },
    )
