-- ===== src/DataSocket/Life/Promises.antt =====
-- What a connection promises from its start on.
use mathlib.Core.Path.{subst}
use netxy.Base.{
  ℕ, ◌+◌, ◌≡◌, refl, sym, ap, ◌∙◌, Bool, true, false, not, some, List, ◌++◌, length, if◌then◌else◌,
  inl, inr, ◌⊎◌,
}
use mathlib.Core.Option.{some-injective}
use netxy.DataSocket.{DataSocket, new, is_empty, is_open}
use netxy.DataSocket.Queue.{pending, callbacks}
use netxy.DataSocket.Life.{Event, run, flushes, disconnects, IsValid}
use netxy.DataSocket.Life.Keep.{new-IsValid}
use netxy.DataSocket.Life.Next.{sent_bytes, sent_calls, AllAllowed}
use netxy.DataSocket.Life.Runs.{run-Next}

-- Whatever happens to a new connection, it goes on, and the bytes that the system took, then those that
-- wait, are those of all packets that were sent, in order; the completion callbacks that were called,
-- then those of the packets that wait, are those that were given, in order. The system takes no more
-- than it is offered.
pub run-new_stream :
    (fd : ℕ) (es : List Event)
    → AllAllowed es
    → (t : DataSocket) × (run es (new fd) ≡ some t)
      × (t.written ++ pending t.send_list ≡ sent_bytes es)
      × (t.completed ++ callbacks t.send_list ≡ sent_calls es)
unfolding new
run-new_stream fd es ok =
    let (t, e, n) = run-Next es (new fd) ok (new-IsValid fd) in (t, e, n.all_bytes, n.all_calls)

run-new-IsValid :
    (fd : ℕ) (es : List Event) (t : DataSocket)
    → AllAllowed es
    → run es (new fd) ≡ some t
    → IsValid t
run-new-IsValid fd es t ok e =
    let (u, f, n) = run-Next es (new fd) ok (new-IsValid fd) in
    subst IsValid (some-injective _ _ (sym f ∙ e)) n.valid

-- Whatever happens to a new connection: while it is open, the disconnect callback was not called and
-- does not wait in the event loop, and no descriptor was closed; once it is closed, the callback was
-- called once or waits once in the event loop, never both, and the descriptor was closed once.
pub run-new_closed_once :
    (fd : ℕ) (es : List Event) (t : DataSocket)
    → AllAllowed es
    → run es (new fd) ≡ some t
    → (t.disconnected + disconnects t.after_procs ≡ (if is_open t then 0 else 1))
      × (length t.closed ≡ (if is_open t then 0 else 1))
run-new_closed_once fd es t ok e =
    let q = (run-new-IsValid fd es t ok e).quiet in
    (
      q.once ∙ counted (is_open t) t.is_post_final_close q.final,
      q.closed_once ∙ counted (is_open t) t.is_post_final_close q.final,
    )
  where
    counted : (b c : Bool) → b ≡ not c → Path ℕ (if c then 1 else 0) (if b then 0 else 1)
    counted b true e = rw e refl
    counted b false e = rw e refl

-- Whatever happens to a new connection, no packet is forgotten: while it is open, was not shut down and
-- has packets that wait, one flush is in the event loop, or the connection is not writable and is
-- watched until it is.
pub run-new_wake :
    (fd : ℕ) (es : List Event) (t : DataSocket)
    → AllAllowed es
    → run es (new fd) ≡ some t
    → is_open t ≡ true
    → t.shut ≡ false
    → is_empty t.send_list ≡ false
    → flushes t.after_procs ≡ 1 ⊎ (t.can_write ≡ false) × (t.write_watch ≡ true)
run-new_wake fd es t ok e up alive waits =
    let v = run-new-IsValid fd es t ok e in
    elim (v.wake up alive waits) [
      | inl p ↦ inl (v.quiet.posted ∙ ap (λ b. if b then 1 else 0) p)
      | inr c ↦ inr (c, v.quiet.watched up alive c)
    ]
