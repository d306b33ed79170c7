-- ===== src/DataSocket/Life/Keep.antt =====
-- Each operation keeps a connection well-formed.
use mathlib.Core.Bool.{true≢false}
use mathlib.Core.Path.{subst}
use netxy.Base.{
  if_true, if_false, Option-cases, ℕ, ◌+◌, ◌≡◌, refl, sym, ap, ◌∙◌, Bool, true, false, not, Option,
  none, some, List, [], ◌∷◌, ◌++◌, arith, length-append, if◌then◌else◌, Bool-cases, inl, inr,
}
use netxy.DataSocket.{
  Pending, AfterProc, flush_proc, disconnect_proc, shutdown_proc, DataSocket, new, is_empty,
  is_open, run_after_flush, send_packet_in_loop, remove_check_write, can_send, close_socket,
  on_close, proc_close_in_loop, proc_shutdown_in_loop, shutdown_in_loop,
}
use netxy.DataSocket.Queue.{AllFit}
use netxy.DataSocket.Life.{flushes, disconnects, IsQuiet, IsValid}

pub new-IsValid : (fd : ℕ) → IsValid (new fd)
unfolding new is_open
new-IsValid fd = record {
  quiet = record {
    fit = tt;
    posted = refl;
    once = refl;
    final = refl;
    closed_once = refl;
    watched = λ o h e. absurd (true≢false e);
  };
  wake = λ o h e. absurd (true≢false e);
}

flushes-append : (ps qs : List AfterProc) → flushes (ps ++ qs) ≡ flushes ps + flushes qs
flushes-append [] qs = omega arith
flushes-append (p ∷ ps) qs = omega (arith, flushes-append ps qs)

disconnects-append :
    (ps qs : List AfterProc) → disconnects (ps ++ qs) ≡ disconnects ps + disconnects qs
disconnects-append [] qs = omega arith
disconnects-append (p ∷ ps) qs = omega (arith, disconnects-append ps qs)

-- `runAfterFlush` makes packets wait for a flush.
run_after_flush-IsValid : (s : DataSocket) → IsQuiet s → IsValid (run_after_flush s)
unfolding run_after_flush is_open
run_after_flush-IsValid s v = elim (Bool-cases s.is_post_flush) [
  | inl t ↦ subst IsValid (sym (if_true _ _ t)) (record { quiet = v; wake = λ o h e. inl t })
  | inr t ↦ elim (Bool-cases (is_empty s.send_list)) [
    | inl u ↦
        subst IsValid (sym (if_false _ _ t ∙ if_true _ _ u))
          (record { quiet = v; wake = λ o h e. absurd (true≢false (sym u ∙ e)) })
    | inr u ↦ elim (Bool-cases (is_open s)) [
      | inl w ↦ subst IsValid (sym (if_false _ _ t ∙ if_false _ _ u ∙ if_true _ _ w)) (record {
        quiet = record {
          fit = v.fit;
          posted =
              flushes-append s.after_procs (flush_proc ∷ [])
              ∙ ap (λ n. n + 1) (v.posted ∙ if_false _ _ t);
          once =
              ap (λ n. s.disconnected + n)
                (disconnects-append s.after_procs (flush_proc ∷ []) ∙ (omega arith))
              ∙ v.once;
          final = v.final;
          closed_once = v.closed_once;
          watched = v.watched;
        };
        wake = λ o h e. inl refl;
      })
      | inr w ↦
          subst IsValid (sym (if_false _ _ t ∙ if_false _ _ u ∙ if_false _ _ w))
            (record { quiet = v; wake = λ o h e. absurd (true≢false (sym o ∙ w)) })
    ]
  ]
]

AllFit-append : (ps qs : List Pending) → AllFit ps → AllFit qs → AllFit (ps ++ qs)
AllFit-append [] qs h g = g
AllFit-append (p ∷ ps) qs h g = (h.0, AllFit-append ps qs h.1 g)

pub send_packet_in_loop-IsValid :
    (packet : List ℕ) (callback : Option ℕ) (s : DataSocket)
    → IsValid s
    → IsValid (send_packet_in_loop packet callback s)
unfolding send_packet_in_loop is_open
send_packet_in_loop-IsValid packet callback s v =
    let q = v.quiet in
    run_after_flush-IsValid _ (record {
      fit = AllFit-append s.send_list _ q.fit (omega arith, tt);
      posted = q.posted;
      once = q.once;
      final = q.final;
      closed_once = q.closed_once;
      watched = q.watched;
    })

pub remove_check_write_eq :
    (s : DataSocket)
    → remove_check_write s ≡ record s { write_watch = if is_open s then false else s.write_watch }
unfolding remove_check_write
remove_check_write_eq s = elim (Bool-cases (is_open s)) [
  | inl t ↦ if_true _ _ t ∙ ap (λ w. record s { write_watch = w }) (sym (if_true _ _ t))
  | inr t ↦ if_false _ _ t ∙ ap (λ w. record s { write_watch = w }) (sym (if_false _ _ t))
]

pub can_send-IsValid : (s : DataSocket) → IsValid s → IsValid (can_send s)
unfolding can_send is_open
can_send-IsValid s v =
    let q = v.quiet in
    run_after_flush-IsValid _ (
      subst (λ t. IsQuiet (record t { can_write = true })) (sym (remove_check_write_eq s))
        (record {
          fit = q.fit;
          posted = q.posted;
          once = q.once;
          final = q.final;
          closed_once = q.closed_once;
          watched = λ o h e. absurd (true≢false e);
        }))

pub proc_close_in_loop_eq :
    (s : DataSocket) (fd : ℕ)
    → s.fd ≡ some fd
    → s.is_post_final_close ≡ false
    → proc_close_in_loop s ≡ record s {
      fd = none;
      can_write = false;
      is_post_final_close = true;
      closed = s.closed ++ fd ∷ [];
      after_procs = s.after_procs ++ disconnect_proc ∷ [];
    }
unfolding proc_close_in_loop on_close close_socket is_open
proc_close_in_loop_eq s fd e u =
    if_true _ _ (ap (λ o. elim o as (λ x. Bool) [ none ↦ false | some fd ↦ true ]) e)
    ∙ if_false _ _ u
    ∙ ap
        (λ o.
          record (elim o as (λ x. DataSocket) [
            | none ↦ record s { after_procs = s.after_procs ++ disconnect_proc ∷ [] }
            | some fd ↦ record s {
              after_procs = s.after_procs ++ disconnect_proc ∷ [];
              can_write = false;
              fd = none;
              closed = s.closed ++ fd ∷ [];
            }
          ]) { is_post_final_close = true })
        e

-- A connection that is closed needs nothing more.
pub quiet_closed : (s : DataSocket) → IsQuiet s → is_open s ≡ false → IsValid s
quiet_closed s q e = record { quiet = q; wake = λ o h u. absurd (true≢false (sym o ∙ e)) }

pub closed_same : (s : DataSocket) → is_open s ≡ false → proc_close_in_loop s ≡ s
unfolding proc_close_in_loop
closed_same s e = if_false _ _ e

pub not_closed : (b : Bool) → not b ≡ true → b ≡ false
not_closed true e = sym e
not_closed false e = refl

pub proc_close_in_loop-IsValid : (s : DataSocket) → IsQuiet s → IsValid (proc_close_in_loop s)
unfolding is_open
proc_close_in_loop-IsValid s q = elim (Option-cases s.fd) [
  | inl t ↦
      let shut_now : is_open s ≡ false = rw t refl in
      subst IsValid (sym (closed_same s shut_now)) (quiet_closed s q shut_now)
  | inr (fd, t) ↦
      let still : s.is_post_final_close ≡ false = not_closed _ (sym (rw t at q.final)) in
      subst IsValid (sym (proc_close_in_loop_eq s fd t still)) (
        quiet_closed _
          (record {
            fit = q.fit;
            posted = flushes-append s.after_procs (disconnect_proc ∷ []) ∙ (omega arith) ∙ q.posted;
            once = omega (
              arith,
              disconnects-append s.after_procs (disconnect_proc ∷ []),
              q.once ∙ if_false _ _ still,
            );
            final = refl;
            closed_once =
                length-append s.closed (fd ∷ [])
                ∙ ap (λ n. n + 1) (q.closed_once ∙ if_false _ _ still);
            watched = λ o h e. absurd (true≢false (sym o));
          })
          refl)
]

pub proc_shutdown_in_loop-IsValid : (s : DataSocket) → IsValid s → IsValid (proc_shutdown_in_loop s)
unfolding proc_shutdown_in_loop is_open
proc_shutdown_in_loop-IsValid s v =
    let q = v.quiet in
    elim (Bool-cases (is_open s)) [
      | inl t ↦ subst IsValid (sym (if_true _ _ t)) (record {
        quiet = record {
          fit = q.fit;
          posted = q.posted;
          once = q.once;
          final = q.final;
          closed_once = q.closed_once;
          watched = λ o h e. absurd (true≢false h);
        };
        wake = λ o h e. inr refl;
      })
      | inr t ↦ subst IsValid (sym (if_false _ _ t)) v
    ]

pub shutdown_in_loop-IsValid : (s : DataSocket) → IsValid s → IsValid (shutdown_in_loop s)
unfolding shutdown_in_loop is_open
shutdown_in_loop-IsValid s v =
    let q = v.quiet in
    elim (Bool-cases (is_open s)) [
      | inl t ↦ subst IsValid (sym (if_true _ _ t)) (record {
        quiet = record {
          fit = q.fit;
          posted = flushes-append s.after_procs (shutdown_proc ∷ []) ∙ (omega arith) ∙ q.posted;
          once =
              ap (λ n. s.disconnected + n)
                (disconnects-append s.after_procs (shutdown_proc ∷ []) ∙ (omega arith))
              ∙ q.once;
          final = q.final;
          closed_once = q.closed_once;
          watched = q.watched;
        };
        wake = v.wake;
      })
      | inr t ↦ subst IsValid (sym (if_false _ _ t)) v
    ]
