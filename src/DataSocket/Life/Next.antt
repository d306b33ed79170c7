-- ===== src/DataSocket/Life/Next.antt =====
-- What goes on in a connection: the bytes and callbacks that are added, and a flush.
use mathlib.Core.Bool.{true≢false}
use mathlib.Core.Path.{subst}
use netxy.Base.{
  if_true, if_false, ℕ, suc, ◌≡◌, refl, sym, ap, ◌∙◌, Bool, true, false, not, none, some, List, [],
  ◌∷◌, ◌++◌, append-nil, arith, length, if◌then◌else◌, Bool-cases, inl, inr,
}
use netxy.DataSocket.{DataSocket, is_empty, is_open}
use netxy.DataSocket.Flush.{Answer, has_work, flush}
use netxy.DataSocket.Queue.{pending, callbacks}
use netxy.DataSocket.Ends.{Stop, all_sent, waiting, Ending, flush_steps_lem}
use netxy.DataSocket.Rounds.{AllWithin}
use netxy.DataSocket.Life.{
  Event, send_event, writable_event, proc_event, close_event, shutdown_event, flushes, IsQuiet,
  IsValid,
}
use netxy.DataSocket.Life.Keep.{proc_close_in_loop-IsValid, quiet_closed}
use netxy.DataSocket.Life.Data.{SameData, proc_close_in_loop-SameData}

-- What an event adds to the bytes and to the callbacks.
unfoldable pub event_bytes : Event → List ℕ
event_bytes (send_event packet callback) = packet
event_bytes writable_event = []
event_bytes (proc_event answers) = []
event_bytes close_event = []
event_bytes shutdown_event = []

unfoldable pub event_calls : Event → List ℕ
event_calls (send_event packet none) = []
event_calls (send_event packet (some c)) = c ∷ []
event_calls writable_event = []
event_calls (proc_event answers) = []
event_calls close_event = []
event_calls shutdown_event = []

unfoldable pub sent_bytes : List Event → List ℕ
sent_bytes [] = []
sent_bytes (e ∷ es) = event_bytes e ++ sent_bytes es

unfoldable pub sent_calls : List Event → List ℕ
sent_calls [] = []
sent_calls (e ∷ es) = event_calls e ++ sent_calls es

-- The system takes no more than it is offered.
abbrev pub IsAllowed : Event → Type 0
IsAllowed (proc_event answers) = AllWithin answers
IsAllowed (send_event packet callback) = Unit
IsAllowed writable_event = Unit
IsAllowed close_event = Unit
IsAllowed shutdown_event = Unit

abbrev pub AllAllowed : List Event → Type 0
AllAllowed [] = Unit
AllAllowed (e ∷ es) = IsAllowed e × AllAllowed es

-- A connection that went on from `s`, with more bytes and more callbacks.
pub record Next (s : DataSocket) (bytes calls : List ℕ) (t : DataSocket) : Type 0 where
  pub valid : IsValid t
  pub all_bytes : t.written ++ pending t.send_list ≡ (s.written ++ pending s.send_list) ++ bytes
  pub all_calls :
      t.completed ++ callbacks t.send_list ≡ (s.completed ++ callbacks s.send_list) ++ calls

-- Nothing is added.
pub SameData-Next : (s t : DataSocket) → IsValid t → SameData s t → Next s [] [] t
SameData-Next s t v d = record {
  valid = v;
  all_bytes = rw (d.send_list, d.written) (sym (append-nil _));
  all_calls = rw (d.send_list, d.completed) (sym (append-nil _));
}

pub same : (s : DataSocket) → SameData s s
same s = record { send_list = refl; written = refl; completed = refl }

core-IsQuiet :
    (s t : DataSocket) (e : Ending true true s t) → IsQuiet s → s.can_write ≡ true → IsQuiet e.core
unfolding is_open
core-IsQuiet s t e q w =
    let a = e.after in
    record {
      fit = a.fit;
      posted = ap flushes a.procs ∙ q.posted ∙ ap (λ b. if b then 1 else 0) (sym a.posted);
      once = rw (a.disconnected, a.procs, a.final) q.once;
      final =
          ap (λ o. elim o as (λ x. Bool) [ none ↦ false | some fd ↦ true ]) a.fd
          ∙ q.final
          ∙ ap not (sym a.final);
      closed_once = ap length a.closed ∙ q.closed_once ∙ ap (λ b. if b then 1 else 0) (sym a.final);
      watched = λ o h u. e.watched refl (λ v. absurd (true≢false (sym w ∙ v))) u;
    }

Stop-blocked : (s : DataSocket) → Stop true s → is_empty s.send_list ≡ false → s.can_write ≡ false
unfolding has_work
Stop-blocked s (all_sent e) u = absurd (true≢false (sym (ap not u) ∙ e))
Stop-blocked s (waiting e w) u = e

Ending-Next :
    (s t : DataSocket) → Ending true true s t → IsQuiet s → s.can_write ≡ true → Next s [] [] t
Ending-Next s t e q w =
    let core = e.core in
    let quiet = core-IsQuiet s t e q w in
    elim e.how [
      | inl (same, stop) ↦ subst (Next s [] []) (sym same) (record {
        valid = record { quiet = quiet; wake = λ o h u. inr (Stop-blocked core stop u) };
        all_bytes = e.after.bytes ∙ sym (append-nil _);
        all_calls = e.after.calls ∙ sym (append-nil _);
      })
      | inr same ↦
          let kept = proc_close_in_loop-SameData core quiet in
          subst (Next s [] []) (sym same) (record {
            valid = proc_close_in_loop-IsValid core quiet;
            all_bytes = rw (kept.send_list, kept.written) (e.after.bytes ∙ sym (append-nil _));
            all_calls = rw (kept.send_list, kept.completed) (e.after.calls ∙ sym (append-nil _));
          })
    ]

pub flush-Next :
    (answers : ℕ → List ℕ → Answer) (s : DataSocket)
    → AllWithin answers
    → IsQuiet s
    → (t : DataSocket) × (flush true true answers s ≡ some t) × Next s [] [] t
unfolding flush
flush-Next answers s within q = elim (Bool-cases s.can_write) [
  | inl t ↦ elim (Bool-cases (is_open s)) [
    | inl u ↦
        let (last, e, end) =
          flush_steps_lem true true answers 0 (suc (length s.send_list)) s within q.fit
            (omega arith) in
        (last, if_true _ _ t ∙ if_true _ _ u ∙ e, Ending-Next s last end q t)
    | inr u ↦ (s, if_true _ _ t ∙ if_false _ _ u, SameData-Next s s (quiet_closed s q u) (same s))
  ]
  | inr t ↦
      (s, if_false _ _ t, SameData-Next s s (record { quiet = q; wake = λ o h e. inr t }) (same s))
]
