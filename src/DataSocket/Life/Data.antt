-- ===== src/DataSocket/Life/Data.antt =====
-- The operations that send nothing leave the packets and what became of them as they were.
use mathlib.Core.Path.{subst}
use netxy.Base.{Option-cases, ◌≡◌, refl, sym, ap, ◌∙◌, Bool, true, false, if◌then◌else◌, inl, inr}
use netxy.DataSocket.{
  DataSocket, is_empty, is_open, run_after_flush, remove_check_write, can_send, proc_close_in_loop,
  proc_shutdown_in_loop, shutdown_in_loop,
}
use netxy.DataSocket.Life.{IsQuiet}
use netxy.DataSocket.Life.Keep.{
  remove_check_write_eq, proc_close_in_loop_eq, closed_same, not_closed,
}

-- The packets and what became of them are the same.
pub record SameData (s t : DataSocket) : Type 0 where
  pub send_list : t.send_list ≡ s.send_list
  pub written : t.written ≡ s.written
  pub completed : t.completed ≡ s.completed

same_if :
    (b : Bool) {s x y : DataSocket} → SameData s x → SameData s y → SameData s (if b then x else y)
same_if true h g = h
same_if false h g = g

same_refl : (s : DataSocket) → SameData s s
same_refl s = record { send_list = refl; written = refl; completed = refl }

pub run_after_flush-SameData : (s : DataSocket) → SameData s (run_after_flush s)
unfolding run_after_flush
run_after_flush-SameData s = same_if s.is_post_flush (same_refl s) (
    same_if (is_empty s.send_list) (same_refl s) (
      same_if (is_open s) (record { send_list = refl; written = refl; completed = refl })
        (same_refl s)))

pub can_send-SameData : (s : DataSocket) → SameData s (can_send s)
unfolding can_send
can_send-SameData s =
    let base = record (remove_check_write s) { can_write = true } in
    let same = run_after_flush-SameData base in
    let removed = remove_check_write_eq s in
    record {
      send_list = same.send_list ∙ ap (λ t. t.send_list) removed;
      written = same.written ∙ ap (λ t. t.written) removed;
      completed = same.completed ∙ ap (λ t. t.completed) removed;
    }

pub proc_shutdown_in_loop-SameData : (s : DataSocket) → SameData s (proc_shutdown_in_loop s)
unfolding proc_shutdown_in_loop
proc_shutdown_in_loop-SameData s =
    same_if (is_open s) (record { send_list = refl; written = refl; completed = refl })
      (same_refl s)

pub shutdown_in_loop-SameData : (s : DataSocket) → SameData s (shutdown_in_loop s)
unfolding shutdown_in_loop
shutdown_in_loop-SameData s =
    same_if (is_open s) (record { send_list = refl; written = refl; completed = refl })
      (same_refl s)

pub proc_close_in_loop-SameData : (s : DataSocket) → IsQuiet s → SameData s (proc_close_in_loop s)
unfolding is_open
proc_close_in_loop-SameData s q = elim (Option-cases s.fd) [
  | inl t ↦ subst (SameData s) (sym (closed_same s (rw t refl))) (same_refl s)
  | inr (fd, t) ↦
      subst (SameData s) (sym (proc_close_in_loop_eq s fd t (not_closed _ (sym (rw t at q.final)))))
        (record { send_list = refl; written = refl; completed = refl })
]
