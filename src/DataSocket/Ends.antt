-- ===== src/DataSocket/Ends.antt =====
-- A flush, round by round: it comes to an end.
use mathlib.Core.Bool.{true≢false}
use mathlib.Core.Path.{subst}
use netxy.Base.{
  ℕ, zero, suc, ◌-◌, ◌<◌, ◌≡◌, refl, sym, ◌∙◌, Bool, true, false, not, some, List, [], ◌∷◌, arith,
  ltb, leb, ◌==◌, length, if◌then◌else◌, Bool-cases, inl, inr, ◌⊎◌,
}
use netxy.DataSocket.{Pending, DataSocket, is_empty, check_write, proc_close_in_loop}
use netxy.DataSocket.Flush.{
  Answer, gather, gather_normal, has_work, erase_sent, wait_write, write_round, flush_steps,
}
use netxy.DataSocket.Queue.{AllFit, length-erase_sent, gather_first}
use netxy.DataSocket.Rounds.{AllWithin, After, kept, kept_on, write_round-After}

has_work-nil : (quick : Bool) → has_work quick [] ≡ false
unfolding has_work gather gather_normal
has_work-nil true = refl
has_work-nil false = refl

erase_sent_first :
    (quick : Bool) (n : ℕ) (ps : List Pending)
    → AllFit ps
    → has_work quick ps ≡ true
    → n ≡ length (gather quick ps)
    → length (erase_sent n ps).0 < length ps
unfolding erase_sent
erase_sent_first quick n [] fit work e = absurd (true≢false (sym work ∙ has_work-nil quick))
erase_sent_first quick n (p ∷ ps) fit work e =
    let whole : leb p.left n ≡ true = ground (arith, gather_first quick p ps fit.0) in
    rw whole (omega (arith, length-erase_sent (n - p.left) ps))

-- A round that goes back has erased the first packet.
again_shorter :
    (quick check : Bool) (a : Answer) (s : DataSocket)
    → AllFit s.send_list
    → has_work quick s.send_list ≡ true
    → (write_round check (gather quick s.send_list) a s).again ≡ true
    → length (write_round check (gather quick s.send_list) a s).socket.send_list
      < length s.send_list
unfolding write_round wait_write
again_shorter quick check a s fit work e = elim (Bool-cases (ltb 0 a.count)) [
  | inl t ↦ elim (Bool-cases (a.count == length (gather quick s.send_list))) [
    | inl u ↦
        rw (t, u, if◌then◌else◌)
          (erase_sent_first quick a.count s.send_list fit work (ground arith))
    | inr u ↦ absurd (true≢false (sym (rw (t, u) at e)))
  ]
  | inr t ↦ elim (Bool-cases a.would_block) [
    | inl u ↦ absurd (true≢false (sym (rw (t, u) at e)))
    | inr u ↦ absurd (true≢false (sym (rw (t, u) at e)))
  ]
]

-- How a flush ends: nothing is left to send, or it waits, or it closes the connection.
pub data Stop (quick : Bool) (s : DataSocket) : Type 0 where
  all_sent : has_work quick s.send_list ≡ false → Stop quick s
  waiting : s.can_write ≡ false → s.write_watch ≡ true → Stop quick s

wait_write-Stop :
    (quick check : Bool) (s : DataSocket)
    → (wait_write check s).must_close ≡ false
    → Stop quick (wait_write check s).socket
unfolding wait_write check_write
wait_write-Stop quick true s e = waiting refl refl
wait_write-Stop quick false s e = absurd (true≢false e)

write_round-Stop :
    (quick check : Bool) (a : Answer) (s : DataSocket)
    → (write_round check (gather quick s.send_list) a s).again ≡ false
    → (write_round check (gather quick s.send_list) a s).must_close ≡ false
    → Stop quick (write_round check (gather quick s.send_list) a s).socket
unfolding write_round
write_round-Stop quick check a s e e2 = elim (Bool-cases (ltb 0 a.count)) [
  | inl t ↦ elim (Bool-cases (a.count == length (gather quick s.send_list))) [
    | inl u ↦
        rw (t, u) (all_sent (no_work quick (erase_sent a.count s.send_list).0 (rw (t, u) at e)))
    | inr u ↦ rw (t, u) (wait_write-Stop quick check _ (rw (t, u) at e2))
  ]
  | inr t ↦ elim (Bool-cases a.would_block) [
    | inl u ↦ rw (t, u) (wait_write-Stop quick check s (rw (t, u) at e2))
    | inr u ↦ absurd (true≢false (rw (t, u) at e2))
  ]
]
  where
    no_work :
        (quick : Bool) (ps : List Pending) → not (is_empty ps) ≡ false → has_work quick ps ≡ false
    no_work quick [] e = has_work-nil quick
    no_work quick (p ∷ ps) e = absurd (true≢false e)

-- A socket that is not writable is watched.
abbrev IsWatched : DataSocket → Type 0
IsWatched s = s.can_write ≡ false → s.write_watch ≡ true

write_round-IsWatched :
    (ready : List ℕ) (a : Answer) (s : DataSocket)
    → IsWatched s
    → IsWatched (write_round true ready a s).socket
unfolding write_round wait_write check_write
write_round-IsWatched ready a s w = elim (Bool-cases (ltb 0 a.count)) [
  | inl t ↦ elim (Bool-cases (a.count == length ready)) [
    | inl u ↦ rw (t, u) w
    | inr u ↦ rw (t, u) (λ e. refl)
  ]
  | inr t ↦ elim (Bool-cases a.would_block) [ inl u ↦ rw (t, u) (λ e. refl) | inr u ↦ rw (t, u) w ]
]

-- The socket that the rounds of a flush reach, and what the flush returns then.
pub record Ending (quick check : Bool) (s t : DataSocket) : Type 0 where
  pub core : DataSocket
  pub after : After s core
  pub watched : check ≡ true → IsWatched s → IsWatched core
  pub how : (t ≡ core) × Stop quick core ⊎ t ≡ proc_close_in_loop core

-- A flush comes to an end, with one round for each packet.
pub flush_steps_lem :
    (quick check : Bool) (answers : ℕ → List ℕ → Answer) (k fuel : ℕ) (s : DataSocket)
    → AllWithin answers
    → AllFit s.send_list
    → length s.send_list < fuel
    → (t : DataSocket) × (flush_steps quick check answers k fuel s ≡ some t)
      × Ending quick check s t
unfolding flush_steps
flush_steps_lem quick check answers k zero s within fit lt = absurd (omega arith)
flush_steps_lem quick check answers k (suc fuel) s within fit lt =
    let ready = gather quick s.send_list in
    let round = write_round check ready (answers k ready) s in
    let after = write_round-After quick check (answers k ready) s fit (within k ready) in
    let watch : check ≡ true → IsWatched s → IsWatched round.socket = λ c w.
      subst (λ c. IsWatched (write_round c ready (answers k ready) s).socket) (sym c)
        (write_round-IsWatched ready (answers k ready) s w) in
    elim (Bool-cases (has_work quick s.send_list)) [
      | inl t ↦ elim (Bool-cases round.again) [
        | inl u ↦
            let (last, e, end) =
              flush_steps_lem quick check answers (suc k) fuel round.socket within after.fit
                (omega (arith, again_shorter quick check (answers k ready) s fit t u)) in
            (
              last,
              rw (t, u) e,
              record {
                core = end.core;
                after = kept_on after end.after;
                watched = λ c w. end.watched c (watch c w);
                how = end.how;
              },
            )
        | inr u ↦ elim (Bool-cases round.must_close) [
          | inl v ↦ (
            proc_close_in_loop round.socket,
            rw (t, u, v) refl,
            record { core = round.socket; after = after; watched = watch; how = inr refl },
          )
          | inr v ↦ (
            round.socket,
            rw (t, u, v) refl,
            record {
              core = round.socket;
              after = after;
              watched = watch;
              how = inl (refl, write_round-Stop quick check (answers k ready) s u v);
            },
          )
        ]
      ]
      | inr t ↦ (
        s,
        rw t refl,
        record { core = s; after = kept s fit; watched = λ c w. w; how = inl (refl, all_sent t) },
      )
    ]
