-- ===== src/TcpService/Listen/Arrival.antt =====
-- Every descriptor that comes is accounted for, and no assert fails.
use mathlib.Core.Option.{some-injective}
use netxy.Base.{
  ℕ, ◌+◌, ◌≤◌, ◌<◌, ◌≡◌, refl, Bool, true, false, ◌&&◌, ◌||◌, not, some, List, [], ◌∷◌, ◌++◌, arith,
  ◌==◌, length, count, count-push, total, is_some, if◌then◌else◌, Option-cases, Bool-cases,
  both_true, inl, inr, none≢some,
}
use netxy.TcpService.Listen.{
  Listener, accepting, testing, ended, Service, start, find_loop, help_add_channel, add_data_socket,
  on_enter_event_loop, take_posted, Turn, accept_fails, accept_gives, test_run, close_listen,
  add_turn, enter_turn, came, listen_at, turn, run,
}
use netxy.TcpService.Listen.Valid.{
  has, outside, Inv, on_enter_event_loop-Inv, Goes, slack, tested_few, start-Inv, came-Inv,
  help_add_channel-Inv, accept-Goes,
}

listen_at-Goes :
    {n : ℕ} (at : Listener) (t : Turn) (s : Service)
    → 0 < n
    → s.listener ≡ at
    → Inv n [] s
    → Goes n (listen_at at t s)
unfolding listen_at
listen_at-Goes accepting (accept_gives fd rand) s b e v = accept-Goes fd rand s b e v
listen_at-Goes testing test_run s b e v = (
  record s { listener = if s.run_listen then accepting else ended },
  refl,
  record {
    loops = v.loops;
    account = v.account;
    inside = v.inside;
    few = tested_few s.run_listen s.listener v.few;
  },
)
listen_at-Goes accepting t s b e v = (s, refl, v)
listen_at-Goes testing t s b e v = (s, refl, v)
listen_at-Goes ended t s b e v = (s, refl, v)

-- What is taken was there.
total-take_posted :
    (w : ℕ × ℕ → ℕ) (l : ℕ) (posted : List (ℕ × ℕ)) {fd : ℕ}
    → (take_posted l posted).0 ≡ some fd
    → total w posted ≡ w (l, fd) + total w (take_posted l posted).1
unfolding take_posted
total-take_posted w l [] e = absurd (none≢some e)
total-take_posted w l ((k, f) ∷ posted) {fd} e = elim (Bool-cases (k == l)) [
  | inl same ↦
      let first : f ≡ fd = some-injective _ _ (rw (same, take_posted) at e) in
      let at : k ≡ l = ground (arith, same) in rw (same, take_posted) (rw first (rw at refl))
  | inr other ↦
      let later = total-take_posted w l posted (rw (other, take_posted) at e) in
      rw (other, take_posted) (omega (arith, later))
]

enter-Goes :
    {n : ℕ} (l : ℕ) (linked read : Bool) (s : Service)
    → Inv n [] s
    → Goes n (turn (enter_turn l linked read) s)
unfolding turn
enter-Goes {n} l linked read s v = elim (Option-cases (take_posted l s.posted).0) [
  | inl e ↦ rw (e, turn) (s, refl, v)
  | inr (fd, e) ↦
      let taken : Service = record s { posted = (take_posted l s.posted).1 } in
      let within : l < n = ground (arith, v.inside, total-take_posted (outside n) l s.posted e) in
      rw (e, turn)
        (
          on_enter_event_loop l fd linked read taken,
          refl,
          on_enter_event_loop-Inv l fd linked read taken within (record {
            loops = v.loops;
            account = λ k. omega (arith, v.account k, total-take_posted (has k) l s.posted e);
            inside = omega (arith, v.inside, total-take_posted (outside n) l s.posted e);
            few = v.few;
          }),
        )
]

-- A connection that is bound to a loop's thread is added by such a thread.
abbrev pub is_allowed : ℕ → Turn → Bool
is_allowed n (add_turn fd is_use_ssl force in_thread linked read rand) =
    is_use_ssl || (not force || is_some (find_loop in_thread n))
is_allowed n t = true

add-Goes :
    {n : ℕ} (fd : ℕ) (is_use_ssl force : Bool) (in_thread : ℕ → Bool) (linked read : Bool)
    (rand : ℕ) (s : Service)
    → 0 < n
    → is_allowed n (add_turn fd is_use_ssl force in_thread linked read rand) ≡ true
    → Inv n [] s
    → Goes n (turn (add_turn fd is_use_ssl force in_thread linked read rand) s)
unfolding turn add_data_socket
add-Goes fd true force in_thread linked read rand s b ok v =
    let w = came-Inv fd s v in
    (
      record (came fd s) { closed = (came fd s).closed ++ fd ∷ [] },
      refl,
      record {
        loops = w.loops;
        account = λ k. omega (arith, w.account k, count-push k fd (came fd s).closed);
        inside = w.inside;
        few = w.few;
      },
    )
add-Goes fd false force in_thread linked read rand s b ok v =
    let (added, w) =
      help_add_channel-Inv force in_thread linked read rand fd (came fd s) b ok (came-Inv fd s v) in
    (
      (help_add_channel force in_thread linked read rand fd (came fd s)).1,
      rw (added, turn, add_data_socket) refl,
      w,
    )

close-Goes : {n : ℕ} (s : Service) → Inv n [] s → Goes n (turn close_listen s)
unfolding turn
close-Goes s v = (
  record s { run_listen = false },
  refl,
  record {
    loops = v.loops;
    account = v.account;
    inside = v.inside;
    few = wider s.run_listen s.listener v.few;
  },
)
  where
    wider :
        (runs : Bool) (at : Listener)
        → length s.lost ≤ slack runs at
        → length s.lost ≤ slack false at
    wider false at f = f
    wider true accepting f = f
    wider true testing f = omega (arith, f)
    wider true ended f = omega (arith, f)

turn-Goes :
    {n : ℕ} (t : Turn) (s : Service)
    → 0 < n
    → is_allowed n t ≡ true
    → Inv n [] s
    → Goes n (turn t s)
turn-Goes (add_turn fd is_use_ssl force in_thread linked read rand) s b ok v =
    add-Goes fd is_use_ssl force in_thread linked read rand s b ok v
turn-Goes (enter_turn l linked read) s b ok v = enter-Goes l linked read s v
turn-Goes close_listen s b ok v = close-Goes s v
turn-Goes accept_fails s b ok v = unfold turn in listen_at-Goes s.listener accept_fails s b refl v
turn-Goes (accept_gives fd rand) s b ok v =
    unfold turn in listen_at-Goes s.listener (accept_gives fd rand) s b refl v
turn-Goes test_run s b ok v = unfold turn in listen_at-Goes s.listener test_run s b refl v

abbrev pub all_allowed : ℕ → List Turn → Bool
all_allowed n [] = true
all_allowed n (t ∷ ts) = is_allowed n t && all_allowed n ts

run-Goes :
    {n : ℕ} (ts : List Turn) (s : Service)
    → 0 < n
    → all_allowed n ts ≡ true
    → Inv n [] s
    → Goes n (run ts s)
unfolding run
run-Goes [] s b ok v = (s, refl, v)
run-Goes {n} (t ∷ ts) s b ok v =
    let (first, more) = both_true (is_allowed n t) (all_allowed n ts) ok in
    let (u, e, w) = turn-Goes t s b first v in rw (e, run) (run-Goes ts u b more w)

-- A service with at least one loop goes on without a failed assert, if connections that are bound to a
-- loop's thread are added by such a thread: whatever the system answers, each descriptor that came, by the
-- listening thread or by addDataSocket, entered a loop, waits for one, or was closed, as often as it came,
-- but for at most one, which was accepted when the listening was closed; and the loops are those there are.
pub run-start_accounts :
    (n : ℕ) (ts : List Turn)
    → 0 < n
    → all_allowed n ts ≡ true
    → (s : Service) × (run ts (start n) ≡ some s)
      × ((fd : ℕ)
          → total (has fd) s.posted + total (has fd) s.entered + count fd s.closed + count fd s.lost
            ≡ count fd s.arrived)
      × (total (outside n) s.posted + total (outside n) s.entered ≡ 0)
      × (length s.lost + (if s.run_listen then 1 else 0) ≤ 1)
run-start_accounts n ts b ok =
    let (s, e, v) = run-Goes ts (start n) b ok (start-Inv n) in
    (s, e, λ fd. omega (arith, v.account fd), v.inside, one s.run_listen s.listener v.few)
  where
    one :
        (runs : Bool) (at : Listener) {k : ℕ} → k ≤ slack runs at → k + (if runs then 1 else 0) ≤ 1
    one true at f = omega (arith, f)
    one false accepting f = omega (arith, f)
    one false testing f = omega (arith, f)
    one false ended f = omega (arith, f)
