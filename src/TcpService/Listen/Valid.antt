-- ===== src/TcpService/Listen/Valid.antt =====
-- What the descriptors in the lists say of each other, and that adding one keeps it.
use mathlib.Core.Option.{some-injective}
use netxy.Base.{
  ℕ, zero, suc, ◌+◌, ◌%◌, ◌≤◌, ◌<◌, ◌≡◌, refl, Bool, true, false, ◌&&◌, ◌||◌, not, Option, some,
  List, [], ◌∷◌, ◌++◌, arith, ltb, ◌==◌, length, length-append, count, count-push, total,
  total-append, is_some, if◌then◌else◌, Option-cases, Bool-cases, inl, inr, none≢some,
}
use netxy.TcpService.Listen.{
  Listener, accepting, testing, ended, Service, start, find_loop, on_enter_event_loop, post_channel,
  help_add_channel, on_accept, came, accept,
}

-- is an entry that of a descriptor, and is it of no loop?
abbrev pub has : ℕ → ℕ × ℕ → ℕ
has fd (l, f) = if fd == f then 1 else 0

abbrev pub outside : ℕ → ℕ × ℕ → ℕ
outside n (l, f) = if ltb l n then 0 else 1

-- How many descriptors may have been lost
abbrev pub slack : Bool → Listener → ℕ
slack true at = 0
slack false accepting = 0
slack false testing = 1
slack false ended = 1

runs_few : {k : ℕ} (r : Bool) (at next : Listener) → r ≡ true → k ≤ slack r at → k ≤ slack r next
runs_few true at next e f = f
runs_few false at next e f = cc

pub tested_few :
    {k : ℕ} (r : Bool) (at : Listener)
    → k ≤ slack r at
    → k ≤ slack r (if r then accepting else ended)
tested_few true at f = f
tested_few false accepting f = omega (arith, f)
tested_few false testing f = f
tested_few false ended f = f

-- `held` lists the descriptors that came and are not yet in one of the lists.
pub record Inv (n : ℕ) (held : List ℕ) (s : Service) : Type 0 where
  pub loops : s.loop_num ≡ n
  pub account :
      (fd : ℕ)
      → total (has fd) s.posted
          + total (has fd) s.entered
          + count fd s.closed
          + count fd s.lost
          + count fd held
        ≡ count fd s.arrived
  pub inside : total (outside n) s.posted + total (outside n) s.entered ≡ 0
  pub few : length s.lost ≤ slack s.run_listen s.listener

-- a result that is there and holds what is held no more
abbrev pub Goes : ℕ → Option Service → Type 0
Goes n r = (t : Service) × (r ≡ some t) × Inv n [] t

pub start-Inv : (n : ℕ) → Inv n [] (start n)
unfolding start
start-Inv n = record {
  loops = refl;
  account = λ fd. omega arith;
  inside = omega arith;
  few = omega arith;
}

pub came-Inv : {n : ℕ} (fd : ℕ) (s : Service) → Inv n [] s → Inv n (fd ∷ []) (came fd s)
unfolding came
came-Inv fd s v = record {
  loops = v.loops;
  account = λ k. omega (arith, v.account k, count-push k fd s.arrived);
  inside = v.inside;
  few = v.few;
}

pub on_enter_event_loop-Inv :
    {n : ℕ} (l fd : ℕ) (linked read : Bool) (s : Service)
    → l < n
    → Inv n (fd ∷ []) s
    → Inv n [] (on_enter_event_loop l fd linked read s)
unfolding on_enter_event_loop
on_enter_event_loop-Inv {n} l fd linked read s b v = elim (Bool-cases (linked && read)) [
  | inl entered ↦
      rw (entered, on_enter_event_loop)
        (record {
          loops = v.loops;
          account = λ k. omega (arith, v.account k, total-append (has k) s.entered ((l, fd) ∷ []));
          inside = ground (arith, v.inside, total-append (outside n) s.entered ((l, fd) ∷ []), b);
          few = v.few;
        })
  | inr failed ↦
      rw (failed, on_enter_event_loop)
        (record {
          loops = v.loops;
          account = λ k. omega (arith, v.account k, count-push k fd s.closed);
          inside = v.inside;
          few = v.few;
        })
]

post_channel-Inv :
    {n : ℕ} (in_thread : ℕ → Bool) (linked read : Bool) (l fd : ℕ) (s : Service)
    → l < n
    → Inv n (fd ∷ []) s
    → Inv n [] (post_channel in_thread linked read l fd s)
unfolding post_channel
post_channel-Inv {n} in_thread linked read l fd s b v = elim (Bool-cases (in_thread l)) [
  | inl own ↦ rw (own, post_channel) (on_enter_event_loop-Inv l fd linked read s b v)
  | inr other ↦
      rw (other, post_channel)
        (record {
          loops = v.loops;
          account = λ k. omega (arith, v.account k, total-append (has k) s.posted ((l, fd) ∷ []));
          inside = ground (arith, v.inside, total-append (outside n) s.posted ((l, fd) ∷ []), b);
          few = v.few;
        })
]

find_loop-lt : (in_thread : ℕ → Bool) (n : ℕ) {l : ℕ} → find_loop in_thread n ≡ some l → l < n
unfolding find_loop
find_loop-lt in_thread zero e = absurd (none≢some e)
find_loop-lt in_thread (suc n) {l} e = elim (Option-cases (find_loop in_thread n)) [
  | inr (i, f) ↦
      let same : i ≡ l = some-injective _ _ (rw (f, find_loop) at e) in
      omega (arith, same, find_loop-lt in_thread n f)
  | inl f ↦ elim (Bool-cases (in_thread n)) [
    | inl t ↦
        let same : n ≡ l = some-injective _ _ (rw (f, t, find_loop) at e) in omega (arith, same)
    | inr t ↦ absurd (none≢some (rw (f, t, find_loop) at e))
  ]
]

pub help_add_channel-Inv :
    {n : ℕ} (force : Bool) (in_thread : ℕ → Bool) (linked read : Bool) (rand fd : ℕ) (s : Service)
    → 0 < n
    → (not force || is_some (find_loop in_thread n)) ≡ true
    → Inv n (fd ∷ []) s
    → ((help_add_channel force in_thread linked read rand fd s).0 ≡ true)
      × Inv n [] (help_add_channel force in_thread linked read rand fd s).1
unfolding help_add_channel
help_add_channel-Inv {n} force in_thread linked read rand fd s b ok v =
    let some_loop : (s.loop_num == 0) ≡ false = ground (arith, v.loops, b) in
    by_force force ok some_loop
  where
    by_force :
        (force : Bool)
        → (not force || is_some (find_loop in_thread n)) ≡ true
        → (s.loop_num == 0) ≡ false
        → ((help_add_channel force in_thread linked read rand fd s).0 ≡ true)
          × Inv n [] (help_add_channel force in_thread linked read rand fd s).1
    by_force false ok some_loop =
        rw (some_loop, help_add_channel)
          (
            refl,
            post_channel-Inv in_thread linked read (rand % s.loop_num) fd s
                (rw v.loops (grind arith)) v,
          )
    by_force true ok some_loop = elim (Option-cases (find_loop in_thread n)) [
      | inl e ↦ let wrong : false ≡ true = rw e at ok in cc
      | inr (l, e) ↦
          let found : find_loop in_thread s.loop_num ≡ some l = rw v.loops e in
          rw (some_loop, found, help_add_channel)
            (refl, post_channel-Inv in_thread linked read l fd s (find_loop-lt in_thread n e) v)
    ]

on_accept-Goes :
    {n : ℕ} (rand fd : ℕ) (s : Service) → 0 < n → Inv n (fd ∷ []) s → Goes n (on_accept rand fd s)
unfolding on_accept
on_accept-Goes rand fd s b v =
    let (yes_added, w) = help_add_channel-Inv false (λ i. false) false false rand fd s b refl v in
    (
      (help_add_channel false (λ i. false) false false rand fd s).1,
      rw (yes_added, on_accept) refl,
      w,
    )

pub accept-Goes :
    {n : ℕ} (fd rand : ℕ) (s : Service)
    → 0 < n
    → s.listener ≡ accepting
    → Inv n [] s
    → Goes n (accept fd rand s)
unfolding accept came
accept-Goes {n} fd rand s b at v =
    by_run s.run_listen
      (λ runs. on_accept-Goes rand fd _ b (record {
        loops = v.loops;
        account = (came-Inv fd s v).account;
        inside = v.inside;
        few = runs_few s.run_listen s.listener testing runs v.few;
      }))
      (λ stopped. (
        record (came fd s) { listener = testing; lost = s.lost ++ fd ∷ [] },
        refl,
        record {
          loops = v.loops;
          account =
              λ k. omega (arith, v.account k, count-push k fd s.lost, count-push k fd s.arrived);
          inside = v.inside;
          few = stopped_few s.run_listen s.listener stopped at v.few;
        },
      ))
  where
    by_run :
        (r : Bool) {a c : Option Service}
        → (r ≡ true → Goes n a)
        → (r ≡ false → Goes n c)
        → Goes n (if r then a else c)
    by_run true f g = f refl
    by_run false f g = g refl

    stopped_few :
        (r : Bool) (where_at : Listener)
        → r ≡ false
        → where_at ≡ accepting
        → length s.lost ≤ slack r where_at
        → length (s.lost ++ fd ∷ []) ≤ slack r testing
    stopped_few r where_at off at f =
        let g : length s.lost ≤ slack false accepting = rw (off, at) at f in
        rw off (omega (arith, g, length-append s.lost (fd ∷ [])))
