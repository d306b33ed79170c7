-- ===== src/EventLoop/Serve.antt =====
-- A loop that waits runs the procedures of other threads once the eventfd reads.
use netxy.Base.{
  ℕ, ◌<◌, ◌≡◌, refl, ap, ◌∙◌, sym, true, false, some, List, [], ◌∷◌, ◌++◌, arith, length, replicate,
  append-nil, append_assoc, leb,
}
use netxy.EventLoop.{
  Event, waiting, running, polled, handling, EventLoop, Act, get_events, go_loop, wait, dispatch,
  process_async_procs, loop, step, run,
}

-- the event of the `WakeupChannel`
abbrev pub wake_event : Event
wake_event = record { channel = 0; rdhup = false; readable = true; writable = false }

module _ {P : Type 0} where
  run-step :
      (a : Act P) (acts : List (Act P)) (s t : EventLoop P)
      → step a s ≡ some t
      → run (a ∷ acts) s ≡ run acts t
  unfolding run
  run-step a acts s t e = rw (e, run) refl

  step-running :
      (s : EventLoop P) (f : P) (fs : List P)
      → s.at ≡ running
      → s.copy_async_procs ≡ f ∷ fs
      → step go_loop s ≡ some (record s { ran = s.ran ++ f ∷ []; copy_async_procs = fs })
  unfolding step loop process_async_procs
  step-running s f fs a c = ap (λ p. loop p s) a ∙ ap (λ l. some (process_async_procs l s)) c

  -- The procedures that were taken run one by one.
  drain_copy :
      (fs : List P) (s : EventLoop P)
      → s.at ≡ running
      → s.copy_async_procs ≡ fs
      → (u : EventLoop P) × (run (replicate (length fs) go_loop) s ≡ some u)
        × (u.ran ≡ s.ran ++ fs)
        × (u.async_procs ≡ s.async_procs)
  unfolding run
  drain_copy [] s a c = (s, refl, sym (append-nil s.ran), refl)
  drain_copy (f ∷ fs) s a c =
      let r = drain_copy fs (record s { ran = s.ran ++ f ∷ []; copy_async_procs = fs }) a refl in
      (
        r.0,
        run-step go_loop (replicate (length fs) go_loop) s _ (step-running s f fs a c) ∙ r.1,
        r.2 ∙ append_assoc s.ran (f ∷ []) fs,
        r.3,
      )

  step-waiting :
      (s : EventLoop P) (timeout : ℕ)
      → s.at ≡ waiting timeout
      → s.signal ≡ true
      → 0 < s.event_entries_num
      → step (get_events (wake_event ∷ [])) s
        ≡ some (record s { at = polled (wake_event ∷ []); num_complete = 1 })
  unfolding step wait
  step-waiting s timeout a e n =
      ap (λ p. wait (wake_event ∷ []) p s) a
      ∙ (let fits : leb 1 s.event_entries_num ≡ true = ground arith in rw e (rw fits refl))

  step_on :
      (s : EventLoop P) (acts : List (Act P))
      → s.at ≡ polled (wake_event ∷ [])
      → run (go_loop ∷ go_loop ∷ go_loop ∷ go_loop ∷ go_loop ∷ acts) s
        ≡ run acts (record s {
          at = running;
          is_in_block = true;
          is_already_post_wakeup = false;
          signal = false;
          calls = s.calls ++ dispatch wake_event;
          copy_async_procs = s.async_procs;
          async_procs = s.copy_async_procs;
        })
  unfolding run step loop
  step_on s acts a =
      run-step go_loop (go_loop ∷ go_loop ∷ go_loop ∷ go_loop ∷ acts) s
        (record s { at = handling (wake_event ∷ []); is_in_block = false }) (ap (λ p. loop p s) a)

  -- A loop in `epoll_wait` whose eventfd reads can go on by itself, and with one action for each procedure
  -- and six more it has run all that waited, in order, with none left.
  pub run-waiting_serves :
      (s : EventLoop P) (timeout : ℕ)
      → s.at ≡ waiting timeout
      → s.signal ≡ true
      → 0 < s.event_entries_num
      → s.copy_async_procs ≡ []
      → (u : EventLoop P) × (run
            (get_events (wake_event ∷ []) ∷ replicate 5 go_loop
              ++ replicate (length s.async_procs) go_loop)
            s
          ≡ some u)
        × (u.ran ≡ s.ran ++ s.async_procs)
        × (u.async_procs ≡ [])
  run-waiting_serves s timeout a e n c =
      let t : EventLoop P = record s { at = polled (wake_event ∷ []); num_complete = 1 } in
      let r =
        drain_copy s.async_procs
          (record t {
            at = running;
            is_in_block = true;
            is_already_post_wakeup = false;
            signal = false;
            calls = s.calls ++ dispatch wake_event;
            copy_async_procs = s.async_procs;
            async_procs = s.copy_async_procs;
          })
          refl refl in
      (
        r.0,
        run-step (get_events (wake_event ∷ []))
              (replicate 5 go_loop ++ replicate (length s.async_procs) go_loop) s t
              (step-waiting s timeout a e n)
            ∙ step_on t (replicate (length s.async_procs) go_loop) refl
            ∙ r.1,
        r.2,
        r.3 ∙ c,
      )
