-- ===== src/HttpServer/Limit.antt =====
-- The bytes of a session through a receive buffer with a limit: messages whose frames fit it get through.
use netxy.Base.{
  ℕ, suc, ◌-◌, ◌≤◌, ◌<◌, ◌≡◌, refl, sym, ap, ◌∙◌, true, false, Option, some, List, [], ◌∷◌, ◌++◌,
  append-nil, append_assoc, arith, ◌==◌, length, length-append, take, drop, take-append-drop,
  length-take, length-drop, min, Bool-cases, inl, inr, nil_of_length, if_true,
}
use netxy.WebSocket.RoundTrip.{length-build_two}
use netxy.HttpServer.{Session, data_callback, feed_limited}
use netxy.HttpServer.Served.{frame_of, AllFit, IsShort, with_calls, serve-prefix, nil_left}
use netxy.HttpServer.Messages.{Message, frames, told, AllSendable}

-- Bytes wait, and so there is room for them.
room_for :
    (max : ℕ) (ms : List Message) (left incoming : List ℕ)
    → AllFit max ms
    → IsShort left ms
    → left ++ incoming ≡ frames ms
    → 0 < length incoming
    → length left < max
room_for max [] left incoming fit short e has =
    absurd (omega (arith, ap length e, length-append left incoming))
room_for max (m ∷ ms) left incoming fit short e has = omega (arith, fit.0, short)

-- No bytes wait, and so none are left.
finished :
    (ms : List Message) (left incoming : List ℕ)
    → IsShort left ms
    → left ++ incoming ≡ frames ms
    → length incoming ≡ 0
    → (left ≡ []) × (incoming ≡ []) × (ms ≡ [])
finished [] left incoming short e z = (nil_left left incoming e, nil_of_length incoming z, refl)
finished (m ∷ ms) left incoming short e z = absurd (
    omega (
      arith,
      short,
      ap length e,
      length-append left incoming,
      length-append (frame_of m) (frames ms),
    ))

feed_limited-next :
    (max size : ℕ) (sizes incoming left : List ℕ) (s : Session) {n : ℕ} {t : Session}
    → (length (take (min (suc size) (max - length left)) incoming) == 0) ≡ false
    → data_callback (left ++ take (min (suc size) (max - length left)) incoming) s ≡ some (n, t)
    → feed_limited max (size ∷ sizes) incoming left s
      ≡ feed_limited max sizes
          (drop (min (suc size) (max - length left)) incoming)
          (drop n (left ++ take (min (suc size) (max - length left)) incoming))
          t
unfolding feed_limited
feed_limited-next max size sizes incoming left s t e = rw (t, e, feed_limited) refl

feed_limited-stop :
    (max size : ℕ) (sizes incoming left : List ℕ) (s : Session)
    → (length (take (min (suc size) (max - length left)) incoming) == 0) ≡ true
    → feed_limited max (size ∷ sizes) incoming left s ≡ some (left, incoming, s)
unfolding feed_limited
feed_limited-stop max size sizes incoming left s t = if_true _ _ t

abbrev outcome : List ℕ → List ℕ → Session → Option (List ℕ × List ℕ × Session)
outcome left incoming s = some (left, incoming, s)

feed_limited-done :
    (ms : List Message) (left incoming : List ℕ) (calls : List (ℕ × List ℕ))
    → IsShort left ms
    → left ++ incoming ≡ frames ms
    → length incoming ≡ 0
    → outcome left incoming (with_calls calls) ≡ outcome [] [] (with_calls (calls ++ told ms))
feed_limited-done ms left incoming calls short e z =
    let (a, b, c) = finished ms left incoming short e z in
    rw (a, b, c) (ap (λ l. outcome [] [] (with_calls l)) (sym (append-nil calls)))

test_zero : (n : ℕ) → (n == 0) ≡ true → n ≡ 0
test_zero n t = ground arith

test_some : (n : ℕ) → (n == 0) ≡ false → 0 < n
test_some n t = ground arith

feed_limited-run :
    (max : ℕ) (ms : List Message) (sizes incoming left : List ℕ) (calls : List (ℕ × List ℕ))
    → AllSendable ms
    → AllFit max ms
    → IsShort left ms
    → left ++ incoming ≡ frames ms
    → length incoming ≤ length sizes
    → feed_limited max sizes incoming left (with_calls calls)
      ≡ some ([], [], with_calls (calls ++ told ms))
unfolding feed_limited data_callback
feed_limited-run max ms [] incoming left calls h fit short e enough =
    feed_limited-done ms left incoming calls short e (omega arith)
feed_limited-run max ms (size ∷ sizes) incoming left calls h fit short e enough =
    let amount = min (suc size) (max - length left) in
    let chunk = take amount incoming in
    let bs = left ++ chunk in
    elim (Bool-cases (length chunk == 0)) [
      | inl t ↦
          feed_limited-stop max size sizes incoming left _ t
          ∙ feed_limited-done ms left incoming calls short e (none_waits t)
      | inr t ↦
          let r =
            serve-prefix max ms (length bs) calls bs (drop amount incoming) h fit
              (append_assoc left chunk (drop amount incoming)
                ∙ ap (λ l. left ++ l) (take-append-drop amount incoming)
                ∙ e)
              (omega arith) in
          feed_limited-next max size sizes incoming left (with_calls calls) t r.result
          ∙ feed_limited-run max r.later sizes (drop amount incoming) (drop r.n bs) r.now r.sendable
              r.fit r.short r.left
              (omega (
                arith,
                test_some (length chunk) t,
                length-take amount incoming,
                length-drop amount incoming,
              ))
          ∙ ap (λ l. outcome [] [] (with_calls l)) r.told_all
    ]
  where
    none_waits :
        (length (take (min (suc size) (max - length left)) incoming) == 0) ≡ true
        → length incoming ≡ 0
    none_waits t = elim (Bool-cases (length incoming == 0)) [
      | inl u ↦ test_zero _ u
      | inr u ↦ absurd (
          omega (
            arith,
            test_zero _ t,
            room_for max ms left incoming fit short e (test_some _ u),
            test_some _ u,
            length-take (min (suc size) (max - length left)) incoming,
          ))
    ]

-- Whatever whole messages a peer sends, text or binary, each in a frame, masked or not, that fits the receive
-- buffer, and in whatever amounts the bytes are read, no more at once than there is room for: when there are as
-- many reads as bytes, or more, the callback is told each message once, in order, the buffer never fills, and
-- no byte is left over, neither in it nor behind it.
pub feed_limited-frames :
    (max : ℕ) (ms : List Message) (sizes : List ℕ)
    → AllSendable ms
    → AllFit max ms
    → length (frames ms) ≤ length sizes
    → feed_limited max sizes (frames ms) [] (record { cache_frame = []; calls = [] })
      ≡ some ([], [], record { cache_frame = []; calls = told ms })
feed_limited-frames max ms sizes h fit enough =
    feed_limited-run max ms sizes (frames ms) [] [] h fit (short ms) refl enough
  where
    short : (ms : List Message) → IsShort [] ms
    short [] = tt
    short (m ∷ ms) = omega (arith, length-build_two m.payload m.opcode true m.masking)
