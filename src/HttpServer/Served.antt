-- ===== src/HttpServer/Served.antt =====
-- What is done with the first bytes of messages: whole frames are told, and less than a frame is left.
use mathlib.Core.Path.{subst}
use netxy.Base.{
  ℕ, zero, suc, ◌+◌, ◌≤◌, ◌<◌, ◌≡◌, refl, sym, ap, ◌∙◌, true, false, some, List, [], ◌∷◌, ◌++◌,
  append_assoc, arith, ltb, length, length-append, take, drop, take-append_left, drop-append,
  drop-append_left, take-append, take-append-drop, length-drop, drop-drop, Bool-cases, inl, inr,
  nil_of_length,
}
use netxy.WebSocket.{build, extract}
use netxy.WebSocket.RoundTrip.{extract-build, length-build_two}
use netxy.WebSocket.Prefix.{extract-take}
use netxy.HttpServer.{Session, add_length, serve}
use netxy.HttpServer.Chunks.{serve-stop}
use netxy.HttpServer.Messages.{Message, frames, told, AllSendable, handle-whole, serve_bytes}

abbrev pub frame_of : Message → List ℕ
frame_of m = build m.payload m.opcode true m.masking

-- Each frame fits the buffer.
abbrev pub AllFit : ℕ → List Message → Type 0
AllFit max [] = Unit
AllFit max (m ∷ ms) = (length (build m.payload m.opcode true m.masking) ≤ max) × AllFit max ms

-- Bytes are less than the first frame.
abbrev pub IsShort : List ℕ → List Message → Type 0
IsShort left [] = Unit
IsShort left (m ∷ ms) = length left < length (frame_of m)

abbrev pub with_calls : List (ℕ × List ℕ) → Session
with_calls calls = record { cache_frame = []; calls = calls }

-- What is done with the first bytes of frames: whole frames are told, and less than a frame is left.
pub record Served (max : ℕ) (ms : List Message) (calls : List (ℕ × List ℕ)) (bs more : List ℕ)
    (k : ℕ) : Type 0 where
  pub n : ℕ
  pub now : List (ℕ × List ℕ)
  pub later : List Message
  pub result : serve k bs (with_calls calls) ≡ some (n, with_calls now)
  pub told_all : now ++ told later ≡ calls ++ told ms
  pub left : drop n bs ++ more ≡ frames later
  pub short : IsShort (drop n bs) later
  pub sendable : AllSendable later
  pub fit : AllFit max later

pub nil_left : (bs more : List ℕ) → bs ++ more ≡ [] → bs ≡ []
nil_left bs more e = nil_of_length bs (omega (arith, ap length e, length-append bs more))

serve-nil : (k : ℕ) (s : Session) → serve k [] s ≡ some (0, s)
unfolding serve
serve-nil k s = refl

-- bytes that are shorter than a frame, and its first ones, hold no frame
serve-part :
    (k : ℕ) (bs more rest : List ℕ) (m : Message) (ms : List Message) (s : Session)
    → AllSendable (m ∷ ms)
    → bs ++ more ≡ frame_of m ++ rest
    → length bs ≤ k
    → length bs < length (frame_of m)
    → serve k bs s ≡ some (0, s)
serve-part k [] more rest m ms s h e a lt = serve-nil k s
serve-part zero (b ∷ bs) more rest m ms s h e a lt = absurd (omega arith)
serve-part (suc k) (b ∷ bs) more rest m ms s h e a lt =
    let first : take (length (b ∷ bs)) (frame_of m) ≡ b ∷ bs =
      sym (take-append_left (length (b ∷ bs)) (frame_of m) rest (omega arith))
      ∙ sym (ap (take (length (b ∷ bs))) e)
      ∙ take-append (length (b ∷ bs)) (b ∷ bs) more refl in
    serve-stop k b bs s (
      ap (λ l. extract l []) (sym first)
      ∙ extract-take m.payload [] m.opcode true m.masking (length (b ∷ bs)) h.0.0 h.0.1
          (omega (arith, h.0.3)) lt)

serve-less :
    (max k : ℕ) (calls : List (ℕ × List ℕ)) (bs more : List ℕ) (m : Message) (ms : List Message)
    → AllSendable (m ∷ ms)
    → AllFit max (m ∷ ms)
    → bs ++ more ≡ frames (m ∷ ms)
    → length bs ≤ k
    → length bs < length (frame_of m)
    → Served max (m ∷ ms) calls bs more k
serve-less max k calls bs more m ms h fit e a lt = record {
  n = 0;
  now = calls;
  later = m ∷ ms;
  result = serve-part k bs more (frames ms) m ms _ h e a lt;
  told_all = refl;
  left = e;
  short = lt;
  sendable = h;
  fit = fit;
}

-- The first frame is whole.
split_frame :
    (frame rest bs more : List ℕ)
    → bs ++ more ≡ frame ++ rest
    → length frame ≤ length bs
    → (frame ++ drop (length frame) bs ≡ bs) × (drop (length frame) bs ++ more ≡ rest)
split_frame frame rest bs more e ge = (
  ap (λ l. l ++ drop (length frame) bs)
        (sym (take-append (length frame) frame rest refl)
          ∙ sym (ap (take (length frame)) e)
          ∙ take-append_left (length frame) bs more ge)
      ∙ take-append-drop (length frame) bs,
  sym (drop-append_left (length frame) bs more ge)
      ∙ ap (drop (length frame)) e
      ∙ drop-append (length frame) frame rest refl,
)

serve-more :
    (max k : ℕ) (calls : List (ℕ × List ℕ)) (bs more : List ℕ) (m : Message) (ms : List Message)
    → AllSendable (m ∷ ms)
    → frame_of m ++ drop (length (frame_of m)) bs ≡ bs
    → Served max ms (calls ++ (m.opcode, m.payload) ∷ []) (drop (length (frame_of m)) bs) more k
    → Served max (m ∷ ms) calls bs more (suc k)
serve-more max k calls bs more m ms h whole r =
    let frame = frame_of m in
    let behind = drop (length frame) bs in
    record {
      n = length frame + r.n;
      now = r.now;
      later = r.later;
      result =
          ap (λ l. serve (suc k) l (with_calls calls)) (sym whole)
          ∙ serve_bytes k (frame ++ behind) _
              (omega (
                arith,
                length-append frame behind,
                length-build_two m.payload m.opcode true m.masking,
              ))
              (extract-build m.payload behind [] m.opcode true m.masking h.0.0 h.0.1
                (omega (arith, h.0.3)))
              (handle-whole _ calls refl h.0.2 h.0.3)
          ∙ ap
              (λ l.
                add_length (length frame)
                  (serve k l (with_calls (calls ++ (m.opcode, m.payload) ∷ []))))
              (drop-append (length frame) frame behind refl)
          ∙ ap (add_length (length frame)) r.result;
      told_all = r.told_all ∙ append_assoc calls ((m.opcode, m.payload) ∷ []) (told ms);
      left = ap (λ l. l ++ more) (sym (drop-drop r.n (length frame) bs)) ∙ r.left;
      short = subst (λ l. IsShort l r.later) (drop-drop r.n (length frame) bs) r.short;
      sendable = r.sendable;
      fit = r.fit;
    }

below : (i j : ℕ) → ltb i j ≡ true → i < j
below i j t = ground arith

above : (i j : ℕ) → ltb i j ≡ false → j ≤ i
above i j t = ground arith

pub serve-prefix :
    (max : ℕ) (ms : List Message) (k : ℕ) (calls : List (ℕ × List ℕ)) (bs more : List ℕ)
    → AllSendable ms
    → AllFit max ms
    → bs ++ more ≡ frames ms
    → length bs ≤ k
    → Served max ms calls bs more k
serve-prefix max [] k calls bs more h fit e a = record {
  n = 0;
  now = calls;
  later = [];
  result =
      ap (λ l. serve k l (with_calls calls)) (nil_left bs more e) ∙ serve-nil k (with_calls calls);
  told_all = refl;
  left = e;
  short = tt;
  sendable = tt;
  fit = tt;
}
serve-prefix max (m ∷ ms) zero calls bs more h fit e a =
    serve-less max zero calls bs more m ms h fit e a
      (omega (arith, length-build_two m.payload m.opcode true m.masking))
serve-prefix max (m ∷ ms) (suc k) calls bs more h fit e a =
    elim (Bool-cases (ltb (length bs) (length (frame_of m)))) [
      | inl t ↦ serve-less max (suc k) calls bs more m ms h fit e a (below _ _ t)
      | inr t ↦
          let (whole, rest) = split_frame (frame_of m) (frames ms) bs more e (above _ _ t) in
          serve-more max k calls bs more m ms h whole (
            serve-prefix max ms k _ (drop (length (frame_of m)) bs) more h.1 fit.1 rest (
              omega (
                arith,
                above _ _ t,
                length-drop (length (frame_of m)) bs,
                length-build_two m.payload m.opcode true m.masking,
              )))
    ]
