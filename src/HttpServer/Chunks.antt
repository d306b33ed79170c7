-- ===== src/HttpServer/Chunks.antt =====
-- However a stream of bytes is cut into chunks, the same frames are handled.
use mathlib.Core.Option.{some-injective}
use netxy.Base.{
  ℕ, zero, suc, ◌+◌, ◌≤◌, ◌≡◌, refl, sym, ap, ◌∙◌, Option, none, some, List, [], ◌∷◌, ◌++◌,
  append-nil, append_assoc, arith, length, length-append, length-drop, drop, drop-drop,
  drop-append_left, Option-cases, inl, inr, none≢some,
}
use netxy.WebSocket.{Frame, extract}
use netxy.WebSocket.Stream.{AllBytes, AllBytes-append, extract_bounds, extract-append}
use netxy.HttpServer.{Session, handle_frame, add_length, serve, data_callback, feed}

AllBytes-drop : (n : ℕ) (xs : List ℕ) → AllBytes xs → AllBytes (drop n xs)
AllBytes-drop zero xs h = h
AllBytes-drop (suc n) [] h = tt
AllBytes-drop (suc n) (x ∷ xs) h = AllBytes-drop n xs h.1

add_length_zero : (r : Option (ℕ × Session)) → add_length 0 r ≡ r
add_length_zero none = refl
add_length_zero (some (m, s)) = ap (λ n. some (n, s)) (omega arith)

-- The round of the loop, once the frame and what is done with it are known.
pub serve-stop :
    (k b : ℕ) (bs : List ℕ) (s : Session)
    → extract (b ∷ bs) [] ≡ none
    → serve (suc k) (b ∷ bs) s ≡ some (0, s)
unfolding serve
serve-stop k b bs s e = rw (e, serve) refl

pub serve-fault :
    (k b : ℕ) (bs : List ℕ) (s : Session) {f : Frame}
    → extract (b ∷ bs) [] ≡ some f
    → handle_frame f s ≡ none
    → serve (suc k) (b ∷ bs) s ≡ none
unfolding serve
serve-fault k b bs s e h = rw (e, h, serve) refl

pub serve-frame :
    (k b : ℕ) (bs : List ℕ) (s : Session) {f : Frame} {t : Session}
    → extract (b ∷ bs) [] ≡ some f
    → handle_frame f s ≡ some t
    → serve (suc k) (b ∷ bs) s ≡ add_length f.frame_size (serve k (drop f.frame_size (b ∷ bs)) t)
unfolding serve
serve-frame k b bs s e h = rw (e, h, serve) refl

-- Fuel for each byte is enough, and more changes nothing.
pub serve_fuel :
    (k j : ℕ) (bs : List ℕ) (s : Session)
    → AllBytes bs
    → length bs ≤ k
    → length bs ≤ j
    → serve k bs s ≡ serve j bs s
unfolding serve
serve_fuel k j [] s h a c = refl
serve_fuel zero j (b ∷ bs) s h a c = absurd (omega arith)
serve_fuel (suc k) zero (b ∷ bs) s h a c = absurd (omega arith)
serve_fuel (suc k) (suc j) (b ∷ bs) s h a c = elim (Option-cases (extract (b ∷ bs) [])) [
  | inl e ↦ serve-stop k b bs s e ∙ sym (serve-stop j b bs s e)
  | inr (f, e) ↦ elim (Option-cases (handle_frame f s)) [
    | inl g ↦ serve-fault k b bs s e g ∙ sym (serve-fault j b bs s e g)
    | inr (t, g) ↦
        let two = (extract_bounds (b ∷ bs) [] h e).0 in
        let short = length-drop f.frame_size (b ∷ bs) in
        serve-frame k b bs s e g
        ∙ ap (add_length f.frame_size) (
            serve_fuel k j (drop f.frame_size (b ∷ bs)) t (AllBytes-drop f.frame_size (b ∷ bs) h)
              (omega (arith, short, two)) (omega (arith, short, two)))
        ∙ sym (serve-frame j b bs s e g)
  ]
]

-- what is done with more bytes
abbrev then_more : List ℕ → List ℕ → Option (ℕ × Session) → Option (ℕ × Session)
then_more bs more none = none
then_more bs more (some (n, t)) = add_length n (data_callback (drop n bs ++ more) t)

then_more-add_length :
    (size : ℕ) (bs more : List ℕ) (r : Option (ℕ × Session))
    → add_length size (then_more (drop size bs) more r) ≡ then_more bs more (add_length size r)
then_more-add_length size bs more none = refl
then_more-add_length size bs more (some (n, t)) =
    again (data_callback (drop n (drop size bs) ++ more) t)
    ∙ ap (λ l. add_length (size + n) (data_callback (l ++ more) t)) (drop-drop n size bs)
  where
    again : (r : Option (ℕ × Session)) → add_length size (add_length n r) ≡ add_length (size + n) r
    again none = refl
    again (some (m, u)) = ap (λ l. some (l, u)) (omega arith)

serve-append :
    (k j : ℕ) (bs more : List ℕ) (s : Session)
    → AllBytes bs
    → AllBytes more
    → length bs ≤ k
    → length bs + length more ≤ j
    → serve j (bs ++ more) s ≡ then_more bs more (serve k bs s)
unfolding serve data_callback
serve-append k j [] more s h i a c =
    serve_fuel j (length more) more s i (omega arith) (omega arith)
    ∙ sym (add_length_zero (serve (length more) more s))
serve-append zero j (b ∷ bs) more s h i a c = absurd (omega arith)
serve-append (suc k) zero (b ∷ bs) more s h i a c = absurd (omega arith)
serve-append (suc k) (suc j) (b ∷ bs) more s h i a c = elim (Option-cases (extract (b ∷ bs) [])) [
  | inl e ↦
      serve_fuel (suc j) (length (b ∷ (bs ++ more))) (b ∷ (bs ++ more)) s
        (AllBytes-append (b ∷ bs) more h i) (omega (arith, length-append bs more)) (omega arith)
      ∙ sym (add_length_zero (serve (length (b ∷ (bs ++ more))) (b ∷ (bs ++ more)) s))
      ∙ sym (ap (then_more (b ∷ bs) more) (serve-stop k b bs s e))
  | inr (f, e) ↦
      let longer = extract-append (b ∷ bs) more [] h e in
      elim (Option-cases (handle_frame f s)) [
        | inl g ↦
            serve-fault j b (bs ++ more) s longer g
            ∙ sym (ap (then_more (b ∷ bs) more) (serve-fault k b bs s e g))
        | inr (t, g) ↦
            let inside = extract_bounds (b ∷ bs) [] h e in
            let short = length-drop f.frame_size (b ∷ bs) in
            serve-frame j b (bs ++ more) s longer g
            ∙ ap (λ l. add_length f.frame_size (serve j l t))
                (drop-append_left f.frame_size (b ∷ bs) more inside.1)
            ∙ ap (add_length f.frame_size) (
                serve-append k j (drop f.frame_size (b ∷ bs)) more t
                  (AllBytes-drop f.frame_size (b ∷ bs) h) i (omega (arith, short, inside.0))
                  (omega (arith, short, inside.0)))
            ∙ then_more-add_length f.frame_size (b ∷ bs) more
                (serve k (drop f.frame_size (b ∷ bs)) t)
            ∙ sym (ap (then_more (b ∷ bs) more) (serve-frame k b bs s e g))
      ]
]

-- What is not consumed, and the session.
abbrev pub left_over : List ℕ → Option (ℕ × Session) → Option (List ℕ × Session)
left_over bs none = none
left_over bs (some (n, t)) = some (drop n bs, t)

data_callback-append :
    (bs more : List ℕ) (s : Session)
    → AllBytes bs
    → AllBytes more
    → data_callback (bs ++ more) s ≡ then_more bs more (data_callback bs s)
unfolding data_callback
data_callback-append bs more s h i =
    serve-append (length bs) (length (bs ++ more)) bs more s h i (omega arith)
      (omega (arith, length-append bs more))

left_over-add_length :
    (n : ℕ) (bs more : List ℕ) (r : Option (ℕ × Session))
    → n ≤ length bs
    → left_over (drop n bs ++ more) r ≡ left_over (bs ++ more) (add_length n r)
left_over-add_length n bs more none h = refl
left_over-add_length n bs more (some (m, t)) h =
    ap (λ l. some (l, t))
      (ap (drop m) (sym (drop-append_left n bs more h)) ∙ drop-drop m n (bs ++ more))

-- The callback consumes no more than there is.
serve_bounds :
    (k : ℕ) (bs : List ℕ) (s : Session) {n : ℕ} {t : Session}
    → AllBytes bs
    → serve k bs s ≡ some (n, t)
    → n ≤ length bs
unfolding serve
serve_bounds k [] s h e = ground (arith, e)
serve_bounds zero (b ∷ bs) s h e = cc
serve_bounds (suc k) (b ∷ bs) s {n} {t} h e = elim (Option-cases (extract (b ∷ bs) [])) [
  | inl g ↦ ground (arith, sym (serve-stop k b bs s g) ∙ e)
  | inr (f, g) ↦ elim (Option-cases (handle_frame f s)) [
    | inl i ↦ absurd (none≢some (sym (serve-fault k b bs s g i) ∙ e))
    | inr (u, i) ↦
        let inside = (extract_bounds (b ∷ bs) [] h g).1 in
        let short = length-drop f.frame_size (b ∷ bs) in
        elim (Option-cases (serve k (drop f.frame_size (b ∷ bs)) u)) [
          | inl j ↦ absurd (
              none≢some (ap (add_length f.frame_size) (sym j) ∙ sym (serve-frame k b bs s g i) ∙ e))
          | inr ((m, w), j) ↦
              let deep =
                serve_bounds k (drop f.frame_size (b ∷ bs)) u
                  (AllBytes-drop f.frame_size (b ∷ bs) h) j in
              let sum =
                some-injective _ _
                  (ap (add_length f.frame_size) (sym j) ∙ sym (serve-frame k b bs s g i) ∙ e) in
              let count : f.frame_size + m ≡ n = ap (λ p. p.0) sum in
              omega (arith, deep, short, inside, count)
        ]
  ]
]

callback_bounds :
    (bs : List ℕ) (s : Session) {n : ℕ} {t : Session}
    → AllBytes bs
    → data_callback bs s ≡ some (n, t)
    → n ≤ length bs
unfolding data_callback
callback_bounds bs s h e = serve_bounds (length bs) bs s h e

data_callback-nil : (s : Session) → data_callback [] s ≡ some (0, s)
unfolding data_callback serve
data_callback-nil s = refl

abbrev pub concat : List (List ℕ) → List ℕ
concat [] = []
concat (xs ∷ xss) = xs ++ concat xss

abbrev pub AllChunks : List (List ℕ) → Type 0
AllChunks [] = Unit
AllChunks (xs ∷ xss) = AllBytes xs × AllChunks xss

concat-AllBytes : (xss : List (List ℕ)) → AllChunks xss → AllBytes (concat xss)
concat-AllBytes [] h = tt
concat-AllBytes (xs ∷ xss) h = AllBytes-append xs (concat xss) h.0 (concat-AllBytes xss h.1)

-- The bytes that are left over hold no frame.
stuck :
    (bs : List ℕ) (s : Session) {n : ℕ} {t : Session}
    → AllBytes bs
    → data_callback bs s ≡ some (n, t)
    → data_callback (drop n bs) t ≡ some (0, t)
stuck bs s {n} {t} h e = no_more (data_callback (drop n bs) t) (
    ap (λ l. add_length n (data_callback l t)) (sym (append-nil (drop n bs)))
    ∙ sym (ap (then_more bs []) e)
    ∙ sym (data_callback-append bs [] s h tt)
    ∙ ap (λ l. data_callback l s) (append-nil bs)
    ∙ e)
  where
    no_more : (r : Option (ℕ × Session)) → add_length n r ≡ some (n, t) → r ≡ some (0, t)
    no_more none i = cc
    no_more (some (m, u)) i =
        let zero_more : m ≡ 0 = omega (arith, ap (λ p. p.0) (some-injective _ _ i)) in
        ap some (let same = ap (λ p. p.1) (some-injective _ _ i) in rw (zero_more, same) refl)

feed_from :
    (chunks : List (List ℕ)) (left : List ℕ) (s : Session)
    → AllBytes left
    → AllChunks chunks
    → data_callback left s ≡ some (0, s)
    → feed chunks left s
      ≡ left_over (left ++ concat chunks) (data_callback (left ++ concat chunks) s)
unfolding feed
feed_from [] left s h i e = rw (append-nil left, e) refl
feed_from (chunk ∷ chunks) left s h i e =
    let bs = left ++ chunk in
    let all = AllBytes-append left chunk h i.0 in
    let rest = concat-AllBytes chunks i.1 in
    elim (Option-cases (data_callback bs s)) [
      | inl g ↦
          rw (g, feed) refl
          ∙ sym (ap (λ r. left_over (bs ++ concat chunks) (then_more bs (concat chunks) r)) g)
          ∙ sym (
              ap (left_over (bs ++ concat chunks))
                (data_callback-append bs (concat chunks) s all rest))
          ∙ ap (λ l. left_over l (data_callback l s)) (append_assoc left chunk (concat chunks))
      | inr ((n, t), g) ↦
          rw (g, feed) refl
          ∙ feed_from chunks (drop n bs) t (AllBytes-drop n bs all) i.1 (stuck bs s all g)
          ∙ left_over-add_length n bs (concat chunks) (data_callback (drop n bs ++ concat chunks) t)
              (callback_bounds bs s all g)
          ∙ sym (ap (λ r. left_over (bs ++ concat chunks) (then_more bs (concat chunks) r)) g)
          ∙ sym (
              ap (left_over (bs ++ concat chunks))
                (data_callback-append bs (concat chunks) s all rest))
          ∙ ap (λ l. left_over l (data_callback l s)) (append_assoc left chunk (concat chunks))
    ]

-- However a stream of bytes arrives in chunks, the callbacks and the bytes that are left are those of the
-- whole stream in one call, and so is a failed assert.
pub feed-concat :
    (chunks : List (List ℕ)) (s : Session)
    → AllChunks chunks
    → feed chunks [] s ≡ left_over (concat chunks) (data_callback (concat chunks) s)
feed-concat chunks s h = feed_from chunks [] s tt h (data_callback-nil s)
