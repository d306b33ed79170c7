-- ===== src/HttpFormat/ReadBack.antt =====
-- The text of a request, as another program reads it: a line with the method, the target and the version
-- between spaces, a line for each field up to an empty line, and the body.
use netxy.Base.{
  ℕ, zero, suc, ◌≤◌, ◌<◌, ◌≡◌, refl, ap, ◌∙◌, Bool, true, false, not, ◌&&◌, Option, none, some,
  List, [], ◌∷◌, ◌++◌, append_assoc, length-append, arith, ◌==◌, length, if◌then◌else◌,
}
use netxy.HttpFormat.{is_empty, HeadFields, heads_text}

abbrev cons_first : ℕ → Option (List ℕ × List ℕ) → Option (List ℕ × List ℕ)
cons_first c none = none
cons_first c (some (xs, ys)) = some (c ∷ xs, ys)

-- what is before the first of a byte, and what is behind it
unfoldable pub split_at : ℕ → List ℕ → Option (List ℕ × List ℕ)
split_at b [] = none
split_at b (c ∷ s) = if c == b then some ([], s) else cons_first c (split_at b s)

-- a byte that has to be there
abbrev expect : ℕ → List ℕ → Option (List ℕ)
expect b [] = none
expect b (c ∷ s) = if c == b then some s else none

abbrev expect_behind : ℕ → Option (List ℕ × List ℕ) → Option (List ℕ × List ℕ)
expect_behind b none = none
expect_behind b (some (xs, ys)) = elim (expect b ys) [ none ↦ none | some zs ↦ some (xs, zs) ]

-- up to a CR, which an LF follows
unfoldable pub read_line : List ℕ → Option (List ℕ × List ℕ)
read_line s = expect_behind 10 (split_at 13 s)

-- up to a colon, which a space follows
unfoldable pub read_field : List ℕ → Option (List ℕ × List ℕ)
read_field l = expect_behind 32 (split_at 58 l)

abbrev cons_field : List ℕ × List ℕ → Option (HeadFields × List ℕ) → Option (HeadFields × List ℕ)
cons_field field none = none
cons_field field (some (heads, body)) = some (field ∷ heads, body)

-- the fields up to an empty line, and what is behind it
unfoldable pub read_heads : ℕ → List ℕ → Option (HeadFields × List ℕ)
read_heads zero s = none
read_heads (suc fuel) s = elim (read_line s) [
  | none ↦ none
  | some (l, rest) ↦
      let more = read_heads fuel rest in
      if is_empty l
      then some ([], rest)
      else elim (read_field l) [ none ↦ none | some field ↦ cons_field field more ]
]

-- A request, as it is read.
pub record ReadRequest : Type 0 where
  pub method : List ℕ
  pub target : List ℕ
  pub version : List ℕ
  pub heads : HeadFields
  pub body : List ℕ

unfoldable pub read_request : List ℕ → Option ReadRequest
read_request s = elim (read_line s) [
  | none ↦ none
  | some (l, rest) ↦ elim (split_at 32 l) [
    | none ↦ none
    | some (method, more) ↦ elim (split_at 32 more) [
      | none ↦ none
      | some (target, version) ↦ elim (read_heads (suc (length rest)) rest) [
        | none ↦ none
        | some (heads, body) ↦ some (record {
          method = method;
          target = target;
          version = version;
          heads = heads;
          body = body;
        })
      ]
    ]
  ]
]

-- A byte is not there.
unfoldable pub lacks : ℕ → List ℕ → Bool
lacks b [] = true
lacks b (c ∷ s) = not (c == b) && lacks b s

-- No CR is in a field, and no colon in its name.
unfoldable pub all_clean : HeadFields → Bool
all_clean [] = true
all_clean ((k, v) ∷ heads) = lacks 58 k && (lacks 13 k && (lacks 13 v && all_clean heads))

pub lacks-append :
    (b : ℕ) (xs ys : List ℕ) → lacks b xs ≡ true → lacks b ys ≡ true → lacks b (xs ++ ys) ≡ true
unfolding lacks
lacks-append b [] ys h i = i
lacks-append b (x ∷ xs) ys h i = ground (arith, lacks-append b xs ys)

pub split_at-append :
    (b : ℕ) (xs ys : List ℕ) → lacks b xs ≡ true → split_at b (xs ++ b ∷ ys) ≡ some (xs, ys)
unfolding split_at lacks
split_at-append b [] ys h = ground arith
split_at-append b (x ∷ xs) ys h = ground (arith, split_at-append b xs ys)

pub read_line-append :
    (xs ys : List ℕ) → lacks 13 xs ≡ true → read_line (xs ++ 13 ∷ 10 ∷ ys) ≡ some (xs, ys)
unfolding read_line
read_line-append xs ys h = ap (expect_behind 10) (split_at-append 13 xs (10 ∷ ys) h)

read_field-append : (k v : List ℕ) → lacks 58 k ≡ true → read_field (k ++ 58 ∷ 32 ∷ v) ≡ some (k, v)
unfolding read_field
read_field-append k v h = ap (expect_behind 32) (split_at-append 58 k (32 ∷ v) h)

heads_text-next :
    (k v : List ℕ) (heads : HeadFields) (rest : List ℕ)
    → heads_text ((k, v) ∷ heads) ++ rest
      ≡ (k ++ 58 ∷ 32 ∷ v) ++ 13 ∷ 10 ∷ (heads_text heads ++ rest)
unfolding heads_text
heads_text-next k v heads rest = simp append_assoc

pub more_bytes :
    (heads : HeadFields) (rest : List ℕ) → length heads ≤ length (heads_text heads ++ rest)
more_bytes [] rest = omega arith
more_bytes ((k, v) ∷ heads) rest = omega (
  arith,
  more_bytes heads rest,
  ap length (heads_text-next k v heads rest),
  length-append (k ++ 58 ∷ 32 ∷ v) (13 ∷ 10 ∷ (heads_text heads ++ rest)),
)

not_empty : (k xs : List ℕ) (c : ℕ) → is_empty (k ++ c ∷ xs) ≡ false
not_empty [] xs c = refl
not_empty (k ∷ ks) xs c = refl

read_heads-field :
    (fuel : ℕ) (k v rest : List ℕ)
    → lacks 58 k ≡ true
    → lacks 13 k ≡ true
    → lacks 13 v ≡ true
    → read_heads (suc fuel) ((k ++ 58 ∷ 32 ∷ v) ++ 13 ∷ 10 ∷ rest)
      ≡ cons_field (k, v) (read_heads fuel rest)
unfolding read_heads lacks
read_heads-field fuel k v rest h i j =
    rw
      (
        read_line-append (k ++ 58 ∷ 32 ∷ v) rest (lacks-append 13 k (58 ∷ 32 ∷ v) i j),
        not_empty k (32 ∷ v) 58,
        read_field-append k v h,
        read_heads,
      )
      refl

-- The fields, each in its line, are read as they are, and so is the body behind the empty line.
pub read_heads-heads_text :
    (fuel : ℕ) (heads : HeadFields) (body : List ℕ)
    → length heads < fuel
    → all_clean heads ≡ true
    → read_heads fuel (heads_text heads ++ (13 ∷ 10 ∷ body)) ≡ some (heads, body)
unfolding read_heads read_line split_at heads_text all_clean
read_heads-heads_text zero heads body h c = absurd (omega arith)
read_heads-heads_text (suc fuel) [] body h c = refl
read_heads-heads_text (suc fuel) ((k, v) ∷ heads) body h c =
    let (colon, breaks, value, others) = clean (lacks 58 k) (lacks 13 k) (lacks 13 v) _ c in
    ap (read_heads (suc fuel)) (heads_text-next k v heads (13 ∷ 10 ∷ body))
    ∙ read_heads-field fuel k v (heads_text heads ++ (13 ∷ 10 ∷ body)) colon breaks value
    ∙ ap (cons_field (k, v)) (read_heads-heads_text fuel heads body (omega arith) others)
  where
    clean :
        (a b c d : Bool)
        → (a && (b && (c && d))) ≡ true
        → (a ≡ true) × (b ≡ true) × (c ≡ true) × (d ≡ true)
    clean true true true true e = (refl, refl, refl, refl)
    clean true true true false e = cc
    clean true true false d e = cc
    clean true false c d e = cc
    clean false b c d e = cc

pub read_request_lem :
    (s : List ℕ) {l rest method more target version : List ℕ} {heads : HeadFields} {body : List ℕ}
    → read_line s ≡ some (l, rest)
    → split_at 32 l ≡ some (method, more)
    → split_at 32 more ≡ some (target, version)
    → read_heads (suc (length rest)) rest ≡ some (heads, body)
    → read_request s
      ≡ some (record {
        method = method;
        target = target;
        version = version;
        heads = heads;
        body = body;
      })
unfolding read_request
read_request_lem s e f g h = rw (e, f, g, h, read_request) refl
