-- ===== src/Buffer/Queue.antt =====
-- A client's calls on a buffer, in any order, against a queue of bytes of bounded length. The
-- reader consumes as `DataSocket::recv` of src/net/DataSocket.cpp does.
use netxy.Base.{
  ℕ, ◌+◌, ◌≤◌, ◌≡◌, refl, Bool, true, false, Option, none, some, List, [], ◌∷◌, ◌++◌, arith, length,
  drop, leb, if◌then◌else◌,
}
use native.Mathlib.Decide.{dec_le}
use netxy.Buffer.{Buffer, init, get_read_valid_count, adjust_to_head, add_read_pos, write}
use netxy.Buffer.Bounds.{IsValid, get_read_valid_count_lem, add_read_pos-IsValid}
use netxy.Buffer.Contents.{
  contents, length-contents, adjust_to_head_lem, contents-add_read_pos, init_lem,
}
use netxy.Buffer.Write.{Appended, write-Appended, write_full}

-- `recv` advances the read position by what the callback says it used, if that much was readable.
pub consume : Buffer → ℕ → Buffer
consume b used = if leb used (get_read_valid_count b) then add_read_pos b used else b

pub data Call : Type 0 where
  put : List ℕ → Call
  use_up : ℕ → Call
  compact : Call
  clear : Call

-- One call: its answer (true where it returns nothing) and the new buffer; `none` is a fault.
pub step : Buffer → Call → Option (Bool × Buffer)
step b (put src) = write b src
step b (use_up n) = some (true, consume b n)
step b compact = some (true, adjust_to_head b)
step b clear = some (true, init b)

pub run : Buffer → List Call → Option (List Bool × Buffer)
run b [] = some ([], b)
run b (c ∷ calls) = elim (step b c) [
  | none ↦ none
  | some (answer, b') ↦ elim (run b' calls) [
    | none ↦ none
    | some (answers, last) ↦ some (answer ∷ answers, last)
  ]
]

-- The promise: a queue of at most `cap` bytes.
unfoldable pub queue_step : ℕ → List ℕ → Call → Bool × List ℕ
queue_step cap q (put src) =
    if leb (length q + length src) cap then (true, q ++ src) else (false, q)
queue_step cap q (use_up n) = (true, if leb n (length q) then drop n q else q)
queue_step cap q compact = (true, q)
queue_step cap q clear = (true, [])

unfoldable pub queue_run : ℕ → List ℕ → List Call → List Bool × List ℕ
queue_run cap q [] = ([], q)
queue_run cap q (c ∷ calls) =
    let (answer, q') = queue_step cap q c in
    let (answers, last) = queue_run cap q' calls in (answer ∷ answers, last)

-- `b` answered and holds what the queue does, and is still valid.
pub record Follows (b : Buffer) (out : Bool × List ℕ) (r : Option (Bool × Buffer)) : Type 0 where
  pub after : Buffer
  pub returns : r ≡ some (out.0, after)
  pub valid : IsValid after
  pub holds : contents after ≡ out.1
  pub size : after.data_len ≡ b.data_len

put_refines :
    {b : Buffer} (src : List ℕ)
    → IsValid b
    → Follows b (queue_step b.data_len (contents b) (put src)) (write b src)
unfolding queue_step
put_refines {b} src v = elim (dec_le (length (contents b) + length src) b.data_len) [
  | yes fits ↦ rw (within fits) (appended (write-Appended src v fits))
  | no over ↦ rw (past over) (record {
    after = b;
    returns = write_full src v (omega arith);
    valid = v;
    holds = refl;
    size = refl;
  })
]
  where
    within :
        length (contents b) + length src ≤ b.data_len
        → leb (length (contents b) + length src) b.data_len ≡ true
    within fits = ground arith

    past :
        ¬ (length (contents b) + length src ≤ b.data_len)
        → leb (length (contents b) + length src) b.data_len ≡ false
    past over = ground arith

    appended :
        (b' : Buffer) × (write b src ≡ some (true, b')) × Appended b src b'
        → Follows b (true, contents b ++ src) (write b src)
    appended (b', e, a) = record {
      after = b';
      returns = e;
      valid = a.valid;
      holds = a.bytes;
      size = a.size;
    }

pub size-add_read_pos : (b : Buffer) (n : ℕ) → (add_read_pos b n).data_len ≡ b.data_len
unfolding add_read_pos
size-add_read_pos b n = ground arith

use_up_refines :
    {b : Buffer} (n : ℕ)
    → IsValid b
    → Follows b (queue_step b.data_len (contents b) (use_up n)) (some (true, consume b n))
unfolding queue_step consume
use_up_refines {b} n v = elim (dec_le n (length (contents b))) [
  | yes fits ↦
      rw (readable_test fits, holds_test fits)
        (record {
          after = add_read_pos b n;
          returns = refl;
          valid = (add_read_pos-IsValid n v (readable fits)).0;
          holds = contents-add_read_pos n v (readable fits);
          size = size-add_read_pos b n;
        })
  | no over ↦
      rw (readable_test' over, holds_test' over)
        (record { after = b; returns = refl; valid = v; holds = refl; size = refl })
]
  where
    readable : n ≤ length (contents b) → n ≤ get_read_valid_count b
    readable fits = omega (arith, length-contents v, get_read_valid_count_lem v)

    readable_test : n ≤ length (contents b) → leb n (get_read_valid_count b) ≡ true
    readable_test fits = ground (arith, readable fits)

    holds_test : n ≤ length (contents b) → leb n (length (contents b)) ≡ true
    holds_test fits = ground arith

    readable_test' : ¬ (n ≤ length (contents b)) → leb n (get_read_valid_count b) ≡ false
    readable_test' over = ground (arith, length-contents v, get_read_valid_count_lem v)

    holds_test' : ¬ (n ≤ length (contents b)) → leb n (length (contents b)) ≡ false
    holds_test' over = ground arith

-- Every call answers as the queue does, and leaves the buffer valid and holding its bytes.
pub step_refines :
    {b : Buffer} (c : Call)
    → IsValid b
    → Follows b (queue_step b.data_len (contents b) c) (step b c)
unfolding step queue_step
step_refines (put src) v = put_refines src v
step_refines (use_up n) v = use_up_refines n v
step_refines compact v =
    let moved = adjust_to_head_lem v in
    record {
      after = adjust_to_head _;
      returns = refl;
      valid = moved.0;
      holds = moved.1;
      size = moved.2;
    }
step_refines clear v =
    let emptied = init_lem v in
    record {
      after = init _;
      returns = refl;
      valid = emptied.0;
      holds = emptied.1;
      size = emptied.2;
    }

run-cons :
    (b : Buffer) (c : Call) (calls : List Call) {answer : Bool} {m last : Buffer}
    {answers : List Bool}
    → step b c ≡ some (answer, m)
    → run m calls ≡ some (answers, last)
    → run b (c ∷ calls) ≡ some (answer ∷ answers, last)
unfolding run
run-cons b c calls now later = rw (now, run) (rw (later, run))

-- The calls run on `b` without a fault, are answered as the queue `q` of at most `cap` bytes answers
-- them, and leave a valid buffer that holds what is left in the queue.
abbrev pub RunsAs : Buffer → ℕ → List ℕ → List Call → Type 0
RunsAs b cap q calls =
    (b' : Buffer) × (run b calls ≡ some ((queue_run cap q calls).0, b'))
    × (contents b' ≡ (queue_run cap q calls).1)
    × IsValid b'

RunsAs-cons :
    {b : Buffer} (c : Call) (calls : List Call)
    → (now : Follows b (queue_step b.data_len (contents b) c) (step b c))
    → RunsAs now.after b.data_len (queue_step b.data_len (contents b) c).1 calls
    → RunsAs b b.data_len (contents b) (c ∷ calls)
unfolding queue_run
RunsAs-cons {b} c calls now later =
    (later.0, run-cons b c calls now.returns later.1, later.2, later.3)

-- Any sequence of calls on a valid buffer runs as the bounded queue of the bytes that it holds.
pub run_refines :
    (calls : List Call) {b : Buffer} → IsValid b → RunsAs b b.data_len (contents b) calls
unfolding run queue_run
run_refines [] {b} v = (b, refl, refl, v)
run_refines (c ∷ calls) {b} v =
    let now = step_refines c v in
    RunsAs-cons c calls now (rw (← now.holds, ← now.size) (run_refines calls now.valid))
