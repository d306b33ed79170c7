-- ===== src/MultiPool/Fit.antt =====
-- Which pool a claim by length takes: the first whose blocks are long enough.
use mathlib.Core.Option.{some-injective}
use netxy.Base.{
  ℕ, zero, suc, ◌+◌, ◌≤◌, ◌<◌, ◌≡◌, ◌↔◌, refl, sym, ap, ◌∙◌, Bool, true, Option, none, some, List,
  arith, ltb, leb, ◌==◌, ◌%◌, length, get_elem?, get_elem?-within, set, Bool-cases, Option-cases,
  inl, inr, none≢some,
}
use netxy.Stack.{StackOps}
use netxy.TypePool.{Block, TypePool}
use netxy.TypePool
use netxy.MultiPool.{
  Msg, MultiPool, char_of, char_bound, first_fit, claim_at, len_claim, config_len,
}

first_fit-below : (lens : List ℕ) (len k rounds : ℕ) → first_fit lens len k rounds ≤ k + rounds
unfolding first_fit
first_fit-below lens len k zero = omega arith
first_fit-below lens len k (suc rounds) = elim (Option-cases (get_elem? lens k)) [
  | inl e ↦ rw (e, first_fit) (omega arith)
  | inr (n, e) ↦ rw (e, first_fit) (ground (arith, first_fit-below lens len (k + 1) rounds))
]

pub first_fit-long :
    (lens : List ℕ) (len k rounds : ℕ)
    → k + rounds ≤ length lens
    → first_fit lens len k rounds < k + rounds
    → (n : ℕ) × (get_elem? lens (first_fit lens len k rounds) ≡ some n) × (len ≤ n)
unfolding first_fit
first_fit-long lens len k zero h below = absurd (omega arith)
first_fit-long lens len k (suc rounds) h below =
    let (n, e) = get_elem?-within lens k (omega arith) in
    elim (Bool-cases (leb len n)) [
      | inl long ↦ rw (e, long, first_fit) (n, e, ground (arith, long))
      | inr short ↦
          let later : first_fit lens len (k + 1) rounds < k + suc rounds =
            rw (e, short, first_fit) at below in
          rw (e, short, first_fit)
            (first_fit-long lens len (k + 1) rounds (omega arith) (omega arith))
    ]

pub first_fit-first :
    (lens : List ℕ) (len k rounds j : ℕ) {n : ℕ}
    → k ≤ j
    → j < first_fit lens len k rounds
    → get_elem? lens j ≡ some n
    → n < len
unfolding first_fit
first_fit-first lens len k zero j h below e = absurd (omega arith)
first_fit-first lens len k (suc rounds) j {n} h below e = elim (Option-cases (get_elem? lens k)) [
  | inl none_here ↦ absurd (omega (arith, h, rw (none_here, first_fit) at below))
  | inr (m, here) ↦ elim (Bool-cases (leb len m)) [
    | inl long ↦ absurd (omega (arith, h, rw (here, long, first_fit) at below))
    | inr short ↦
        let later : j < first_fit lens len (k + 1) rounds = rw (here, short, first_fit) at below in
        elim (Bool-cases (j == k)) [
          | inl same ↦
              let at_k : j ≡ k = ground (arith, same) in
              let sames : n ≡ m = some-injective n m (sym e ∙ ap (get_elem? lens) at_k ∙ here) in
              ground (arith, short, sames)
          | inr other ↦ first_fit-first lens len (k + 1) rounds j (ground (arith, other, h)) later e
        ]
  ]
]

pub char_of_small : (i : ℕ) → i < 128 → char_of i ≡ some i
unfolding char_of
char_of_small i h =
    let small : i % 256 ≡ i = omega arith in
    let test : ltb i 128 ≡ true = ground arith in rw (small, test) refl

char_bound_small : (n : ℕ) → n < 128 → char_bound n ≡ n
unfolding char_bound
char_bound_small n h = rw (char_bound, char_of_small n h) refl

char_bound_lem : (n : ℕ) → (char_bound n ≤ n) × (char_bound n < 128)
unfolding char_bound char_of
char_bound_lem n = elim (Bool-cases (ltb (n % 256) 128)) [
  | inl small ↦ rw (small, char_bound, char_of) (omega arith, ground (arith, small))
  | inr large ↦ rw (large, char_bound, char_of) (omega arith, omega arith)
]

module _ (s : StackOps Block) where
  -- what `ox_multi_pool_new` makes
  abbrev pub IsValid : MultiPool s → Type 0
  IsValid m = (length m.msg_pools ≡ m.max) × (length m.lens ≡ m.max)

  -- A message comes from the pool at the index, which it names.
  pub claim_at_inv :
      (got : Bool) (m : MultiPool s) (i : ℕ) {msg : Msg} {after : MultiPool s}
      → claim_at s got m i ≡ some (some msg, after)
      → (pool : TypePool s) × (get_elem? m.msg_pools i ≡ some (some pool))
        × ((TypePool.claim s got pool).0 ≡ some msg.block)
        × (msg.pool_index ≡ char_of i)
        × (record m { msg_pools = set m.msg_pools i (some (TypePool.claim s got pool).1) } ≡ after)
  unfolding claim_at
  claim_at_inv got m i h = elim (Option-cases (get_elem? m.msg_pools i)) [
    | inl e ↦ absurd (none≢some (rw (e, claim_at) at h))
    | inr (none, e) ↦ absurd (none≢some (rw (e, claim_at) at h))
    | inr (some pool, e) ↦ elim (Option-cases (TypePool.claim s got pool).0) [
      | inl e2 ↦
          let same = some-injective _ _ (rw (e, e2, claim_at) at h) in
          absurd (none≢some (ap (λ t. t.0) same))
      | inr (b, e2) ↦
          let same = some-injective _ _ (rw (e, e2, claim_at) at h) in
          let msgs = some-injective _ _ (ap (λ t. t.0) same) in
          (
            pool,
            e,
            e2 ∙ ap (λ t. some t.block) msgs,
            sym (ap (λ t. t.pool_index) msgs),
            ap (λ t. t.1) same,
          )
    ]
  ]

  -- A claim by length that gets a message is one at the first fit.
  len_claim_inv :
      (got : Bool) (m : MultiPool s) (len : ℕ) {msg : Msg} {after : MultiPool s}
      → len_claim s got m len ≡ some (some msg, after)
      → (first_fit m.lens len 0 (char_bound m.max) < char_bound m.max)
        × (claim_at s got m (first_fit m.lens len 0 (char_bound m.max)) ≡ some (some msg, after))
  unfolding len_claim
  len_claim_inv got m len h =
      elim (Bool-cases (ltb (first_fit m.lens len 0 (char_bound m.max)) (char_bound m.max))) [
        | inl found ↦ (ground (arith, found), rw (found, len_claim) at h)
        | inr missing ↦
            absurd (none≢some (ap (λ t. t.0) (some-injective _ _ (rw (missing, len_claim) at h))))
      ]

  pub config_of :
      (m : MultiPool s) (msg : Msg) {i n : ℕ}
      → msg.pool_index ≡ some i
      → i < m.max
      → get_elem? m.lens i ≡ some n
      → config_len s m msg ≡ some n
  unfolding config_len
  config_of m msg {i} named below here =
      let inside : ltb i m.max ≡ true = ground arith in rw (named, config_len) (rw inside here)

  -- A claim by length that gets a message gets it from the first pool whose blocks are long enough:
  -- the header names that pool, and its configured length is at least the one asked for.
  len_claim_long :
      (got : Bool) (m : MultiPool s) (len : ℕ) {msg : Msg} {after : MultiPool s}
      → IsValid m
      → len_claim s got m len ≡ some (some msg, after)
      → (i : ℕ) × (n : ℕ) × (msg.pool_index ≡ some i)
        × (config_len s after msg ≡ some n)
        × (len ≤ n)
  len_claim_long got m len {msg} v h =
      let i = first_fit m.lens len 0 (char_bound m.max) in
      let (below, at) = len_claim_inv got m len h in
      let (bound, small) = char_bound_lem m.max in
      let (n, here, long) =
        first_fit-long m.lens len 0 (char_bound m.max) (omega (arith, v.1)) (omega arith) in
      let (pool, there, block, index, same) = claim_at_inv got m i at in
      let named = index ∙ char_of_small i (omega arith) in
      (
        i,
        n,
        named,
        sym (ap (λ t. config_len s t msg) same) ∙ config_of _ msg named (omega arith) here,
        long,
      )

  -- No earlier pool would have done.
  len_claim_first :
      (got : Bool) (m : MultiPool s) (len i j : ℕ) {n : ℕ} {msg : Msg} {after : MultiPool s}
      → len_claim s got m len ≡ some (some msg, after)
      → msg.pool_index ≡ some i
      → j < i
      → get_elem? m.lens j ≡ some n
      → n < len
  len_claim_first got m len i j h at below e =
      let k = first_fit m.lens len 0 (char_bound m.max) in
      let (found, claimed) = len_claim_inv got m len h in
      let (bound, small) = char_bound_lem m.max in
      let (pool, there, block, index, same) = claim_at_inv got m k claimed in
      let named : i ≡ k = some-injective i k (sym at ∙ index ∙ char_of_small k (omega arith)) in
      first_fit-first m.lens len 0 (char_bound m.max) j (omega arith) (omega (arith, named)) e

  claim_at_total :
      (got : Bool) (m : MultiPool s) (i : ℕ) {pool : TypePool s}
      → get_elem? m.msg_pools i ≡ some (some pool)
      → (r : Option Msg × MultiPool s) × (claim_at s got m i ≡ some r)
        × (r.0 ≡ none ↔ (TypePool.claim s got pool).0 ≡ none)
  unfolding claim_at
  claim_at_total got m i {pool} e = elim (Option-cases (TypePool.claim s got pool).0) [
    | inl e2 ↦
        rw (e, e2, claim_at)
          (
            (none, record m { msg_pools = set m.msg_pools i (some (TypePool.claim s got pool).1) }),
            refl,
            (λ h. refl, λ h. refl),
          )
    | inr (b, e2) ↦
        rw (e, e2, claim_at)
          (
            (
              some (record { pool_index = char_of i; block = b }),
              record m { msg_pools = set m.msg_pools i (some (TypePool.claim s got pool).1) },
            ),
            refl,
            (λ h. absurd (none≢some (sym h)), λ h. absurd (none≢some (sym h))),
          )
  ]

  -- With fewer than 128 pools, all made, a claim whose length the pool at `j` has is answered by a pool
  -- at `j` or before, and gets a message unless that pool has none.
  len_claim_total :
      (got : Bool) (m : MultiPool s) (len j : ℕ) {n : ℕ}
      → IsValid m
      → m.max < 128
      → ((k : ℕ) → k < m.max → (pool : TypePool s) × (get_elem? m.msg_pools k ≡ some (some pool)))
      → j < m.max
      → get_elem? m.lens j ≡ some n
      → len ≤ n
      → (i : ℕ) × (pool : TypePool s) × (i ≤ j)
        × (get_elem? m.msg_pools i ≡ some (some pool))
        × (r : Option Msg × MultiPool s) × (len_claim s got m len ≡ some r)
        × (r.0 ≡ none ↔ (TypePool.claim s got pool).0 ≡ none)
  unfolding len_claim
  len_claim_total got m len j v small made below e long =
      let i = first_fit m.lens len 0 (char_bound m.max) in
      let bound = char_bound_small m.max small in
      let early : i ≤ j = elim (Bool-cases (ltb j i)) [
        | inl later ↦ absurd (
            omega (
              arith,
              first_fit-first m.lens len 0 (char_bound m.max) j (omega arith)
                  (ground (arith, later)) e,
            ))
        | inr first ↦ ground (arith, first)
      ] in
      let (pool, there) = made i (omega arith) in
      let (r, answer, same) = claim_at_total got m i there in
      let inside : ltb i (char_bound m.max) ≡ true = ground (arith, early, below, bound) in
      (i, pool, early, there, r, rw inside answer, same)
