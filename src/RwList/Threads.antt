-- ===== src/RwList/Threads.antt =====
-- One writing and one reading thread of src/utils/rwlist.c, interleaved. A step is a push on the
-- writer's own stack, a pop from the reader's, a test made without the lock, or a locked section;
-- between a thread's test and its locked section the other thread may do anything. A reader that
-- waits on the condition variable is one that stands between the two.
use netxy.Base.{
  ℕ, ◌≡◌, refl, sym, ap, ◌∙◌, true, false, Option, none, some, List, [], ◌∷◌, ◌++◌, arith, ltb, leb,
  length, append-nil, append_assoc, if◌then◌else◌, Bool-cases, inl, inr,
}
use mathlib.Core.Option.{some-injective}
use netxy.Stack.{StackOps, IsStack}
use netxy.RwList.{RwList, may_publish, publish, push_local, take_shared, once_pop, merge}
use netxy.RwList.Fifo.{
  then_rest, queue, items_of_num, publish-queue, take_shared-queue, once_pop-queue,
  push_local-queue, merge-queue,
}

-- Before a call's test, or behind it and before the locked section that it leads to.
pub data WriterAt : Type 0 where
  idle publishing merging : WriterAt

pub data ReaderAt : Type 0 where
  idle taking : ReaderAt

-- an element, or none, behind a list
abbrev pub followed_by : {A : Type 0} → List A → Option A → List A
followed_by xs none = xs
followed_by xs (some x) = xs ++ (x ∷ [])

module _ {A : Type 0} (s : StackOps A) where
  -- `pushed` and `popped` record what the calls were given and have returned, in order.
  pub record World : Type 0 where
    pub list : RwList s
    pub writer : WriterAt
    pub reader : ReaderAt
    pub pushed : List A
    pub popped : List A

  pub data Step : World → World → Type 0 where
    push :
        (w : World) (x : A) (r : RwList s)
        → w.writer ≡ WriterAt.idle
        → push_local s w.list x ≡ some r
        → Step w (record w { list = r; pushed = w.pushed ++ (x ∷ []) })
    -- the test of `rwlist_sync_write`, called by a push that is due and by `ox_rwlist_flush`
    publish_test :
        (w : World)
        → w.writer ≡ WriterAt.idle
        → ltb 0 (s.num w.list.local_write) ≡ true
        → may_publish s w.list ≡ true
        → Step w (record w { writer = publishing })
    -- the tests of `ox_rwlist_force_flush`
    force_test :
        (w : World)
        → w.writer ≡ WriterAt.idle
        → ltb 0 (s.num w.list.local_write) ≡ true
        → Step w (record w { writer = if leb (s.num w.list.shared) 0 then publishing else merging })
    publish_locked :
        (w : World)
        → w.writer ≡ publishing
        → Step w (record w { list = publish s w.list; writer = WriterAt.idle })
    merge_locked :
        (w : World) (r : RwList s)
        → w.writer ≡ merging
        → merge s w.list ≡ some r
        → Step w (record w { list = r; writer = WriterAt.idle })
    take_test :
        (w : World)
        → w.reader ≡ ReaderAt.idle
        → leb (s.num w.list.local_read) 0 ≡ true
        → Step w (record w { reader = taking })
    take_locked :
        (w : World)
        → w.reader ≡ taking
        → Step w (record w { list = take_shared s w.list; reader = ReaderAt.idle })
    pop_local :
        (w : World)
        → w.reader ≡ ReaderAt.idle
        → Step w (record w {
          list = (once_pop s w.list).1;
          popped = followed_by w.popped (once_pop s w.list).0;
        })

  pub data Reach (start : World) : World → Type 0 where
    here : Reach start start
    next : {t u : World} → Reach start t → Step t u → Reach start u

  -- `ox_rwlist_new`, before any call
  unfoldable pub begin : (num : ℕ) → ℕ → World
  begin num max = record {
    list = record {
      local_write = s.create num;
      shared = s.create num;
      local_read = s.create num;
      max_pending_num = max;
    };
    writer = WriterAt.idle;
    reader = ReaderAt.idle;
    pushed = [];
    popped = [];
  }

module _ {A : Type 0} (s : StackOps A) (l : IsStack s) where
  -- Nothing is lost or out of order, and what the tests found empty is still empty.
  pub record Inv (w : World s) : Type 0 where
    pub order : w.popped ++ queue s l w.list ≡ w.pushed
    pub shared_empty : w.writer ≡ publishing → l.items w.list.shared ≡ []
    pub read_empty : w.reader ≡ taking → l.items w.list.local_read ≡ []

  begin-Inv : (num max : ℕ) → Inv (begin s num max)
  unfolding begin
  begin-Inv num max = record {
    order = rw (l.create_lem, append-nil);
    shared_empty = λ e. l.create_lem num;
    read_empty = λ e. l.create_lem num;
  }

  push-Inv :
      (w : World s) (x : A) (r : RwList s)
      → w.writer ≡ WriterAt.idle
      → push_local s w.list x ≡ some r
      → Inv w
      → Inv (record w { list = r; pushed = w.pushed ++ (x ∷ []) })
  push-Inv w x r at e v =
      let (r', e', q, shared, read) = push_local-queue s l w.list x in
      let same : r' ≡ r = some-injective _ _ (sym e' ∙ e) in
      record {
        order =
            ap (λ t. w.popped ++ queue s l t) (sym same)
            ∙ ap (λ t. w.popped ++ t) q
            ∙ sym (append_assoc w.popped (queue s l w.list) (x ∷ []))
            ∙ ap (λ t. t ++ (x ∷ [])) v.order;
        shared_empty = λ p. cc;
        read_empty = λ p. rw (← same) (ap l.items read ∙ v.read_empty p);
      }

  merge-Inv :
      (w : World s) (r : RwList s)
      → merge s w.list ≡ some r
      → Inv w
      → Inv (record w { list = r; writer = WriterAt.idle })
  merge-Inv w r e v =
      let (r', e', q, empty, read) = merge-queue s l w.list in
      let same : r' ≡ r = some-injective _ _ (sym e' ∙ e) in
      record {
        order = ap (λ t. w.popped ++ queue s l t) (sym same) ∙ ap (λ t. w.popped ++ t) q ∙ v.order;
        shared_empty = λ p. cc;
        read_empty = λ p. rw (← same) (ap l.items read ∙ v.read_empty p);
      }

  force_test-Inv :
      (w : World s)
      → Inv w
      → Inv (record w { writer = if leb (s.num w.list.shared) 0 then publishing else merging })
  force_test-Inv w v = elim (Bool-cases (leb (s.num w.list.shared) 0)) [
    | inl h ↦ rw h (record {
      order = v.order;
      shared_empty = λ p. items_of_num s l w.list.shared h;
      read_empty = v.read_empty;
    })
    | inr h ↦ rw h (record { order = v.order; shared_empty = λ p. cc; read_empty = v.read_empty })
  ]

  -- A stack that the test found empty stays so under `take_shared`, which then does nothing.
  take_shared_empty : (r : RwList s) → l.items r.shared ≡ [] → l.items (take_shared s r).shared ≡ []
  unfolding take_shared
  take_shared_empty r e =
      let still : ltb 0 (s.num r.shared) ≡ false =
        ground (arith, l.num_lem r.shared, ap (λ xs. length {A = A} xs) e) in
      rw still e

  publish_reader : (r : RwList s) → (publish s r).local_read ≡ r.local_read
  unfolding publish
  publish_reader r = refl

  may_publish-shared : (r : RwList s) → may_publish s r ≡ true → leb (s.num r.shared) 0 ≡ true
  unfolding may_publish
  may_publish-shared r h = ground arith

  once_pop_shared : (r : RwList s) → (once_pop s r).1.shared ≡ r.shared
  unfolding once_pop
  once_pop_shared r = refl

  pop-Inv :
      (w : World s)
      → w.reader ≡ ReaderAt.idle
      → Inv w
      → Inv (record w {
        list = (once_pop s w.list).1;
        popped = followed_by w.popped (once_pop s w.list).0;
      })
  pop-Inv w at v = record {
    order =
        followed (once_pop s w.list).0 w.popped (queue s l (once_pop s w.list).1)
        ∙ ap (λ q. w.popped ++ q) (once_pop-queue s l w.list)
        ∙ v.order;
    shared_empty = λ e. ap l.items (once_pop_shared w.list) ∙ v.shared_empty e;
    read_empty = λ e. cc;
  }
    where
      followed : (o : Option A) (xs ys : List A) → followed_by xs o ++ ys ≡ xs ++ then_rest o ys
      followed none xs ys = refl
      followed (some x) xs ys = append_assoc xs (x ∷ []) ys

  Step-Inv : {w w' : World s} → Step s w w' → Inv w → Inv w'
  Step-Inv (push w x r at e) v = push-Inv w x r at e v
  Step-Inv (publish_test w at some_written test) v = record {
    order = v.order;
    shared_empty = λ e. items_of_num s l w.list.shared (may_publish-shared w.list test);
    read_empty = v.read_empty;
  }
  Step-Inv (force_test w at some_written) v = force_test-Inv w v
  Step-Inv (publish_locked w at) v = record {
    order = ap (λ q. w.popped ++ q) (publish-queue s l w.list (v.shared_empty at)) ∙ v.order;
    shared_empty = λ e. cc;
    read_empty = λ e. ap l.items (publish_reader w.list) ∙ v.read_empty e;
  }
  Step-Inv (merge_locked w r at e) v = merge-Inv w r e v
  Step-Inv (take_test w at test) v = record {
    order = v.order;
    shared_empty = v.shared_empty;
    read_empty = λ e. items_of_num s l w.list.local_read test;
  }
  Step-Inv (take_locked w at) v = record {
    order = ap (λ q. w.popped ++ q) (take_shared-queue s l w.list (v.read_empty at)) ∙ v.order;
    shared_empty = λ e. take_shared_empty w.list (v.shared_empty e);
    read_empty = λ e. cc;
  }
  Step-Inv (pop_local w at) v = pop-Inv w at v

  Reach-Inv : {t w : World s} → Inv t → Reach s t w → Inv w
  Reach-Inv v here = v
  Reach-Inv v (next r st) = Step-Inv st (Reach-Inv v r)

  -- However the two threads are interleaved, the elements returned so far, followed by those still in
  -- the list, are the elements pushed so far, in that order: none is lost, doubled or overtaken.
  pub Reach-order :
      (num max : ℕ) {w : World s}
      → Reach s (begin s num max) w
      → w.popped ++ queue s l w.list ≡ w.pushed
  Reach-order num max r = (Reach-Inv (begin-Inv num max) r).order
