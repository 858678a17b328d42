-- ===== src/Runtime/Queue/Answers.antt =====
-- src/app/runtime_db_writer.cpp: what holds of the queue, the batch and the answers after any steps.
use photobridge.Base.{
  Bool, Bool-cases, List, Option, [], ap, append-nil, append_assoc, ap₂, arith, false, inl, inr,
  length, list_eq, ltb, nat_eq, none, option_eq, refl, some, string_eq, subst, suc, sym, true, ℕ,
  ◌++◌, ◌==◌, ◌||◌, ◌∙◌, ◌∷◌, ◌≡◌, ◌≤◌, ◌⊎◌,
}
use photobridge.Common.Status.{Error, ok, ok_injective}
use photobridge.Runtime.Store.{Repository}
use photobridge.Runtime.Laws.{
  Atomic-claim, Atomic-mark_commit_intent, Atomic-mark_retryable, Atomic-mark_temp_written,
  Atomic-persist,
}
use photobridge.Runtime.Calls.Atomicity.{anything}
use photobridge.Runtime.Writer.{
  Command, claim, commit_intent_command, execute_batch, receipt_command, retryable_command,
  temp_written_command,
}
use photobridge.Runtime.Writer.Batch.{execute_batch-IsWhole}
use photobridge.Runtime.Queue.{
  Answer, Service, Stats, command_key, commands_of, complete_each, count_batch, count_single,
  enqueue_command, enqueue_unless, enqueue_with, execute_command, execute_taken, fail_each,
  fill_batch, handle_exception, max, take_batch,
}
use photobridge.Runtime.Queue.Batches.{IsUniform, fill_batch-IsTaken}
use photobridge.Runtime.Queue.Steps.{
  Run, Step, enqueues, executes, initial, new_service, returns, start, step_after, stops, takes,
  throws,
}
use photobridge.Runtime.Queue.Numbers.{
  complete_each-numbers, fail_each-numbers, numbers, numbers-append, numbers_below,
}

abbrev pub IsClosed : Repository → Type 0
IsClosed s = (s.saved ≡ none) × (s.batch ≡ none)

-- While the thread runs, the store is outside transactions between its executions; each accepted
-- command is answered, in the batch or in the queue, once and in the order of acceptance; the batch
-- that was taken is one that may be executed together, within the limit, as all before it were; and
-- a thread that has returned has left nothing in the batch and the queue.
pub record IsServed (limit : ℕ) (w : Service) : Type 0 where
  pub closed : w.running ≡ true → IsClosed w.store
  pub numbered :
      numbers w.answers ++ (numbers w.taken ++ numbers w.queue) ≡ numbers_below w.next_number
  pub uniform : IsUniform w.taken
  pub sized : length w.taken ≤ limit
  pub largest : w.stats.largest_batch ≤ limit
  pub drained : w.running ≡ false → (w.taken ≡ []) × (w.queue ≡ []) × (w.stopping ≡ true)

enqueue-numbered :
    (c : Command) (w : Service) (n : ℕ)
    → numbers w.answers ++ (numbers w.taken ++ numbers w.queue) ≡ numbers_below n
    → numbers w.answers ++ (numbers w.taken ++ numbers (w.queue ++ (n, c) ∷ []))
      ≡ numbers_below (suc n)
enqueue-numbered c w n h =
    ap (λ l. numbers w.answers ++ (numbers w.taken ++ l)) (numbers-append w.queue ((n, c) ∷ []))
    ∙ ap (λ l. numbers w.answers ++ l)
        (sym (append_assoc (numbers w.taken) (numbers w.queue) (n ∷ [])))
    ∙ sym (append_assoc (numbers w.answers) (numbers w.taken ++ numbers w.queue) (n ∷ []))
    ∙ ap (λ l. l ++ n ∷ []) h

execute_command-IsClosed :
    (c : Command) (s : Repository) → IsClosed s → IsClosed (execute_command c s).1
unfolding execute_command
execute_command-IsClosed (claim plan epoch) s (v, b) =
    let h = (Atomic-claim anything plan epoch none).at s v b in (h.closed, h.unbatched)
execute_command-IsClosed (commit_intent_command plan task epoch attempt) s (v, b) =
    let h = (Atomic-mark_commit_intent anything plan task epoch attempt).at s v b in
    (h.closed, h.unbatched)
execute_command-IsClosed (temp_written_command plan task epoch attempt) s (v, b) =
    let h = (Atomic-mark_temp_written anything plan task epoch attempt).at s v b in
    (h.closed, h.unbatched)
execute_command-IsClosed (receipt_command plan r) s (v, b) =
    let h = (Atomic-persist anything plan r).at s v b in (h.closed, h.unbatched)
execute_command-IsClosed (retryable_command plan task epoch attempt status) s (v, b) =
    let h = (Atomic-mark_retryable anything plan task epoch attempt status).at s v b in
    (h.closed, h.unbatched)

module _ (limit : ℕ) where
  IsServed-enqueue_unless :
      (stopping : Bool) (c : Command) (w : Service)
      → w.stopping ≡ stopping
      → IsServed limit w
      → IsServed limit (enqueue_unless stopping c w).1
  unfolding enqueue_unless
  IsServed-enqueue_unless true c w e h = h
  IsServed-enqueue_unless false c w e h = record {
    closed = h.closed;
    numbered = enqueue-numbered c w w.next_number h.numbered;
    uniform = h.uniform;
    sized = h.sized;
    largest = h.largest;
    drained = λ r. let q = (h.drained r).2 in absurd cc;
  }

  IsServed-enqueue_with :
      (fatal : Option Error) (c : Command) (w : Service)
      → IsServed limit w
      → IsServed limit (enqueue_with fatal c w).1
  unfolding enqueue_with
  IsServed-enqueue_with (some e) c w h = h
  IsServed-enqueue_with none c w h = IsServed-enqueue_unless w.stopping c w refl h

  IsServed-take :
      (w : Service) (t : ℕ × Command) (queue : List (ℕ × Command))
      → 1 ≤ limit
      → w.running ≡ true
      → w.taken ≡ []
      → w.queue ≡ t ∷ queue
      → IsServed limit w
      → IsServed limit (take_batch limit t queue w)
  unfolding take_batch
  IsServed-take w (n, c) queue l r e f h =
      let taken = fill_batch-IsTaken limit (n, c) queue (command_key c) refl in
      let parts = fill_batch limit (command_key c) queue in
      record {
        closed = h.closed;
        numbered =
            ap (λ (l : List ℕ). numbers w.answers ++ n ∷ l)
              (sym (numbers-append parts.0 parts.1) ∙ ap numbers taken.in_order)
            ∙ ap (λ q. numbers w.answers ++ numbers q) (sym f)
            ∙ ap (λ p. numbers w.answers ++ (numbers p ++ numbers w.queue)) (sym e)
            ∙ h.numbered;
        uniform = taken.uniform;
        sized = taken.sized l;
        largest = h.largest;
        drained = λ s. absurd cc;
      }

  -- What an execution leaves: the batch is answered, and the store is outside transactions.
  record IsDone (w : Service) (ts : List (ℕ × Command)) (s : Repository)
      (answers : List (ℕ × Answer)) (st : Stats) : Type 0 where
    shut : IsClosed s
    same_numbers : numbers answers ≡ numbers ts
    within : st.largest_batch ≤ limit

  IsServed-done :
      (w : Service) (ts : List (ℕ × Command)) (s : Repository) (answers : List (ℕ × Answer))
      (st : Stats)
      → w.running ≡ true
      → w.taken ≡ ts
      → IsServed limit w
      → IsDone w ts s answers st
      → IsServed limit
          (record w { store = s; taken = []; answers = w.answers ++ answers; stats = st })
  IsServed-done w ts s answers st r e h d = record {
    closed = λ k. d.shut;
    numbered =
        ap (λ l. l ++ numbers w.queue)
          (numbers-append w.answers answers
            ∙ ap (λ l. numbers w.answers ++ l) (d.same_numbers ∙ ap numbers (sym e)))
        ∙ append_assoc (numbers w.answers) (numbers w.taken) (numbers w.queue)
        ∙ h.numbered;
    uniform = inl (omega arith);
    sized = omega arith;
    largest = d.within;
    drained = λ k. absurd cc;
  }

  IsServed-execute :
      (w : Service) (t : ℕ × Command) (ts : List (ℕ × Command))
      → w.running ≡ true
      → w.taken ≡ t ∷ ts
      → IsServed limit w
      → IsServed limit (execute_taken t ts w)
  unfolding execute_taken
  IsServed-execute w (n, c) [] r e h =
      IsServed-done w ((n, c) ∷ []) (execute_command c w.store).1
        ((n, (execute_command c w.store).0) ∷ []) (count_single w.stats) r e h
        (record {
          shut = execute_command-IsClosed c w.store (h.closed r);
          same_numbers = refl;
          within = h.largest;
        })
  IsServed-execute w (n, c) (t ∷ ts) r e h =
      let (v, b) = h.closed r in
      let whole = execute_batch-IsWhole c (commands_of (t ∷ ts)) w.store v b in
      IsServed-done w ((n, c) ∷ t ∷ ts) (execute_batch c (commands_of (t ∷ ts)) w.store).1
        (complete_each ((n, c) ∷ t ∷ ts) (execute_batch c (commands_of (t ∷ ts)) w.store).0)
        (count_batch (length ((n, c) ∷ t ∷ ts)) w.stats) r e h
        (record {
          shut = whole.closed;
          same_numbers = complete_each-numbers ((n, c) ∷ t ∷ ts) _ whole.answered;
          within = ground (arith, h.largest, h.sized, ap length e);
        })

  IsServed-throw :
      (w : Service) (e : Error) (s : Repository) (st : Stats)
      → IsServed limit w
      → (st.largest_batch ≡ w.stats.largest_batch)
        ⊎ (st.largest_batch ≡ max w.stats.largest_batch (length w.taken))
      → IsServed limit (handle_exception e s st w)
  unfolding handle_exception
  IsServed-throw w e s st h k = record {
    closed = λ r. absurd cc;
    numbered =
        append-nil _
        ∙ numbers-append (w.answers ++ fail_each e w.taken) (fail_each e w.queue)
        ∙ ap₂ (λ k l. k ++ l)
            (numbers-append w.answers (fail_each e w.taken)
              ∙ ap (λ l. numbers w.answers ++ l) (fail_each-numbers e w.taken))
            (fail_each-numbers e w.queue)
        ∙ append_assoc (numbers w.answers) (numbers w.taken) (numbers w.queue)
        ∙ h.numbered;
    uniform = inl (omega arith);
    sized = omega arith;
    largest = ground (arith, h.largest, h.sized);
    drained = λ r. (refl, refl, refl);
  }

  IsServed-Step : (u v : Service) → 1 ≤ limit → Step limit u v → IsServed limit u → IsServed limit v
  unfolding enqueue_command
  IsServed-Step u v l (enqueues c w) h = IsServed-enqueue_with w.fatal c w h
  IsServed-Step u v l (stops w) h = record {
    closed = h.closed;
    numbered = h.numbered;
    uniform = h.uniform;
    sized = h.sized;
    largest = h.largest;
    drained = λ r. ((h.drained r).0, (h.drained r).1, refl);
  }
  IsServed-Step u v l (takes w t queue r e f) h = IsServed-take w t queue l r e f h
  IsServed-Step u v l (executes w t ts r e) h = IsServed-execute w t ts r e h
  IsServed-Step u v l (throws w e s st r k) h = IsServed-throw w e s st h k
  IsServed-Step u v l (returns w r e f g) h = record {
    closed = λ k. absurd cc;
    numbered = h.numbered;
    uniform = h.uniform;
    sized = h.sized;
    largest = h.largest;
    drained = λ k. (e, f, g);
  }

  IsServed-Run : {u v : Service} → 1 ≤ limit → Run limit u v → IsServed limit u → IsServed limit v
  IsServed-Run l initial h = h
  IsServed-Run l (step_after r s) h = IsServed-Step _ _ l s (IsServed-Run l r h)

-- Whatever the callers and the writer thread do, in any order, after a start on a store that is
-- outside transactions and write batches: every accepted command is answered, in the batch that is
-- being executed or in the queue, once, in the order of acceptance; a batch is one command or has
-- commands of one kind, plan and epoch on different tasks, and no batch is above the limit, which
-- is at most 16; between executions the store is outside transactions and write batches; and once
-- the thread has returned every accepted command is answered.
pub start-IsServed :
    (s : Repository) (limit : ℕ) (u v : Service)
    → s.saved ≡ none
    → s.batch ≡ none
    → start s limit ≡ ok u
    → Run limit u v
    → (limit ≤ 16)
      × IsServed limit v
      × (v.running ≡ false → numbers v.answers ≡ numbers_below v.next_number)
unfolding start new_service
start-IsServed s limit u v a b h r = elim (Bool-cases (limit == 0 || ltb 16 limit)) [
  | inl e ↦ absurd (ground arith)
  | inr e ↦
      let q : u ≡ new_service s = sym (ok_injective (rw e at h)) in
      let served : IsServed limit u = subst (IsServed limit) (sym q) (record {
        closed = λ k. (a, b);
        numbered = refl;
        uniform = inl (omega arith);
        sized = omega arith;
        largest = omega arith;
        drained = λ k. absurd cc;
      }) in
      let last = IsServed-Run limit (ground arith) r served in
      (
        ground arith,
        last,
        λ k.
            let (x, y, _) = last.drained k in
            sym (append-nil _)
            ∙ ap (λ l. numbers v.answers ++ l) (sym (ap₂ (λ p q. numbers p ++ numbers q) x y))
            ∙ last.numbered,
      )
]
