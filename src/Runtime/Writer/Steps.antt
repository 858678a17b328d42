-- ===== src/Runtime/Writer/Steps.antt =====
-- src/app/runtime_db_writer.cpp: what the commands of a batch leave of its transaction.
use photobridge.Base.{
  Bytes, List, Option, String, [], false, inl, inr, none, refl, some, subst, true, ℕ, ◌∙◌, ◌∷◌, ◌≡◌,
}
use photobridge.Common.Status.{Error, Result, Result-cases, Status, err, is_ok, ok}
use photobridge.Model.Task.{TaskState, is_valid_transition}
use photobridge.Runtime.Tables.{Tables}
use photobridge.Runtime.Store.{
  M, Repository, batched_epoch, begin_immediate, begin_with, continue_with, later_faults, lift,
  next_fault, or_rollback, rollback, rolled_back, sqlite_call, transaction, ◌>>=◌,
}
use photobridge.Runtime.Sql.{fence, fenced, read_current_epoch, within}
use photobridge.Runtime.Attempts.{
  advance_attempt, finish_task, mark_commit_intent, mark_retryable, mark_temp_written,
}
use photobridge.Runtime.Receipts.{persist_verified_receipt}
use photobridge.Runtime.Laws.{Inside-advance_body, Inside-finish_body, Inside-persist_body}
use photobridge.Runtime.Laws.Rules.{Inside, Inside-bind, Inside-lift, Within}
use photobridge.Runtime.Calls.Atomicity.{Anything, anything}
use photobridge.Runtime.Writer.{
  Command, claim, commit_intent_command, count_one, execute_batched_operation, execute_operations,
  go_on, receipt_command, retryable_command, temp_written_command,
}

-- What a step leaves of the transaction that was begun on the tables `t`: it is open, or else a
-- ROLLBACK, the step's own or one to come, leads back to `t`.
record Kept {A : Type 0} (t : Tables) (b : Option (Bytes × ℕ)) (r : Result A × Repository)
    : Type 0 where
  pub batch_kept : r.1.batch ≡ b
  pub still_open : is_ok r.0 ≡ true → r.1.saved ≡ some t
  pub undone :
      is_ok r.0 ≡ false
      → ((rollback r.1).tables ≡ t) × ((rollback r.1).saved ≡ none) × ((rollback r.1).batch ≡ b)

record InBatch {A : Type 0} (m : M A) : Type 0 where
  pub at : (s : Repository) (t : Tables) → s.saved ≡ some t → Kept t s.batch (m s)

-- An error that has changed nothing.
untouched :
    {A : Type 0} (s : Repository) (t : Tables) (b : Option (Bytes × ℕ)) (e : Error)
    → s.saved ≡ some t
    → s.batch ≡ b
    → Kept {A = A} t b (err e, s)
unfolding rollback
untouched s t b e v k =
    rw v (record { batch_kept = k; still_open = λ h. cc; undone = λ h. (refl, refl, k) })

InBatch-lift :
    {A B : Type 0} (r : Result A) (f : A → M B) → ((a : A) → InBatch (f a)) → InBatch (lift r >>= f)
InBatch-lift (ok a) f h = record { at = (h a).at }
InBatch-lift (err e) f h = record { at = λ s t v. untouched s t s.batch e v refl }

rolled-Kept :
    {A : Type 0} (s : Repository) (t : Tables) (r : Result A × Repository)
    → s.saved ≡ some t
    → Within Anything s r
    → Kept t s.batch (rolled_back r)
unfolding rollback
rolled-Kept s t (ok a, s') v w = record {
  batch_kept = w.batch_kept;
  still_open = λ h. w.saved_kept ∙ v;
  undone = λ h. cc;
}
rolled-Kept s t (err e, s') v w =
    rw (w.saved_kept, v)
      (record {
        batch_kept = w.batch_kept;
        still_open = λ h. cc;
        undone = λ h. (refl, refl, w.batch_kept);
      })

refused :
    {A : Type 0} (saved : Option Tables) (s : Repository) (t : Tables) (f : Unit {0} → M A)
    → saved ≡ some t
    → s.saved ≡ some t
    → Kept t s.batch (continue_with (begin_with saved s) f)
unfolding begin_with
refused none s t f e v = cc
refused (some x) s t f e v = untouched s t s.batch _ v refl

-- BEGIN is refused where a transaction is open.
InBatch-transaction : {A : Type 0} (body : M A) → InBatch (transaction body)
unfolding transaction begin_immediate sqlite_call
InBatch-transaction body = record {
  at = λ s t v. elim (Result-cases (next_fault s.faults)) [
    | inl (u, e) ↦ rw e (refused s.saved (record s { faults = later_faults s.faults }) t _ v v)
    | inr (x, e) ↦ rw e (untouched _ t s.batch x v refl)
  ];
}

InBatch-within :
    {A : Type 0} (o : Option ℕ) (plan : Bytes) (f : ℕ → M A)
    → ((n : ℕ) → Inside Anything (f n))
    → InBatch (within o plan f)
unfolding within or_rollback
InBatch-within none plan f h = InBatch-transaction (read_current_epoch plan >>= f)
InBatch-within (some n) plan f h = record { at = λ s t v. rolled-Kept s t (f n s) v ((h n).at s) }

InBatch-fenced :
    {A : Type 0} (plan : Bytes) (epoch : ℕ) (message : String) (body : M A)
    → Inside Anything body
    → InBatch (fenced plan epoch message body)
unfolding fenced
InBatch-fenced plan epoch message body h = record {
  at = λ s t v.
      (InBatch-within (batched_epoch s.batch plan) plan (fence epoch message body)
          (λ n. Inside-bind anything (lift _) (λ _. body) (Inside-lift anything _) (λ _. h))).at
        s t v;
}

InBatch-operation : (c : Command) → InBatch (execute_batched_operation c)
unfolding execute_batched_operation mark_commit_intent mark_temp_written mark_retryable
    advance_attempt finish_task persist_verified_receipt is_valid_transition
InBatch-operation (claim plan epoch) = record { at = λ s t v. untouched s t s.batch _ v refl }
InBatch-operation (commit_intent_command plan task epoch attempt) =
    search (InBatch-lift, InBatch-fenced, Inside-advance_body anything) depth 7
InBatch-operation (temp_written_command plan task epoch attempt) =
    search (InBatch-lift, InBatch-fenced, Inside-advance_body anything) depth 7
InBatch-operation (receipt_command plan r) =
    search (InBatch-lift, InBatch-fenced, Inside-persist_body anything) depth 7
InBatch-operation (retryable_command plan task epoch attempt status) =
    search
      (
        InBatch-lift,
        InBatch-fenced,
        λ (e : Error).
            Inside-finish_body anything plan task epoch attempt TaskState.retryable (some e) refl,
      )
      depth 7

-- After the loop: every command has succeeded and the transaction is open, or it is undone.
unfoldable pub IsLooped : Tables → Option (Bytes × ℕ) → Option (ℕ × Error) × Repository → Type 0
IsLooped t b (none, s) = (s.batch ≡ b) × (s.saved ≡ some t)
IsLooped t b (some x, s) = (s.batch ≡ b) × ((rollback s).tables ≡ t) × ((rollback s).saved ≡ none)

IsLooped-count_one :
    (t : Tables) (b : Option (Bytes × ℕ)) (r : Option (ℕ × Error) × Repository)
    → IsLooped t b r
    → IsLooped t b (count_one r)
unfolding IsLooped
IsLooped-count_one t b (none, s) h = h
IsLooped-count_one t b (some (i, e), s) h = h

IsLooped-go_on :
    (t : Tables) (b : Option (Bytes × ℕ)) (rest : Repository → Option (ℕ × Error) × Repository)
    (r : Status × Repository)
    → Kept t b r
    → ((s : Repository) → s.saved ≡ some t → s.batch ≡ b → IsLooped t b (rest s))
    → IsLooped t b (go_on rest r)
unfolding IsLooped
IsLooped-go_on t b rest (ok u, s) k f =
    IsLooped-count_one t b (rest s) (f s (k.still_open refl) k.batch_kept)
IsLooped-go_on t b rest (err e, s) k f = let (x, y, _) = k.undone refl in (k.batch_kept, x, y)

pub execute_operations-IsLooped :
    (cs : List Command) (t : Tables) (b : Option (Bytes × ℕ)) (s : Repository)
    → s.saved ≡ some t
    → s.batch ≡ b
    → IsLooped t b (execute_operations cs s)
unfolding execute_operations IsLooped
execute_operations-IsLooped [] t b s v e = (e, v)
execute_operations-IsLooped (c ∷ cs) t b s v e =
    IsLooped-go_on t b (execute_operations cs) (execute_batched_operation c s)
      (subst (λ x. Kept t x (execute_batched_operation c s)) e ((InBatch-operation c).at s t v))
      (λ s' v' e'. execute_operations-IsLooped cs t b s' v' e')
