-- ===== src/Runtime/Laws/Methods.antt =====
-- Each method of src/app/task_runtime_repository.cpp keeps whatever relation its statements keep.
use photobridge.Base.{
  Bool, Bytes, List, Option, String, [], ap, arith, list_eq, nat_eq, none, option_eq, refl, some,
  string_eq, true, ℕ, ◌==◌, ◌∷◌, ◌≡◌,
}
use photobridge.Common.Status.{Error, Status, invalid_argument, reject_if}
use photobridge.Model.Task.{
  FileAttemptState, TaskSpec, TaskState, attempt_state_eq, is_valid_transition, task_state_eq,
  task_type_eq,
}
use photobridge.Runtime.Tables.{EventDetail, Tables, TaskRow, count_where, update_where}
use photobridge.Runtime.Sql.{
  append_event, check_ids, check_task_ownership, fence, fenced, read_current_epoch,
  read_runtime_row, update_attempt_state,
}
use photobridge.Runtime.Laws.Rules.{
  Atomic, Inside, Inside-bind, Inside-checked_write, Inside-if, Inside-lift, Inside-pure,
  Inside-query, Inside-read_clock, Inside-write, Law,
}
use photobridge.Runtime.Store.{M, lift, transaction, write, ◌>>=◌}
use photobridge.Runtime.Tasks.{
  acquire_next_execution_epoch, add_task, is_ready_candidate, make_ready, set_ready, update_ready,
}
use photobridge.Runtime.Claim.{claim_next_ready, claim_row, select_ready}
use photobridge.Runtime.Laws.Transactions.{
  Atomic-checked_write, Atomic-fenced, Atomic-lift, Atomic-transaction, Atomic-update,
}
use photobridge.Filesystem.Reconciler.{VerifiedReceipt}
use photobridge.Runtime.Attempts.{
  advance_attempt, advance_body, advance_from, change_attempt, finish_body, finish_task,
  mark_commit_intent, mark_retryable, mark_succeeded, mark_temp_written,
}
use photobridge.Runtime.Recovery.{Verdict, recover, recover_body, recover_task}
use photobridge.Runtime.Receipts.{
  after_insert, confirm_receipt, persist_body, persist_verified_receipt, read_verified_receipt,
  record_durable,
}

ruleset inside_rules = (
  Inside-lift, Inside-pure, Inside-read_clock, Inside-bind, Inside-if, Inside-query, Inside-write,
  Inside-checked_write,
)

update_where-none :
    (test : TaskRow → Bool) (change : TaskRow → TaskRow) (rs : List TaskRow)
    → count_where test rs ≡ 0
    → update_where test change rs ≡ rs
update_where-none test change [] h = refl
update_where-none test change (r ∷ rs) h = ground (arith, update_where-none test change rs)

update_ready-none :
    (plan task : Bytes) (t : Tables)
    → (update_ready plan task t).0 ≡ 0
    → (update_ready plan task t).1 ≡ t
unfolding update_ready
update_ready-none plan task t h =
    let e : update_where (is_ready_candidate t plan task) make_ready t.tasks ≡ t.tasks =
      update_where-none (is_ready_candidate t plan task) make_ready t.tasks h in
    ap (λ (rows : List TaskRow). record t { tasks = rows }) e

module _ {R : Tables → Tables → Type 0} (law : Law R) where
  Inside-read_current_epoch : (plan : Bytes) → Inside R (read_current_epoch plan)
  unfolding read_current_epoch
  Inside-read_current_epoch plan = search inside_rules

  Inside-append_event :
      (plan task : Bytes) (event : String) (epoch : ℕ) (attempt : Bytes) (detail : EventDetail)
      → Inside R (append_event plan task event epoch attempt detail)
  unfolding append_event
  Inside-append_event plan task event epoch attempt detail = search (inside_rules, law.logged)

  Inside-update_attempt_state :
      (plan task attempt : Bytes) (epoch : ℕ) (state : FileAttemptState)
      (outcome : Option TaskState) (error : Option Error) (finish : Bool)
      → Inside R (update_attempt_state plan task attempt epoch state outcome error finish)
  unfolding update_attempt_state
  Inside-update_attempt_state plan task attempt epoch state outcome error finish =
      search (inside_rules, law.progressed plan task attempt epoch)

  Inside-check_task_ownership :
      (plan task : Bytes) (epoch : ℕ) (attempt : Bytes)
      → Inside R (check_task_ownership plan task epoch attempt)
  unfolding check_task_ownership
  Inside-check_task_ownership plan task epoch attempt = search inside_rules

  Inside-read_runtime_row : (plan task : Bytes) → Inside R (read_runtime_row plan task)
  unfolding read_runtime_row
  Inside-read_runtime_row plan task = search inside_rules

  ruleset part_rules = (
    inside_rules, Inside-read_current_epoch, Inside-append_event, Inside-update_attempt_state,
    Inside-check_task_ownership, Inside-read_runtime_row,
  )

  pub Inside-fence :
      {A : Type 0} (plan : Bytes) (epoch : ℕ) (message : String) (body : M A)
      → Inside R body
      → Inside R (read_current_epoch plan >>= fence epoch message body)
  Inside-fence plan epoch message body h =
      Inside-bind law (read_current_epoch plan) (fence epoch message body)
        (Inside-read_current_epoch plan)
        λ current. Inside-bind law (lift _) (λ _. body) (Inside-lift law _) (λ _. h)

  -- BEGIN, the check of the epoch, the body, COMMIT
  Atomic-fence :
      {A : Type 0} (plan : Bytes) (epoch : ℕ) (message : String) (body : M A)
      → Inside R body
      → Atomic R (transaction (read_current_epoch plan >>= fence epoch message body))
  Atomic-fence plan epoch message body h =
      Atomic-transaction law _ (Inside-fence plan epoch message body h)

  Atomic-fenced_body :
      {A : Type 0} (plan : Bytes) (epoch : ℕ) (message : String) (body : M A)
      → Inside R body
      → Atomic R (fenced plan epoch message body)
  Atomic-fenced_body plan epoch message body h =
      Atomic-fenced law plan epoch message body (Inside-fence plan epoch message body h)

  pub Atomic-acquire : (plan : Bytes) → Atomic R (acquire_next_execution_epoch plan)
  unfolding acquire_next_execution_epoch
  Atomic-acquire plan = search (part_rules, Atomic-lift, Atomic-transaction, law.epoch) depth 12

  pub Atomic-add_task : (plan : Bytes) (task : TaskSpec) → Atomic R (add_task plan task)
  unfolding add_task
  Atomic-add_task plan task = search (Atomic-lift, Atomic-checked_write, law.added)

  Inside-claim_row :
      (plan : Bytes) (epoch : ℕ) (supplied : Option Bytes) (row : TaskRow)
      → Inside R (claim_row plan epoch supplied row)
  unfolding claim_row
  Inside-claim_row plan epoch supplied row = search (part_rules, law.claimed, law.started) depth 12

  pub Atomic-claim :
      (plan : Bytes) (epoch : ℕ) (supplied : Option Bytes)
      → Atomic R (claim_next_ready plan epoch supplied)
  unfolding claim_next_ready select_ready
  Atomic-claim plan epoch supplied =
      search (Atomic-lift, Atomic-fence, part_rules, Inside-claim_row) depth 9

  pub Atomic-set_ready : (plan task : Bytes) → Atomic R (set_ready plan task)
  unfolding set_ready
  Atomic-set_ready plan task =
      Atomic-lift law (check_ids plan task)
        (λ _. write (update_ready plan task) >>= λ n.
          lift (reject_if (n == 0) invalid_argument "task is not eligible for READY state"))
        λ _.
          Atomic-update law (update_ready plan task) invalid_argument
            "task is not eligible for READY state" (law.readied plan task)
            (update_ready-none plan task)

  pub Inside-finish_body :
      (plan task : Bytes) (epoch : ℕ) (attempt : Bytes) (next : TaskState) (error : Option Error)
      → is_valid_transition TaskState.running next ≡ true
      → Inside R (finish_body plan task epoch attempt next error)
  unfolding finish_body
  Inside-finish_body plan task epoch attempt next error v =
      search (part_rules, law.released) depth 9

  Atomic-finish :
      (plan task : Bytes) (epoch : ℕ) (attempt : Bytes) (next : TaskState) (error : Option Error)
      → is_valid_transition TaskState.running next ≡ true
      → Atomic R (finish_task plan task epoch attempt next error)
  unfolding finish_task
  Atomic-finish plan task epoch attempt next error v =
      Atomic-fenced_body plan epoch _ _ (Inside-finish_body plan task epoch attempt next error v)

  pub Atomic-mark_succeeded :
      (plan task : Bytes) (epoch : ℕ) (attempt : Bytes)
      → Atomic R (mark_succeeded plan task epoch attempt)
  unfolding mark_succeeded is_valid_transition
  Atomic-mark_succeeded plan task epoch attempt =
      search (Atomic-lift, Atomic-finish plan task epoch attempt TaskState.succeeded none refl)

  pub Atomic-mark_retryable :
      (plan task : Bytes) (epoch : ℕ) (attempt : Bytes) (status : Status)
      → Atomic R (mark_retryable plan task epoch attempt status)
  unfolding mark_retryable is_valid_transition
  Atomic-mark_retryable plan task epoch attempt status = search (
    Atomic-lift,
    λ (e : Error). Atomic-finish plan task epoch attempt TaskState.retryable (some e) refl,
  )

  Inside-advance_from :
      (plan task : Bytes) (epoch : ℕ) (attempt : Bytes) (next : FileAttemptState) (event : String)
      (previous : FileAttemptState)
      → Inside R (advance_from plan task epoch attempt next event previous)
  unfolding advance_from change_attempt
  Inside-advance_from plan task epoch attempt next event previous = search part_rules depth 9

  pub Inside-advance_body :
      (plan task : Bytes) (epoch : ℕ) (attempt : Bytes) (next : FileAttemptState) (event : String)
      → Inside R (advance_body plan task epoch attempt next event)
  unfolding advance_body
  Inside-advance_body plan task epoch attempt next event =
      search (part_rules, Inside-advance_from) depth 9

  Atomic-advance :
      (plan task : Bytes) (epoch : ℕ) (attempt : Bytes) (next : FileAttemptState) (event : String)
      → Atomic R (advance_attempt plan task epoch attempt next event)
  unfolding advance_attempt
  Atomic-advance plan task epoch attempt next event =
      Atomic-fenced_body plan epoch _ _ (Inside-advance_body plan task epoch attempt next event)

  pub Atomic-mark_commit_intent :
      (plan task : Bytes) (epoch : ℕ) (attempt : Bytes)
      → Atomic R (mark_commit_intent plan task epoch attempt)
  unfolding mark_commit_intent
  Atomic-mark_commit_intent plan task epoch attempt = search (Atomic-lift, Atomic-advance)

  pub Atomic-mark_temp_written :
      (plan task : Bytes) (epoch : ℕ) (attempt : Bytes)
      → Atomic R (mark_temp_written plan task epoch attempt)
  unfolding mark_temp_written
  Atomic-mark_temp_written plan task epoch attempt = search (Atomic-lift, Atomic-advance)

  Inside-recover_body :
      (plan task : Bytes) (epoch old_epoch : ℕ) (old : Bytes) (v : Verdict)
      → is_valid_transition TaskState.running v.next ≡ true
      → Inside R (recover_body plan task epoch old_epoch old v)
  unfolding recover_body
  Inside-recover_body plan task epoch old_epoch old v h = search (part_rules, law.released) depth 9

  pub Atomic-recover :
      (plan task : Bytes) (epoch old_epoch : ℕ) (old : Bytes) (v : Verdict)
      → is_valid_transition TaskState.running v.next ≡ true
      → Atomic R (recover plan task epoch old_epoch old v)
  unfolding recover recover_task
  Atomic-recover plan task epoch old_epoch old v h =
      search (Atomic-lift, Atomic-fence, Inside-recover_body plan task epoch old_epoch old v h)
        depth 7

  Inside-read_verified_receipt :
      (plan task attempt : Bytes) → Inside R (read_verified_receipt plan task attempt)
  unfolding read_verified_receipt
  Inside-read_verified_receipt plan task attempt = search inside_rules depth 9

  Inside-after_insert :
      (plan : Bytes) (r : VerifiedReceipt) (n : ℕ) → Inside R (after_insert plan r n)
  unfolding after_insert confirm_receipt record_durable
  Inside-after_insert plan r n = search (part_rules, Inside-read_verified_receipt) depth 9

  pub Inside-persist_body : (plan : Bytes) (r : VerifiedReceipt) → Inside R (persist_body plan r)
  unfolding persist_body
  Inside-persist_body plan r = search (part_rules, Inside-after_insert, law.received plan r) depth 9

  pub Atomic-persist :
      (plan : Bytes) (r : VerifiedReceipt) → Atomic R (persist_verified_receipt plan r)
  unfolding persist_verified_receipt
  Atomic-persist plan r = search (Atomic-lift, Atomic-fenced_body, Inside-persist_body) depth 7
