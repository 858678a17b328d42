-- ===== src/Tests/Stores.antt =====
-- The repository on the small migration: a claim, a receipt, and a stale executor.
use photobridge.Base.{
  All, Bytes, List, [], false, list_beq, list_eq, nat_eq, none, option_eq, refl, some, string_eq, ℕ,
  ◌+◌, ◌∷◌, ◌≡◌, ◌≢◌, ◌≤◌,
}
use photobridge.Common.Status.{is_ok, ok}
use photobridge.Model.FileIdentity.{identity_eq}
use photobridge.Model.Task.{TaskState, attempt_state_eq, task_state_eq, task_type_eq}
use photobridge.Runtime.Tables.{ReceiptRow, TaskRow, column_is, is_receipt, select_first}
use photobridge.Runtime.Identity.{encode_identity, encode_mount, encode_word}
use photobridge.Runtime.Store.{
  Repository, batched_epoch, begin_immediate, begin_with, checked_write, commit, commit_with,
  next_fault, or_rollback, query, sqlite_call, transaction, write,
}
use photobridge.Runtime.Sql.{
  add_event, append_event, check_epoch_attempt, check_ids, check_task_ownership, current_epoch,
  fenced, has_unmet_dependency, int64_max, read_current_epoch, read_runtime_row,
  update_attempt_state, update_attempts, update_epoch, within,
}
use photobridge.Runtime.Tasks.{acquire_next_execution_epoch, advance_epoch}
use photobridge.Runtime.Tasks.Epochs.{acquire-increments}
use photobridge.Runtime.Claim.{
  ClaimedTask, attempt_name, claim_next_ready, claim_row, insert_attempt, is_claimable,
  is_claimed_row, least_row, select_ready, update_claim,
}
use photobridge.Runtime.Claim.Effect.{IsClaim, claim_next_ready-IsClaim}
use photobridge.Runtime.Receipts.{
  after_insert, check_receipt, insert_receipt, persist_body, persist_verified_receipt,
  read_verified_receipt, record_durable, row_of_receipt,
}
use photobridge.Runtime.Calls.{Call, claims, history, persists, readies, run, succeeds}
use photobridge.Runtime.Calls.Atomicity.{run-atomic}
use photobridge.Runtime.Calls.Transitions.{RowsMove, history-RowsMove, history-terminal, nth_row}
use photobridge.Runtime.Calls.Ownership.{IsOwnedRight, history-IsOwnedRight}
use photobridge.Runtime.Calls.Fencing.{call_epoch, stale_call_refused}
use photobridge.Tests.Values.{file_digest-IsDigest, file_identity-IsIdentity}
use photobridge.Tests.Data.{
  attempt, first_id, plan, receipt, running_task, second_id, store, tables, task_row,
}
use photobridge.Runtime.Receipts.RoundTrip.{IsReceipt}
use photobridge.Runtime.Receipts.Persisted.{read-persist}
use photobridge.Runtime.Calls.Evidence.{Extends, history-evidence}

abbrev claimed_task : ClaimedTask
claimed_task = record { id = first_id; runtime = running_task }

abbrev pub claimed : Repository
claimed = (claim_next_ready plan 1 (some attempt) store).1

claim_first : claim_next_ready plan 1 (some attempt) store ≡ (ok claimed_task, claimed)
unfolding claim_next_ready claim_row select_ready check_ids check_epoch_attempt transaction
    begin_immediate begin_with sqlite_call next_fault or_rollback commit commit_with
    read_current_epoch query current_epoch least_row is_claimable has_unmet_dependency attempt_name
    write update_claim is_claimed_row checked_write insert_attempt append_event add_event
    read_runtime_row list_beq
claim_first = refl

claim_next_ready-IsClaim_example :
    (row : TaskRow) × IsClaim plan 1 (some attempt) tables claimed_task claimed.tables row
claim_next_ready-IsClaim_example =
    claim_next_ready-IsClaim plan 1 (some attempt) store claimed claimed_task claim_first

abbrev next_store : Repository
next_store = (acquire_next_execution_epoch plan store).1

acquire_second : acquire_next_execution_epoch plan store ≡ (ok 2, next_store)
unfolding acquire_next_execution_epoch advance_epoch transaction begin_immediate begin_with
    sqlite_call next_fault or_rollback commit commit_with read_current_epoch query current_epoch
    write update_epoch list_beq
acquire_second = refl

acquire-increments_example :
    (old : ℕ) × (current_epoch plan tables ≡ some old)
    × (2 ≡ old + 1)
    × (2 ≤ int64_max)
    × (current_epoch plan next_store.tables ≡ some 2)
acquire-increments_example = acquire-increments plan store next_store 2 acquire_second

-- The executor of epoch 1 has lost the plan to epoch 2.
epoch_moved : current_epoch plan next_store.tables ≢ some 1
unfolding acquire_next_execution_epoch advance_epoch transaction begin_immediate begin_with
    sqlite_call next_fault or_rollback commit commit_with read_current_epoch query current_epoch
    write update_epoch list_beq
epoch_moved h = cc

next_closed : (next_store.saved ≡ none) × (next_store.batch ≡ none)
unfolding acquire_next_execution_epoch advance_epoch transaction begin_immediate begin_with
    sqlite_call next_fault or_rollback commit commit_with read_current_epoch query current_epoch
    write update_epoch list_beq
next_closed = (refl, refl)

late_call : call_epoch (claims plan 1 (some attempt)) ≡ some (plan, 1)
unfolding call_epoch
late_call = refl

stale_call_refused_example :
    (is_ok (run (claims plan 1 (some attempt)) next_store).0 ≡ false)
    × ((run (claims plan 1 (some attempt)) next_store).1.tables ≡ next_store.tables)
stale_call_refused_example =
    stale_call_refused (claims plan 1 (some attempt)) plan 1 next_store late_call next_closed.0
      next_closed.1 epoch_moved

run-atomic_example :
    ((run (claims plan 1 (some attempt)) store).1.saved ≡ none)
    × ((run (claims plan 1 (some attempt)) store).1.batch ≡ none)
    × (is_ok (run (claims plan 1 (some attempt)) store).0 ≡ false
        → (run (claims plan 1 (some attempt)) store).1.tables ≡ tables)
run-atomic_example = run-atomic (claims plan 1 (some attempt)) store refl refl

abbrev calls : List Call
calls =
    claims plan 1 (some attempt)
    ∷ persists plan receipt
    ∷ succeeds plan first_id 1 attempt
    ∷ readies plan second_id
    ∷ []

history-RowsMove_example : RowsMove tables.tasks (history store calls).tables.tasks
history-RowsMove_example = history-RowsMove store calls refl refl

nobody_owns : All IsOwnedRight tables.tasks
nobody_owns = (
  record { epoch_iff = refl; attempt_iff = refl },
  (record { epoch_iff = refl; attempt_iff = refl }, tt),
)

history-IsOwnedRight_example : All IsOwnedRight (history store calls).tables.tasks
history-IsOwnedRight_example = history-IsOwnedRight store calls refl refl nobody_owns

abbrev persisted : Repository
persisted = (persist_verified_receipt plan receipt claimed).1

persist_first : persist_verified_receipt plan receipt claimed ≡ (ok tt, persisted)
unfolding claim_next_ready claim_row select_ready check_ids check_epoch_attempt transaction
    begin_immediate begin_with sqlite_call next_fault or_rollback commit commit_with
    read_current_epoch query current_epoch least_row is_claimable has_unmet_dependency attempt_name
    write update_claim is_claimed_row checked_write insert_attempt append_event add_event
    read_runtime_row list_beq persist_verified_receipt check_receipt fenced within batched_epoch
    persist_body check_task_ownership column_is insert_receipt row_of_receipt after_insert
    record_durable update_attempt_state update_attempts encode_identity encode_word encode_mount
persist_first = refl

receipt-IsReceipt : IsReceipt receipt
receipt-IsReceipt = record {
  source = file_digest-IsDigest;
  target = file_digest-IsDigest;
  identity = file_identity-IsIdentity;
}

no_fault_left : next_fault persisted.faults ≡ ok tt
unfolding claim_next_ready claim_row select_ready check_ids check_epoch_attempt transaction
    begin_immediate begin_with sqlite_call next_fault or_rollback commit commit_with
    read_current_epoch query current_epoch least_row is_claimable has_unmet_dependency attempt_name
    write update_claim is_claimed_row checked_write insert_attempt append_event add_event
    read_runtime_row list_beq persist_verified_receipt check_receipt fenced within batched_epoch
    persist_body check_task_ownership column_is insert_receipt row_of_receipt after_insert
    record_durable update_attempt_state update_attempts encode_identity encode_word encode_mount
no_fault_left = refl

read-persist_example : (read_verified_receipt plan first_id attempt persisted).0 ≡ ok receipt
read-persist_example =
    read-persist plan receipt claimed persisted persisted receipt-IsReceipt persist_first refl
      no_fault_left

abbrev finished_store : Repository
finished_store = record store {
  tables = record tables {
    tasks = task_row first_id TaskState.succeeded ∷ task_row second_id TaskState.planned ∷ [];
  };
}

first_finished :
    nth_row finished_store.tables.tasks 0 ≡ some (task_row first_id TaskState.succeeded)
unfolding nth_row
first_finished = refl

history-terminal_example :
    (r : TaskRow) × (nth_row (history finished_store calls).tables.tasks 0 ≡ some r)
    × (r.task_id ≡ first_id)
    × (r.state ≡ TaskState.succeeded)
history-terminal_example =
    history-terminal finished_store calls 0 (task_row first_id TaskState.succeeded) refl refl
      first_finished refl

history-evidence_example :
    Extends tables.events (history store calls).tables.events
    × ((plan task attempt : Bytes) (r : ReceiptRow)
        → select_first (is_receipt plan task attempt) tables.receipts ≡ some r
        → select_first (is_receipt plan task attempt) (history store calls).tables.receipts
          ≡ some r)
history-evidence_example = history-evidence store calls refl refl
