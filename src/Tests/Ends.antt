-- ===== src/Tests/Ends.antt =====
-- The ends of an attempt on the small migration: success, recovery, and a batch of the writer.
use photobridge.Base.{
  [], codes, list_beq, list_eq, nat_eq, none, option_eq, refl, some, string_eq, ◌∷◌, ◌≡◌,
}
use photobridge.Common.Status.{ok}
use photobridge.Model.FileIdentity.{identity_eq}
use photobridge.Model.Task.{
  FileAttemptState, TaskState, attempt_state_eq, is_valid_attempt_transition, task_state_eq,
  task_type_eq,
}
use photobridge.Runtime.Tables.{
  AttemptRow, Tables, column_is, is_attempt, recovered, select_first, text,
}
use photobridge.Runtime.Identity.{encode_identity, encode_mount, encode_word}
use photobridge.Runtime.Store.{
  Repository, batched_epoch, begin_immediate, begin_with, checked_write, commit, commit_with,
  next_fault, or_rollback, query, sqlite_call, transaction, write,
}
use photobridge.Runtime.Sql.{
  add_event, append_event, check_epoch_attempt, check_ids, check_task_ownership, current_epoch,
  fenced, has_unmet_dependency, read_current_epoch, read_runtime_row, update_attempt_state,
  update_attempts, within,
}
use photobridge.Runtime.Claim.{
  attempt_name, claim_next_ready, claim_row, insert_attempt, is_claimable, is_claimed_row,
  least_row, select_ready, update_claim,
}
use photobridge.Runtime.Claim.Effect.{new_attempt}
use photobridge.Runtime.Receipts.{
  after_insert, check_receipt, insert_receipt, persist_body, persist_verified_receipt,
  record_durable, row_of_receipt,
}
use photobridge.Runtime.Attempts.Released.{IsReleased, event_row}
use photobridge.Runtime.Attempts.Effect.{finish_task-IsReleased}
use photobridge.Runtime.Recovery.{recover, recover_body, recover_task, retryable_verdict}
use photobridge.Runtime.Rows.{IsAttemptRow}
use photobridge.Runtime.Recovery.Effect.{recover-IsReleased}
use photobridge.Runtime.Attempts.Progress.{IsAdvance, IsOwner, advance_attempt-IsAdvance}
use photobridge.Runtime.Writer.{
  begin_batch, begin_write_batch, commit_intent_command, commit_write_batch, execute_batch,
  execute_batched_operation, execute_begun, execute_operations, finish_batch, receipt_command,
}
use photobridge.Runtime.Writer.Batch.{IsWhole, execute_batch-IsWhole}
use photobridge.Runtime.Success.{IsFence}
use photobridge.Tests.Data.{attempt, first_id, plan, receipt, second_id, store, tables, task_row}
use photobridge.Runtime.Attempts.{
  advance_attempt, advance_body, advance_from, change_attempt, finish_body, finish_task, is_owned,
  mark_commit_intent, update_released,
}
use photobridge.Tests.Stores.{claimed}

abbrev finished : Repository
finished = (finish_task plan first_id 1 attempt TaskState.succeeded none claimed).1

finish_first :
    finish_task plan first_id 1 attempt TaskState.succeeded none claimed ≡ (ok tt, finished)
unfolding claim_next_ready claim_row select_ready check_ids check_epoch_attempt transaction
    begin_immediate begin_with sqlite_call next_fault or_rollback commit commit_with
    read_current_epoch query current_epoch least_row is_claimable has_unmet_dependency attempt_name
    write update_claim is_claimed_row checked_write insert_attempt append_event add_event
    read_runtime_row list_beq fenced within batched_epoch finish_task finish_body update_released
    is_owned column_is update_attempt_state update_attempts
finish_first = refl

finish_task-IsReleased_example :
    IsFence none plan 1 claimed.tables
    × IsReleased plan first_id 1 attempt TaskState.succeeded none FileAttemptState.committed
        (event_row plan first_id "SUCCEEDED" 1 attempt (text "completed"))
        claimed.tables
        finished.tables
unfolding claim_next_ready claim_row select_ready check_ids check_epoch_attempt transaction
    begin_immediate begin_with sqlite_call next_fault or_rollback commit commit_with
    read_current_epoch query current_epoch least_row is_claimable has_unmet_dependency attempt_name
    write update_claim is_claimed_row checked_write insert_attempt append_event add_event
    read_runtime_row list_beq
finish_task-IsReleased_example =
    finish_task-IsReleased plan first_id 1 attempt TaskState.succeeded none claimed finished
      finish_first

-- The same claim, found by `resume` under epoch 2.
abbrev resumed_store : Repository
resumed_store = record store {
  tables = record tables {
    migrations = record { migration_id = codes "m"; current_epoch = 2 } ∷ [];
    tasks =
        record (task_row first_id TaskState.running) {
          owner_epoch = some 1;
          active_attempt_id = some attempt;
          attempt_count = 1;
        }
        ∷ task_row second_id TaskState.planned
        ∷ [];
    attempts = new_attempt attempt plan first_id 1 10 ∷ [];
  };
}

abbrev claimed_tables : Tables
claimed_tables = record (resumed_store.tables) {
  migrations = record { migration_id = codes "m"; current_epoch = 1 } ∷ [];
}

abbrev claimed_store : Repository
claimed_store = record store { tables = claimed_tables }

abbrev recovered_store : Repository
recovered_store = (recover plan first_id 2 1 attempt (retryable_verdict "lost") resumed_store).1

recover_first :
    recover plan first_id 2 1 attempt (retryable_verdict "lost") resumed_store
    ≡ (ok tt, recovered_store)
unfolding recover recover_task recover_body check_ids check_epoch_attempt transaction
    begin_immediate begin_with sqlite_call next_fault or_rollback commit commit_with
    read_current_epoch query current_epoch write update_released is_owned column_is
    update_attempt_state update_attempts checked_write append_event add_event list_beq
recover_first = refl

recover-IsReleased_example :
    (current_epoch plan resumed_store.tables ≡ some 2)
    × IsReleased plan first_id 1 attempt TaskState.retryable
        (retryable_verdict "lost").error
        FileAttemptState.retryable
        (event_row plan first_id "RECOVER_RETRYABLE" 2 attempt (recovered 1 attempt "lost"))
        resumed_store.tables
        recovered_store.tables
recover-IsReleased_example =
    recover-IsReleased plan first_id 2 1 attempt (retryable_verdict "lost") resumed_store
      recovered_store recover_first

-- A batch of the executor that owns the first task.
execute_batch-IsWhole_example :
    IsWhole claimed_tables
      (plan, 1)
      (commit_intent_command plan first_id 1 attempt ∷ receipt_command plan receipt ∷ [])
      (execute_batch
        (commit_intent_command plan first_id 1 attempt)
        (receipt_command plan receipt ∷ [])
        claimed_store)
execute_batch-IsWhole_example =
    execute_batch-IsWhole (commit_intent_command plan first_id 1 attempt)
      (receipt_command plan receipt ∷ []) claimed_store refl refl

-- It succeeds, and both are told so.
batch_done :
    (execute_batch
      (commit_intent_command plan first_id 1 attempt)
      (receipt_command plan receipt ∷ [])
      claimed_store).0
    ≡ ok tt ∷ ok tt ∷ []
unfolding execute_batch execute_begun begin_write_batch begin_batch check_ids check_epoch_attempt
    begin_immediate begin_with sqlite_call next_fault or_rollback commit commit_with
    read_current_epoch query current_epoch write update_attempt_state update_attempts checked_write
    append_event add_event list_beq execute_operations execute_batched_operation finish_batch
    commit_write_batch mark_commit_intent advance_attempt advance_body advance_from change_attempt
    fenced within batched_epoch check_task_ownership column_is is_valid_attempt_transition
    persist_verified_receipt check_receipt persist_body insert_receipt row_of_receipt after_insert
    record_durable encode_identity encode_word encode_mount
batch_done = refl

abbrev intended : Repository
intended =
    (advance_attempt plan first_id 1 attempt FileAttemptState.commit_intent "COMMIT_INTENT"
      claimed_store).1

advance_first :
    advance_attempt plan first_id 1 attempt FileAttemptState.commit_intent "COMMIT_INTENT"
      claimed_store
    ≡ (ok tt, intended)
unfolding begin_immediate begin_with sqlite_call next_fault or_rollback commit commit_with
    read_current_epoch query current_epoch write update_attempt_state update_attempts checked_write
    append_event add_event list_beq advance_attempt advance_body advance_from change_attempt
    transaction fenced within batched_epoch check_task_ownership column_is
    is_valid_attempt_transition
advance_first = refl

advance_attempt-IsAdvance_example :
    IsFence none plan 1 claimed_tables
    × IsOwner plan first_id 1 attempt claimed_tables
    × (r : AttemptRow) × (select_first (is_attempt plan first_id attempt 1) claimed_tables.attempts
        ≡ some r)
    × IsAttemptRow plan first_id attempt 1 r
    × IsAdvance plan first_id 1 attempt FileAttemptState.commit_intent "COMMIT_INTENT" r
        claimed_tables intended.tables
advance_attempt-IsAdvance_example =
    advance_attempt-IsAdvance plan first_id 1 attempt FileAttemptState.commit_intent "COMMIT_INTENT"
      claimed_store intended advance_first
