-- ===== src/Runtime/Recovery.antt =====
-- src/app/task_runtime_repository.cpp: the methods by which `resume`, under a new epoch, takes a
-- running task from the executor of an older one.
pub mod Effect
use photobridge.Base.{
  Bytes, Option, String, list_eq, nat_eq, none, option_eq, some, string_eq, true, ℕ, ◌!=◌, ◌==◌,
}
use photobridge.Common.Status.{Error, internal, invalid_argument, io_error, reject_if}
use photobridge.Model.Task.{
  FileAttemptState, TaskState, attempt_state_eq, task_state_eq, task_type_eq,
}
use photobridge.Runtime.Tables.{recovered}
use photobridge.Runtime.Store.{M, lift, transaction, write, ◌>>=◌, ◌>>◌}
use photobridge.Runtime.Sql.{
  append_event, check_epoch_attempt, check_ids, fence, read_current_epoch, update_attempt_state,
}
use photobridge.Runtime.Attempts.{update_released}

-- The new states of the task and of the attempt, the event, the reason and the error, if any.
pub record Verdict : Type 0 where
  pub next : TaskState
  pub attempt_state : FileAttemptState
  pub event : String
  pub reason : String
  pub error : Option Error

unfoldable pub recover_body : Bytes → Bytes → ℕ → ℕ → Bytes → Verdict → M (Unit {0})
recover_body plan task epoch old_epoch old_attempt v = do
  changes ← write (update_released plan task old_epoch old_attempt v.next v.error)
  lift (
      reject_if (changes != 1) invalid_argument
        "recovery ownership is stale or task is not running")
  update_attempt_state plan task old_attempt old_epoch v.attempt_state (some v.next) v.error true
  append_event plan task v.event epoch old_attempt (recovered old_epoch old_attempt v.reason)

-- RecoverTask. It always owns its transaction.
unfoldable pub recover_task : Bytes → Bytes → ℕ → ℕ → Bytes → Verdict → M (Unit {0})
unfolding recover_body
recover_task plan task epoch old_epoch old_attempt v = transaction (
    read_current_epoch plan
    >>= fence epoch "stale recovery epoch cannot transition a task"
        (recover_body plan task epoch old_epoch old_attempt v))

-- The checks of the three methods, and then the transaction.
unfoldable pub recover : Bytes → Bytes → ℕ → ℕ → Bytes → Verdict → M (Unit {0})
unfolding recover_task
recover plan task epoch old_epoch old_attempt v = do
  lift (check_ids plan task)
  lift (check_epoch_attempt epoch old_attempt)
  lift (check_epoch_attempt old_epoch old_attempt)
  lift (reject_if (v.reason == "") invalid_argument "recovery reason must not be empty")
  recover_task plan task epoch old_epoch old_attempt v

abbrev pub succeeded_verdict : String → Verdict
succeeded_verdict reason = record {
  next = TaskState.succeeded;
  attempt_state = FileAttemptState.committed;
  event = "RECOVER_SUCCEEDED";
  reason = reason;
  error = none;
}

abbrev pub retryable_verdict : String → Verdict
retryable_verdict reason = record {
  next = TaskState.retryable;
  attempt_state = FileAttemptState.retryable;
  event = "RECOVER_RETRYABLE";
  reason = reason;
  error = some (record { code = io_error; message = reason });
}

abbrev pub inconsistent_verdict : String → Verdict
inconsistent_verdict reason = record {
  next = TaskState.inconsistent;
  attempt_state = FileAttemptState.inconsistent;
  event = "RECOVER_INCONSISTENT";
  reason = reason;
  error = some (record { code = internal; message = reason });
}

-- RecoverSucceeded
unfoldable pub recover_succeeded : Bytes → Bytes → ℕ → ℕ → Bytes → String → M (Unit {0})
unfolding recover
recover_succeeded plan task epoch old_epoch old_attempt reason =
    recover plan task epoch old_epoch old_attempt (succeeded_verdict reason)

-- RecoverRetryable
unfoldable pub recover_retryable : Bytes → Bytes → ℕ → ℕ → Bytes → String → M (Unit {0})
unfolding recover
recover_retryable plan task epoch old_epoch old_attempt reason =
    recover plan task epoch old_epoch old_attempt (retryable_verdict reason)

-- RecoverInconsistent
unfoldable pub recover_inconsistent : Bytes → Bytes → ℕ → ℕ → Bytes → String → M (Unit {0})
unfolding recover
recover_inconsistent plan task epoch old_epoch old_attempt reason =
    recover plan task epoch old_epoch old_attempt (inconsistent_verdict reason)
