-- ===== src/Runtime/Attempts.antt =====
-- src/app/task_runtime_repository.cpp: the methods by which the executor that owns a task reports
-- the progress and the result of its attempt.
pub mod Released
pub mod Effect
pub mod Progress
use photobridge.Base.{
  Bool, Bytes, Option, String, false, if◌then◌else◌, list_eq, nat_eq, none, not, option_eq, some,
  string_eq, true, ℕ, ◌!=◌, ◌&&◌, ◌==◌,
}
use photobridge.Common.Status.{Error, Result, Status, err, fail, invalid_argument, ok, reject_if}
use photobridge.Model.Task.{
  FileAttemptState, TaskState, attempt_state_eq, is_valid_attempt_transition, task_state_eq,
  task_type_eq,
}
use photobridge.Runtime.Tables.{
  Tables, TaskRow, column_is, count_where, is_attempt, is_task, select_first, text, update_where,
}
use photobridge.Runtime.Store.{M, lift, pure, query, write, ◌>>=◌, ◌>>◌}
use photobridge.Runtime.Sql.{
  append_event, check_epoch_attempt, check_ids, check_task_ownership, fenced, found,
  update_attempt_state,
}

-- The row of a running task that the executor still owns.
unfoldable pub is_owned : Bytes → Bytes → ℕ → Bytes → TaskRow → Bool
is_owned plan task epoch attempt r =
    is_task plan task r
    && column_is r.owner_epoch epoch
    && column_is r.active_attempt_id attempt
    && r.state == TaskState.running

abbrev pub release : TaskState → Option Error → TaskRow → TaskRow
release state error r = record r {
  state = state;
  owner_epoch = none;
  active_attempt_id = none;
  last_error = error;
}

-- UPDATE plan_task SET state, owner_epoch = NULL, … WHERE … owner_epoch, active_attempt_id, RUNNING
unfoldable pub update_released :
    Bytes → Bytes → ℕ → Bytes → TaskState → Option Error → Tables → ℕ × Tables
unfolding is_owned
update_released plan task epoch attempt state error t = (
  count_where (is_owned plan task epoch attempt) t.tasks,
  record t {
    tasks = update_where (is_owned plan task epoch attempt) (release state error) t.tasks;
  },
)

abbrev pub finished_attempt_state : TaskState → FileAttemptState
finished_attempt_state TaskState.succeeded = FileAttemptState.committed
finished_attempt_state _ = FileAttemptState.retryable

abbrev pub finished_event : TaskState → String
finished_event TaskState.succeeded = "SUCCEEDED"
finished_event _ = "RETRYABLE"

abbrev pub finish_detail : Option Error → String
finish_detail none = "completed"
finish_detail (some e) = e.message

unfoldable pub finish_body : Bytes → Bytes → ℕ → Bytes → TaskState → Option Error → M (Unit {0})
finish_body plan task epoch attempt next error = do
  changes ← write (update_released plan task epoch attempt next error)
  lift (
      reject_if (changes != 1) invalid_argument
        "task completion claim is stale or has an unexpected state")
  update_attempt_state plan task attempt epoch (finished_attempt_state next) (some next) error true
  append_event plan task (finished_event next) epoch attempt (text (finish_detail error))

-- FinishTask
unfoldable pub finish_task : Bytes → Bytes → ℕ → Bytes → TaskState → Option Error → M (Unit {0})
unfolding finish_body
finish_task plan task epoch attempt next error =
    fenced plan epoch "stale executor epoch cannot finish a task"
      (finish_body plan task epoch attempt next error)

unfoldable pub change_attempt :
    Bytes → Bytes → ℕ → Bytes → FileAttemptState → String → FileAttemptState → M (Unit {0})
change_attempt plan task epoch attempt next event previous = do
  lift (
      reject_if (not (is_valid_attempt_transition previous next)) invalid_argument
        "invalid task attempt lifecycle transition")
  update_attempt_state plan task attempt epoch next none none false
  append_event plan task event epoch attempt (text "attempt lifecycle")

-- A report of the state that the attempt has already is accepted, and changes nothing.
unfoldable pub advance_from :
    Bytes → Bytes → ℕ → Bytes → FileAttemptState → String → FileAttemptState → M (Unit {0})
unfolding change_attempt
advance_from plan task epoch attempt next event previous =
    if previous == next then pure tt else change_attempt plan task epoch attempt next event previous

unfoldable pub advance_body : Bytes → Bytes → ℕ → Bytes → FileAttemptState → String → M (Unit {0})
unfolding advance_from
advance_body plan task epoch attempt next event = do
  check_task_ownership plan task epoch attempt
  o ← query (λ t. select_first (is_attempt plan task attempt epoch) t.attempts)
  row ← lift (found o "task attempt was not found")
  advance_from plan task epoch attempt next event row.file_state

-- AdvanceAttempt
unfoldable pub advance_attempt :
    Bytes → Bytes → ℕ → Bytes → FileAttemptState → String → M (Unit {0})
unfolding advance_body
advance_attempt plan task epoch attempt next event =
    fenced plan epoch "stale executor epoch cannot advance an attempt"
      (advance_body plan task epoch attempt next event)

-- MarkCommitIntent
unfoldable pub mark_commit_intent : Bytes → Bytes → ℕ → Bytes → M (Unit {0})
unfolding advance_attempt
mark_commit_intent plan task epoch attempt = do
  lift (check_ids plan task)
  lift (check_epoch_attempt epoch attempt)
  advance_attempt plan task epoch attempt FileAttemptState.commit_intent "COMMIT_INTENT"

-- MarkTempWritten
unfoldable pub mark_temp_written : Bytes → Bytes → ℕ → Bytes → M (Unit {0})
unfolding advance_attempt
mark_temp_written plan task epoch attempt = do
  lift (check_ids plan task)
  lift (check_epoch_attempt epoch attempt)
  advance_attempt plan task epoch attempt FileAttemptState.temp_written "TEMP_WRITTEN"

-- MarkSucceeded
unfoldable pub mark_succeeded : Bytes → Bytes → ℕ → Bytes → M (Unit {0})
unfolding finish_task
mark_succeeded plan task epoch attempt = do
  lift (check_ids plan task)
  lift (check_epoch_attempt epoch attempt)
  finish_task plan task epoch attempt TaskState.succeeded none

abbrev pub retry_error : Status → Result Error
retry_error (ok u) = fail invalid_argument "retryable task result requires an error"
retry_error (err e) = ok e

-- MarkRetryable
unfoldable pub mark_retryable : Bytes → Bytes → ℕ → Bytes → Status → M (Unit {0})
unfolding finish_task
mark_retryable plan task epoch attempt status = do
  lift (check_ids plan task)
  lift (check_epoch_attempt epoch attempt)
  error ← lift (retry_error status)
  finish_task plan task epoch attempt TaskState.retryable (some error)
