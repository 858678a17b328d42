-- ===== src/Model/Task.antt =====
-- src/model/task.cpp and include/photobridge/model/task.h: tasks, their states and transitions.
use photobridge.Base.{
  Bool, Bytes, Eq, Option, arith, beq_refl, false, has_nul, has_value, is_empty, list_eq, nat_beq,
  nat_eq, none, not, option_eq, some, string_eq, true, ℕ, ◌&&◌, ◌==◌, ◌||◌, ◌↔◌, ◌≡◌,
}
use photobridge.Common.Status.{Error, Status, invalid_argument, reject_if, ◌>>◌}
use photobridge.Common.Digest.{Digest}
use photobridge.Model.RelativePath.{RelativePath}

pub data TaskType : Type 0 where
  migrate_file write_asset_manifest write_relation_index verify_asset write_report : TaskType

pub data TaskState : Type 0 where
  planned ready running succeeded retryable failed needs_review inconsistent skipped : TaskState

pub data FileAttemptState : Type 0 where
  planned ready running commit_intent temp_written verified_durable : FileAttemptState
  committed retryable failed needs_review inconsistent skipped : FileAttemptState

-- static_cast<int>, by which the states are compared and stored
abbrev pub task_index : TaskState → ℕ
task_index TaskState.planned = 0
task_index TaskState.ready = 1
task_index TaskState.running = 2
task_index TaskState.succeeded = 3
task_index TaskState.retryable = 4
task_index TaskState.failed = 5
task_index TaskState.needs_review = 6
task_index TaskState.inconsistent = 7
task_index TaskState.skipped = 8

abbrev pub attempt_index : FileAttemptState → ℕ
attempt_index FileAttemptState.planned = 0
attempt_index FileAttemptState.ready = 1
attempt_index FileAttemptState.running = 2
attempt_index FileAttemptState.commit_intent = 3
attempt_index FileAttemptState.temp_written = 4
attempt_index FileAttemptState.verified_durable = 5
attempt_index FileAttemptState.committed = 6
attempt_index FileAttemptState.retryable = 7
attempt_index FileAttemptState.failed = 8
attempt_index FileAttemptState.needs_review = 9
attempt_index FileAttemptState.inconsistent = 10
attempt_index FileAttemptState.skipped = 11

abbrev pub type_index : TaskType → ℕ
type_index migrate_file = 0
type_index write_asset_manifest = 1
type_index write_relation_index = 2
type_index verify_asset = 3
type_index write_report = 4

pub task_index_iff : (a b : TaskState) → (nat_beq (task_index a) (task_index b) ≡ true) ↔ (a ≡ b)
task_index_iff a b = ((λ h. ground arith), (λ h. rw h (beq_refl (task_index b))))

pub attempt_index_iff :
    (a b : FileAttemptState) → (nat_beq (attempt_index a) (attempt_index b) ≡ true) ↔ (a ≡ b)
attempt_index_iff a b = ((λ h. ground arith), (λ h. rw h (beq_refl (attempt_index b))))

pub type_index_iff : (a b : TaskType) → (nat_beq (type_index a) (type_index b) ≡ true) ↔ (a ≡ b)
type_index_iff a b = ((λ h. ground arith), (λ h. rw h (beq_refl (type_index b))))

instance abbrev pub task_state_eq : Eq TaskState
task_state_eq = record {
  beq = λ a b. nat_beq (task_index a) (task_index b);
  beq_iff = task_index_iff;
}

instance abbrev pub attempt_state_eq : Eq FileAttemptState
attempt_state_eq = record {
  beq = λ a b. nat_beq (attempt_index a) (attempt_index b);
  beq_iff = attempt_index_iff;
}

instance abbrev pub task_type_eq : Eq TaskType
task_type_eq = record {
  beq = λ a b. nat_beq (type_index a) (type_index b);
  beq_iff = type_index_iff;
}

pub record TaskSpec : Type 0 where
  pub id : Bytes
  pub task_key : Bytes
  pub kind : TaskType
  pub asset_id : Bytes
  pub source_asset_id : Option Bytes
  pub target_path : RelativePath
  pub estimated_bytes : ℕ
  pub expected_digest : Option Digest

-- `owner_epoch` is 0 where no executor owns the task, as in the source.
pub record TaskRuntime : Type 0 where
  pub id : Bytes
  pub state : TaskState
  pub owner_epoch : ℕ
  pub attempt_id : Option Bytes
  pub attempt_count : ℕ
  pub last_error : Option Error

-- value.has_value() && (value.empty() || value has NUL)
abbrev pub bad_optional_id : Option Bytes → Bool
bad_optional_id none = false
bad_optional_id (some v) = is_empty v || has_nul v

-- Every `TaskType` is known, so that check of the source never fails here.
unfoldable pub validate_task_spec : TaskSpec → Status
validate_task_spec t = do
  reject_if (is_empty t.id) invalid_argument "task id must not be empty"
  reject_if (is_empty t.task_key) invalid_argument "task key must not be empty"
  reject_if (is_empty t.asset_id) invalid_argument "task asset id must not be empty"
  reject_if (is_empty t.target_path.raw_bytes) invalid_argument "task target path must not be empty"
  reject_if (has_nul t.id || has_nul t.task_key || has_nul t.asset_id) invalid_argument
      "task identifiers must not contain NUL"
  reject_if (bad_optional_id t.source_asset_id) invalid_argument
      "task source asset id must be non-empty and NUL-free"
  reject_if (t.kind == migrate_file && not (has_value t.source_asset_id)) invalid_argument
      "file migration task requires a source asset id"

unfoldable pub validate_task_runtime : TaskRuntime → Status
validate_task_runtime r = do
  reject_if (is_empty r.id) invalid_argument "task runtime id must not be empty"
  reject_if (has_nul r.id) invalid_argument "task runtime id must not contain NUL"
  reject_if (bad_optional_id r.attempt_id) invalid_argument
      "task attempt id must be non-empty and NUL-free"
  reject_if (r.state == TaskState.running && (r.owner_epoch == 0 || not (has_value r.attempt_id)))
      invalid_argument "running task runtime requires an owner epoch and attempt id"

-- IsValidTransition(TaskState, TaskState)
unfoldable pub is_valid_transition : TaskState → TaskState → Bool
is_valid_transition TaskState.planned to = to == TaskState.ready || to == TaskState.skipped
is_valid_transition TaskState.ready to = to == TaskState.running || to == TaskState.skipped
is_valid_transition TaskState.running to =
    to == TaskState.succeeded
    || to == TaskState.retryable
    || to == TaskState.failed
    || to == TaskState.needs_review
    || to == TaskState.inconsistent
is_valid_transition TaskState.retryable to = to == TaskState.ready
is_valid_transition _ to = false

-- The results that every active state of an attempt may end in.
abbrev attempt_ends : FileAttemptState → Bool
attempt_ends to =
    to == FileAttemptState.retryable
    || to == FileAttemptState.failed
    || to == FileAttemptState.needs_review
    || to == FileAttemptState.inconsistent

-- IsValidTransition(FileAttemptState, FileAttemptState)
unfoldable pub is_valid_attempt_transition : FileAttemptState → FileAttemptState → Bool
is_valid_attempt_transition FileAttemptState.planned to =
    to == FileAttemptState.ready || to == FileAttemptState.skipped
is_valid_attempt_transition FileAttemptState.ready to =
    to == FileAttemptState.running || to == FileAttemptState.skipped
is_valid_attempt_transition FileAttemptState.running to =
    to == FileAttemptState.commit_intent || attempt_ends to
is_valid_attempt_transition FileAttemptState.commit_intent to =
    to == FileAttemptState.temp_written || attempt_ends to
is_valid_attempt_transition FileAttemptState.temp_written to =
    to == FileAttemptState.verified_durable || attempt_ends to
is_valid_attempt_transition FileAttemptState.verified_durable to =
    to == FileAttemptState.committed || attempt_ends to
is_valid_attempt_transition FileAttemptState.retryable to = to == FileAttemptState.ready
is_valid_attempt_transition _ to = false
