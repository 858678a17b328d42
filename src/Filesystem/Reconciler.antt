-- ===== src/Filesystem/Reconciler.antt =====
-- src/filesystem/reconciler.cpp: the recovery rules, without their execution.
pub mod Safety
pub mod Validity
pub mod Rules
pub mod Exactness
use photobridge.Base.{
  Bool, Bytes, Option, String, exists, false, if◌then◌else◌, is_empty, list_eq, nat_eq, none, not,
  option_eq, some, string_eq, ℕ, ◌!=◌, ◌&&◌, ◌==◌, ◌||◌,
}
use photobridge.Common.Status.{Result, Status, invalid_argument, ok, reject_if, ◌>>◌}
use photobridge.Common.Digest.{Digest}
use photobridge.Model.FileIdentity.{FileIdentity, identity_eq}
use photobridge.Model.Task.{
  TaskRuntime, TaskSpec, TaskState, attempt_state_eq, migrate_file, task_state_eq, task_type_eq,
  validate_task_runtime, validate_task_spec,
}

pub record CommitIntent : Type 0 where
  pub task_id : Bytes
  pub attempt_id : Bytes
  pub owner_epoch : ℕ
  pub temp_path : Bytes
  pub final_path : Bytes

pub record VerifiedReceipt : Type 0 where
  pub task_id : Bytes
  pub attempt_id : Bytes
  pub owner_epoch : ℕ
  pub temp_path : Bytes
  pub final_path : Bytes
  pub content_size : ℕ
  pub source_digest : Option Digest
  pub target_digest : Digest
  pub source_identity : Option FileIdentity

pub record ObservedFileState : Type 0 where
  pub source_available : Bool
  pub source_changed : Bool
  pub temp_exists : Bool
  pub final_exists : Bool
  pub source_identity : Option FileIdentity
  pub temp_identity : Option FileIdentity
  pub final_identity : Option FileIdentity
  pub temp_size : ℕ
  pub final_size : ℕ
  pub temp_digest : Option Digest
  pub final_digest : Option Digest

pub data ReconcileAction : Type 0 where
  retry_task resume_commit_from_temp adopt_final adopt_final_and_cleanup_temp : ReconcileAction
  reverify_committed target_conflict inconsistent_action : ReconcileAction

pub record ReconcileDecision : Type 0 where
  pub action : ReconcileAction
  pub reason : String

-- value.has_value() && value != expected
abbrev pub differs : Option Bytes → Bytes → Bool
differs none b = false
differs (some a) b = a != b

unfoldable pub validate_intent : TaskSpec → TaskRuntime → CommitIntent → Status
validate_intent spec runtime intent = do
  reject_if (spec.kind != migrate_file) invalid_argument
      "reconciler only accepts file migration tasks"
  validate_task_spec spec
  validate_task_runtime runtime
  reject_if
      (is_empty intent.task_id
        || is_empty intent.attempt_id
        || is_empty intent.temp_path
        || is_empty intent.final_path)
      invalid_argument "commit intent fields must not be empty"
  reject_if (intent.task_id != spec.id || intent.task_id != runtime.id) invalid_argument
      "commit intent task does not match task runtime"
  reject_if (differs runtime.attempt_id intent.attempt_id) invalid_argument
      "commit intent attempt does not match task runtime"
  reject_if (runtime.owner_epoch != 0 && runtime.owner_epoch != intent.owner_epoch) invalid_argument
      "commit intent epoch does not match task runtime"
  reject_if (intent.final_path != spec.target_path.raw_bytes) invalid_argument
      "commit intent final path is not frozen target path"

unfoldable pub validate_receipt : CommitIntent → Option VerifiedReceipt → Status
validate_receipt intent none = ok tt
validate_receipt intent (some value) =
    reject_if
      (value.task_id != intent.task_id
        || value.attempt_id != intent.attempt_id
        || value.owner_epoch != intent.owner_epoch
        || value.temp_path != intent.temp_path
        || value.final_path != intent.final_path)
      invalid_argument "verified receipt does not match commit intent"

-- exists && size == receipt.content_size && digest has the receipt's target digest
unfoldable pub matches : Bool → ℕ → Option Digest → VerifiedReceipt → Bool
matches exists size none receipt = false
matches exists size (some digest) receipt =
    exists && size == receipt.content_size && digest == receipt.target_digest

abbrev pub decision : ReconcileAction → String → Result ReconcileDecision
decision a r = ok (record { action = a; reason = r })

-- The rules where no receipt was persisted.
unfoldable pub decide_without_receipt : ObservedFileState → Result ReconcileDecision
decide_without_receipt o =
    if o.final_exists
    then decision target_conflict "final exists without a durable verified receipt"
    else decision retry_task (
        if o.temp_exists
        then "intent has no receipt; retry without cleaning unproven temp"
        else "intent has no receipt; create a new attempt")

unfoldable pub decide_with_receipt :
    TaskRuntime → VerifiedReceipt → ObservedFileState → Result ReconcileDecision
decide_with_receipt runtime verified o =
    let temp_matches = matches o.temp_exists o.temp_size o.temp_digest verified in
    let final_matches = matches o.final_exists o.final_size o.final_digest verified in
    if o.final_exists && not final_matches
    then decision target_conflict "final exists but does not match the verified receipt"
    else if runtime.state == TaskState.succeeded
    then (if final_matches
        then decision reverify_committed "committed task final matches receipt"
        else decision inconsistent_action "committed task final is missing or unverifiable")
    else if final_matches && temp_matches
    then decision adopt_final_and_cleanup_temp
        "matching final and temp are durable evidence; clean owned temp after commit"
    else if final_matches
    then decision adopt_final "matching final can be adopted from durable receipt"
    else if temp_matches && not o.final_exists
    then decision resume_commit_from_temp
        "matching temp can be re-synced and published under a new epoch"
    else if not o.temp_exists && not o.final_exists
    then (if o.source_available
        then decision retry_task "receipt exists but files are absent; source can be rechecked"
        else decision inconsistent_action "receipt exists but files and source are unavailable")
    else decision inconsistent_action
        "observed temp is missing or does not match the verified receipt"

abbrev pub decide_on_receipt :
    TaskRuntime → Option VerifiedReceipt → ObservedFileState → Result ReconcileDecision
decide_on_receipt runtime none o = decide_without_receipt o
decide_on_receipt runtime (some verified) o = decide_with_receipt runtime verified o

-- What is decided of valid arguments.
unfoldable pub decide_observed :
    TaskRuntime → Option VerifiedReceipt → ObservedFileState → Result ReconcileDecision
decide_observed runtime receipt o =
    if o.source_changed
    then decision inconsistent_action "SOURCE_CHANGED: source identity differs from the frozen plan"
    else decide_on_receipt runtime receipt o

-- Decide(spec, runtime, intent, receipt, observed)
unfoldable pub decide :
    TaskSpec
    → TaskRuntime
    → CommitIntent
    → Option VerifiedReceipt
    → ObservedFileState
    → Result ReconcileDecision
decide spec runtime intent receipt o = do
  validate_intent spec runtime intent
  validate_receipt intent receipt
  decide_observed runtime receipt o
