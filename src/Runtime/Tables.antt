-- ===== src/Runtime/Tables.antt =====
-- src/app/sqlite_schema.cpp, versions 3 to 5: the tables that hold the runtime of a migration, as
-- lists of rows in the order of insertion, and the statements that SQL has over them. Columns that
-- the repository neither reads nor writes are left out; an enum column holds the enum's value.
use photobridge.Base.{
  Bool, Bytes, Eq, List, Option, String, [], false, if◌then◌else◌, list_eq, nat_eq, none, option_eq,
  some, string_eq, ℕ, ◌&&◌, ◌+◌, ◌==◌, ◌∷◌,
}
use photobridge.Common.Status.{Error}
use photobridge.Common.Digest.{Digest}
use photobridge.Model.Task.{
  FileAttemptState, TaskState, TaskType, attempt_state_eq, task_state_eq, task_type_eq,
}

pub record MigrationRow : Type 0 where
  pub migration_id : Bytes
  pub current_epoch : ℕ

pub record PlanRow : Type 0 where
  pub plan_id : Bytes
  pub migration_id : Bytes

pub record TaskRow : Type 0 where
  pub plan_id : Bytes
  pub task_id : Bytes
  pub task_key : Bytes
  pub kind : TaskType
  pub state : TaskState
  pub owner_epoch : Option ℕ
  pub active_attempt_id : Option Bytes
  pub attempt_count : ℕ
  pub target_path : Bytes
  pub expected_size : ℕ
  pub expected_digest : Option Digest
  pub last_error : Option Error

pub record DependencyRow : Type 0 where
  pub plan_id : Bytes
  pub task_id : Bytes
  pub depends_on_task_id : Bytes

pub record AttemptRow : Type 0 where
  pub attempt_id : Bytes
  pub plan_id : Bytes
  pub task_id : Bytes
  pub owner_epoch : ℕ
  pub file_state : FileAttemptState
  pub started_at_ns : ℕ
  pub finished_at_ns : Option ℕ
  pub result : Option TaskState
  pub error : Option Error

-- The text of an event's detail: as given, or
-- "old_epoch=" + old_epoch + " old_attempt=" + old_attempt + " reason=" + reason.
pub data EventDetail : Type 0 where
  text : String → EventDetail
  recovered : ℕ → Bytes → String → EventDetail

pub record EventRow : Type 0 where
  pub plan_id : Bytes
  pub task_id : Bytes
  pub event_type : String
  pub owner_epoch : ℕ
  pub attempt_id : Bytes
  pub detail : EventDetail
  pub created_at_ns : ℕ

pub record ReceiptRow : Type 0 where
  pub plan_id : Bytes
  pub task_id : Bytes
  pub attempt_id : Bytes
  pub owner_epoch : ℕ
  pub temp_path : Bytes
  pub final_path : Bytes
  pub content_size : ℕ
  pub source_digest : Digest
  pub target_digest : Digest
  pub source_identity : Bytes

pub record Tables : Type 0 where
  pub migrations : List MigrationRow
  pub plans : List PlanRow
  pub tasks : List TaskRow
  pub dependencies : List DependencyRow
  pub attempts : List AttemptRow
  pub events : List EventRow
  pub receipts : List ReceiptRow

module _ {ℓ} {R : Type ℓ} where
  -- SELECT … WHERE test, its first row
  abbrev pub select_first : (R → Bool) → List R → Option R
  select_first test [] = none
  select_first test (r ∷ rs) = if test r then some r else select_first test rs

  -- UPDATE … SET change WHERE test
  abbrev pub update_where : (R → Bool) → (R → R) → List R → List R
  update_where test change [] = []
  update_where test change (r ∷ rs) = (if test r then change r else r) ∷ update_where test change rs

  -- sqlite3_changes after that update
  abbrev pub count_where : (R → Bool) → List R → ℕ
  count_where test [] = 0
  count_where test (r ∷ rs) = (if test r then 1 else 0) + count_where test rs

-- The keys of the tables by which the statements find a row.
abbrev pub is_task : Bytes → Bytes → TaskRow → Bool
is_task plan task r = r.plan_id == plan && r.task_id == task

abbrev pub is_attempt : Bytes → Bytes → Bytes → ℕ → AttemptRow → Bool
is_attempt plan task attempt epoch r =
    r.plan_id == plan && r.task_id == task && r.attempt_id == attempt && r.owner_epoch == epoch

abbrev pub is_receipt : Bytes → Bytes → Bytes → ReceiptRow → Bool
is_receipt plan task attempt r = r.plan_id == plan && r.task_id == task && r.attempt_id == attempt

-- column = value, where the column may be NULL
unfoldable pub column_is {ℓ} : {A : Type ℓ} ⦃e : Eq A⦄ → Option A → A → Bool
column_is none v = false
column_is (some c) v = c == v
