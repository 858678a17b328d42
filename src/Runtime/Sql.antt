-- ===== src/Runtime/Sql.antt =====
-- src/app/task_runtime_repository.cpp: the helpers above the methods, one for each SQL statement
-- that several methods share, and the checks of arguments.
use photobridge.Base.{
  Bool, Bytes, Option, String, [], exists, false, has_nul, has_value, if◌then◌else◌, is_empty,
  list_eq, ltb, nat_eq, none, not, option_eq, some, string_eq, true, ℕ, ◌!=◌, ◌&&◌, ◌++◌, ◌==◌,
  ◌||◌, ◌∷◌,
}
use photobridge.Common.Status.{
  Error, Result, Status, fail, internal, invalid_argument, not_found, ok, reject_if,
}
use photobridge.Model.Task.{
  FileAttemptState, TaskRuntime, TaskState, attempt_state_eq, task_state_eq, task_type_eq,
}
use photobridge.Runtime.Tables.{
  AttemptRow, DependencyRow, EventDetail, EventRow, MigrationRow, PlanRow, Tables, TaskRow,
  column_is, count_where, is_attempt, is_task, select_first, update_where,
}
use photobridge.Runtime.Store.{
  M, batched_epoch, checked_write, lift, or_rollback, pure, query, transaction, write, ◌>>=◌, ◌>>◌,
}

-- std::numeric_limits<sqlite3_int64>::max()
abbrev pub int64_max : ℕ
int64_max = 9223372036854775807

-- std::numeric_limits<std::uint32_t>::max()
abbrev pub uint32_max : ℕ
uint32_max = 4294967295

unfoldable pub check_ids : Bytes → Bytes → Status
check_ids plan task =
    if is_empty plan || is_empty task
    then fail invalid_argument "plan and task ids must not be empty"
    else reject_if (has_nul plan || has_nul task) invalid_argument
        "plan and task ids must not contain NUL"

unfoldable pub check_epoch_attempt : ℕ → Bytes → Status
check_epoch_attempt epoch attempt =
    if epoch == 0 || is_empty attempt || has_nul attempt
    then fail invalid_argument "task claim requires a positive epoch and attempt id"
    else reject_if (ltb int64_max epoch) invalid_argument
        "execution epoch exceeds SQLite integer range"

-- The row that a SELECT returned, or the status where it returned none.
abbrev pub found {ℓ} : {A : Type ℓ} → Option A → String → Result A
found none m = fail not_found m
found (some a) m = ok a

abbrev pub is_plan : Bytes → PlanRow → Bool
is_plan plan r = r.plan_id == plan

abbrev pub is_migration : Option PlanRow → MigrationRow → Bool
is_migration none m = false
is_migration (some p) m = m.migration_id == p.migration_id

abbrev pub epoch_column : Option MigrationRow → Option ℕ
epoch_column none = none
epoch_column (some m) = some m.current_epoch

-- SELECT migration.current_epoch FROM migration_plan JOIN migration … WHERE plan_id = ?1
unfoldable pub current_epoch : Bytes → Tables → Option ℕ
current_epoch plan t =
    epoch_column (select_first (is_migration (select_first (is_plan plan) t.plans)) t.migrations)

-- ReadCurrentEpochForPlan
unfoldable pub read_current_epoch : Bytes → M ℕ
read_current_epoch plan =
    query (current_epoch plan) >>= λ o. lift (found o "migration plan was not found")

abbrev pub set_epoch : ℕ → MigrationRow → MigrationRow
set_epoch epoch m = record m { current_epoch = epoch }

-- UPDATE migration SET current_epoch = ?2 WHERE migration_id = (SELECT …)
unfoldable pub update_epoch : Bytes → ℕ → Tables → ℕ × Tables
update_epoch plan epoch t =
    let test = is_migration (select_first (is_plan plan) t.plans) in
    (
      count_where test t.migrations,
      record t { migrations = update_where test (set_epoch epoch) t.migrations },
    )

-- A dependency of the task, of which the task that it depends on has not succeeded.
abbrev pub is_unmet : Tables → Bytes → Bytes → DependencyRow → Bool
is_unmet t plan task d =
    d.plan_id == plan
    && d.task_id == task
    && exists
        (λ (r : TaskRow).
          is_task d.plan_id d.depends_on_task_id r && r.state != TaskState.succeeded)
        t.tasks

-- EXISTS (SELECT 1 FROM task_dependency d JOIN plan_task dependency …)
unfoldable pub has_unmet_dependency : Tables → Bytes → Bytes → Bool
has_unmet_dependency t plan task = exists (is_unmet t plan task) t.dependencies

unfoldable pub add_event : EventRow → Tables → Result (Unit {0} × Tables)
add_event e t = ok (tt, record t { events = t.events ++ e ∷ [] })

abbrev pub read_clock : M ℕ
read_clock s = (ok s.now, s)

-- AppendTaskEvent
unfoldable pub append_event : Bytes → Bytes → String → ℕ → Bytes → EventDetail → M (Unit {0})
append_event plan task event epoch attempt detail = do
  now ← read_clock
  checked_write (
      add_event (record {
        plan_id = plan;
        task_id = task;
        event_type = event;
        owner_epoch = epoch;
        attempt_id = attempt;
        detail = detail;
        created_at_ns = now;
      }))

abbrev pub finish_time : Bool → ℕ → Option ℕ
finish_time true now = some now
finish_time false now = none

abbrev pub set_attempt :
    ℕ → FileAttemptState → Option TaskState → Option Error → Bool → AttemptRow → AttemptRow
set_attempt now state outcome error finish r = record r {
  file_state = state;
  finished_at_ns = finish_time finish now;
  result = outcome;
  error = error;
}

-- UPDATE task_attempt SET … WHERE plan_id, task_id, attempt_id, owner_epoch
unfoldable pub update_attempts :
    Bytes → Bytes → Bytes → ℕ → (AttemptRow → AttemptRow) → Tables → ℕ × Tables
update_attempts plan task attempt epoch change t = (
  count_where (is_attempt plan task attempt epoch) t.attempts,
  record t { attempts = update_where (is_attempt plan task attempt epoch) change t.attempts },
)

-- UpdateAttemptState
unfoldable pub update_attempt_state :
    Bytes
    → Bytes
    → Bytes
    → ℕ
    → FileAttemptState
    → Option TaskState
    → Option Error
    → Bool
    → M (Unit {0})
update_attempt_state plan task attempt epoch state outcome error finish = do
  now ← read_clock
  changes ←
      write (update_attempts plan task attempt epoch (set_attempt now state outcome error finish))
  lift (reject_if (changes != 1) invalid_argument "task attempt was not found for state update")

abbrev pub epoch_or_zero : Option ℕ → ℕ
epoch_or_zero none = 0
epoch_or_zero (some e) = e

abbrev pub runtime_of : TaskRow → TaskRuntime
runtime_of r = record {
  id = r.task_id;
  state = r.state;
  owner_epoch = epoch_or_zero r.owner_epoch;
  attempt_id = r.active_attempt_id;
  attempt_count = r.attempt_count;
  last_error = r.last_error;
}

-- ReadRuntimeWithStatement. The columns have the values that the repository itself wrote, so the
-- checks for unknown stored values have no case here.
unfoldable pub read_runtime_row : Bytes → Bytes → M TaskRuntime
read_runtime_row plan task = do
  o ← query (λ t. select_first (is_task plan task) t.tasks)
  row ← lift (found o "task runtime was not found")
  pure (runtime_of row)

abbrev pub owner_matches : ℕ → Bytes → TaskRow → Bool
owner_matches epoch attempt r =
    r.state == TaskState.running
    && column_is r.owner_epoch epoch
    && column_is r.active_attempt_id attempt

abbrev pub unowned : TaskRow → Bool
unowned r = not (has_value r.owner_epoch) || not (has_value r.active_attempt_id)

-- CheckTaskOwnership
unfoldable pub check_task_ownership : Bytes → Bytes → ℕ → Bytes → M (Unit {0})
check_task_ownership plan task epoch attempt = do
  o ← query (λ t. select_first (is_task plan task) t.tasks)
  row ← lift (found o "task was not found")
  lift (reject_if (unowned row) internal "task ownership has invalid columns")
  lift (
      reject_if (not (owner_matches epoch attempt row)) invalid_argument
        "task ownership is stale or does not match receipt")

-- The transaction of a method that may run in a write batch: in one it neither begins nor commits,
-- and takes the batch's epoch for the current one, but an error still rolls back.
unfoldable pub within : {A : Type 0} → Option ℕ → Bytes → (ℕ → M A) → M A
within none plan body = transaction (read_current_epoch plan >>= body)
within (some e) plan body = or_rollback (body e)

-- `if (current_epoch != epoch) return Rollback(...)` before the rest
abbrev pub fence : {A : Type 0} → ℕ → String → M A → ℕ → M A
fence epoch message body current =
    lift (reject_if (current != epoch) invalid_argument message) >> body

unfoldable pub fenced : {A : Type 0} → Bytes → ℕ → String → M A → M A
unfolding within
fenced plan epoch message body s =
    within (batched_epoch s.batch plan) plan (fence epoch message body) s
