-- ===== src/Runtime/Tasks.antt =====
-- src/app/task_runtime_repository.cpp: the methods on epochs and on tasks that no executor owns.
pub mod Epochs
use photobridge.Base.{
  Bool, Bytes, [], exists, has_nul, if◌then◌else◌, is_empty, leb, list_eq, ltb, nat_eq, none, not,
  option_eq, string_eq, ℕ, ◌!=◌, ◌&&◌, ◌++◌, ◌+◌, ◌==◌, ◌||◌, ◌∷◌,
}
use photobridge.Common.Status.{
  Result, Status, already_exists, fail, invalid_argument, ok, reject_if,
}
use photobridge.Model.Task.{
  TaskRuntime, TaskSpec, TaskState, attempt_state_eq, task_state_eq, task_type_eq,
  validate_task_spec,
}
use photobridge.Runtime.Tables.{PlanRow, Tables, TaskRow, count_where, is_task, update_where}
use photobridge.Runtime.Store.{M, checked_write, lift, pure, transaction, write, ◌>>=◌, ◌>>◌}
use photobridge.Runtime.Sql.{
  check_ids, has_unmet_dependency, int64_max, read_current_epoch, read_runtime_row, update_epoch,
}

abbrev pub check_plan_id : Bytes → Status
check_plan_id plan =
    reject_if (is_empty plan || has_nul plan) invalid_argument
      "plan id must be non-empty and NUL-free"

unfoldable pub advance_epoch : Bytes → M ℕ
advance_epoch plan = do
  current ← read_current_epoch plan
  lift (reject_if (leb int64_max current) invalid_argument "execution epoch overflow")
  changes ← write (update_epoch plan (current + 1))
  lift (reject_if (changes != 1) invalid_argument "migration plan epoch update changed no rows")
  pure (current + 1)

-- AcquireNextExecutionEpoch
unfoldable pub acquire_next_execution_epoch : Bytes → M ℕ
unfolding advance_epoch
acquire_next_execution_epoch plan = do lift (check_plan_id plan); transaction (advance_epoch plan)

unfoldable pub new_task_row : Bytes → TaskSpec → TaskRow
new_task_row plan task = record {
  plan_id = plan;
  task_id = task.id;
  task_key = task.task_key;
  kind = task.kind;
  state = TaskState.planned;
  owner_epoch = none;
  active_attempt_id = none;
  attempt_count = 0;
  target_path = task.target_path.raw_bytes;
  expected_size = task.estimated_bytes;
  expected_digest = task.expected_digest;
  last_error = none;
}

abbrev pub has_task_key : Bytes → Bytes → TaskRow → Bool
has_task_key plan key r = r.plan_id == plan && r.task_key == key

-- PRIMARY KEY (plan_id, task_id), UNIQUE (plan_id, task_key) and the plan's foreign key, all of
-- which SQLite reports as SQLITE_CONSTRAINT
abbrev pub violates_task_constraint : Bytes → TaskSpec → Tables → Bool
violates_task_constraint plan task t =
    exists (is_task plan task.id) t.tasks
    || exists (has_task_key plan task.task_key) t.tasks
    || not (exists (λ (p : PlanRow). p.plan_id == plan) t.plans)

abbrev pub insert_task : Bytes → TaskSpec → Tables → Result (Unit {0} × Tables)
insert_task plan task t =
    if violates_task_constraint plan task t
    then fail already_exists "task id or task key already exists in this plan"
    else ok (tt, record t { tasks = t.tasks ++ new_task_row plan task ∷ [] })

-- AddTask
unfoldable pub add_task : Bytes → TaskSpec → M (Unit {0})
unfolding new_task_row
add_task plan task = do
  lift (check_ids plan task.id)
  lift (validate_task_spec task)
  lift (
      reject_if (ltb int64_max task.estimated_bytes) invalid_argument
        "estimated task bytes exceed SQLite integer range")
  checked_write (insert_task plan task)

-- state IN (PLANNED, RETRYABLE) and no dependency that has not succeeded
unfoldable pub is_ready_candidate : Tables → Bytes → Bytes → TaskRow → Bool
is_ready_candidate t plan task r =
    is_task plan task r
    && (r.state == TaskState.planned || r.state == TaskState.retryable)
    && not (has_unmet_dependency t plan task)

abbrev pub make_ready : TaskRow → TaskRow
make_ready r = record r {
  state = TaskState.ready;
  owner_epoch = none;
  active_attempt_id = none;
  last_error = none;
}

unfoldable pub update_ready : Bytes → Bytes → Tables → ℕ × Tables
unfolding is_ready_candidate
update_ready plan task t = (
  count_where (is_ready_candidate t plan task) t.tasks,
  record t { tasks = update_where (is_ready_candidate t plan task) make_ready t.tasks },
)

-- SetReady
unfoldable pub set_ready : Bytes → Bytes → M (Unit {0})
unfolding update_ready
set_ready plan task = do
  lift (check_ids plan task)
  changes ← write (update_ready plan task)
  lift (reject_if (changes == 0) invalid_argument "task is not eligible for READY state")

-- ReadCurrentEpoch
unfoldable pub read_epoch : Bytes → M ℕ
read_epoch plan = do lift (check_plan_id plan); read_current_epoch plan

-- ReadRuntime
unfoldable pub read_runtime : Bytes → Bytes → M TaskRuntime
read_runtime plan task = do lift (check_ids plan task); read_runtime_row plan task
