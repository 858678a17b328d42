-- ===== src/Runtime/Claim.antt =====
-- src/app/task_runtime_repository.cpp: ClaimNextReady.
pub mod Choice
pub mod Effect
use photobridge.Base.{
  Bool, Bytes, List, Option, [], codes, decimal, exists, has_value, if◌then◌else◌, leb, list_eq,
  nat_eq, none, not, option_eq, some, string_eq, text_less, ℕ, ◌!=◌, ◌&&◌, ◌++◌, ◌+◌, ◌==◌, ◌∷◌,
}
use photobridge.Common.Status.{Result, fail, invalid_argument, io_error, ok, reject_if}
use photobridge.Model.Task.{
  FileAttemptState, TaskRuntime, TaskState, attempt_state_eq, task_state_eq, task_type_eq,
}
use photobridge.Runtime.Tables.{
  AttemptRow, Tables, TaskRow, count_where, is_task, text, update_where,
}
use photobridge.Runtime.Store.{M, checked_write, lift, pure, query, transaction, write, ◌>>=◌, ◌>>◌}
use photobridge.Runtime.Sql.{
  append_event, check_epoch_attempt, check_ids, fence, found, has_unmet_dependency, read_clock,
  read_current_epoch, read_runtime_row, uint32_max,
}

-- READY, in the plan, with every dependency succeeded
unfoldable pub is_claimable : Tables → Bytes → TaskRow → Bool
is_claimable t plan r =
    r.plan_id == plan
    && r.state == TaskState.ready
    && not (has_unmet_dependency t r.plan_id r.task_id)

abbrev pub smaller : TaskRow → Option TaskRow → Option TaskRow
smaller r none = some r
smaller r (some m) = if text_less m.task_id r.task_id then some m else some r

-- WHERE test ORDER BY task_id LIMIT 1
unfoldable pub least_row : (TaskRow → Bool) → List TaskRow → Option TaskRow
least_row test [] = none
least_row test (r ∷ rs) = let rest = least_row test rs in if test r then smaller r rest else rest

-- "attempt-" + plan_id + "-" + task_id + "-" + to_string(attempt_count + 1), unless supplied
unfoldable pub attempt_name : Option Bytes → Bytes → TaskRow → Bytes
attempt_name (some supplied) plan r = supplied
attempt_name none plan r =
    codes "attempt-"
    ++ (plan ++ (codes "-" ++ (r.task_id ++ (codes "-" ++ decimal (r.attempt_count + 1)))))

unfoldable pub is_claimed_row : Bytes → Bytes → TaskRow → Bool
is_claimed_row plan task r =
    is_task plan task r && r.state == TaskState.ready && not (has_value r.active_attempt_id)

abbrev pub make_running : ℕ → Bytes → TaskRow → TaskRow
make_running epoch attempt r = record r {
  state = TaskState.running;
  owner_epoch = some epoch;
  active_attempt_id = some attempt;
  attempt_count = r.attempt_count + 1;
  last_error = none;
}

unfoldable pub update_claim : Bytes → Bytes → ℕ → Bytes → Tables → ℕ × Tables
unfolding is_claimed_row
update_claim plan task epoch attempt t = (
  count_where (is_claimed_row plan task) t.tasks,
  record t { tasks = update_where (is_claimed_row plan task) (make_running epoch attempt) t.tasks },
)

-- attempt_id is the primary key of task_attempt.
unfoldable pub insert_attempt : Bytes → Bytes → Bytes → ℕ → ℕ → Tables → Result (Unit {0} × Tables)
insert_attempt attempt plan task epoch now t =
    if exists (λ (a : AttemptRow). a.attempt_id == attempt) t.attempts
    then fail io_error "insert task attempt"
    else ok (
      tt,
      record t {
        attempts =
            t.attempts
            ++ record {
              attempt_id = attempt;
              plan_id = plan;
              task_id = task;
              owner_epoch = epoch;
              file_state = FileAttemptState.running;
              started_at_ns = now;
              finished_at_ns = none;
              result = none;
              error = none;
            }
              ∷ [];
      },
    )

pub record ClaimedTask : Type 0 where
  pub id : Bytes
  pub runtime : TaskRuntime

unfoldable pub claim_row : Bytes → ℕ → Option Bytes → TaskRow → M ClaimedTask
unfolding update_claim insert_attempt
claim_row plan epoch supplied row = do
  lift (
      reject_if (leb uint32_max row.attempt_count) invalid_argument "task attempt count is invalid")
  let attempt = attempt_name supplied plan row
  changes ← write (update_claim plan row.task_id epoch attempt)
  lift (reject_if (changes != 1) invalid_argument "ready task claim was lost")
  now ← read_clock
  checked_write (insert_attempt attempt plan row.task_id epoch now)
  append_event plan row.task_id "RUNNING" epoch attempt (text "claim")
  runtime ← read_runtime_row plan row.task_id
  pure (record { id = row.task_id; runtime = runtime })

unfoldable pub select_ready : Bytes → M TaskRow
select_ready plan = query (λ t. least_row (is_claimable t plan) t.tasks) >>= λ o.
    lift (found o "no eligible ready task exists")

abbrev pub supplied_or : Option Bytes → Bytes → Bytes
supplied_or none b = b
supplied_or (some a) b = a

-- ClaimNextReadyImpl, for both forms of ClaimNextReady. It always owns its transaction.
unfoldable pub claim_next_ready : Bytes → ℕ → Option Bytes → M ClaimedTask
unfolding claim_row select_ready
claim_next_ready plan epoch supplied = do
  lift (check_ids plan (codes "claim"))
  lift (check_epoch_attempt epoch (supplied_or supplied (codes "generated")))
  transaction (
      read_current_epoch plan
      >>= fence epoch "stale executor epoch cannot claim a ready task"
          (select_ready plan >>= claim_row plan epoch supplied))
