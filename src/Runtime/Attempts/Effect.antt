-- ===== src/Runtime/Attempts/Effect.antt =====
-- src/app/task_runtime_repository.cpp: what FinishTask, behind MarkSucceeded and MarkRetryable, has
-- done where it succeeded.
use photobridge.Base.{
  Bytes, Option, String, if◌then◌else◌, list_eq, nat_eq, option_eq, refl, string_eq, subst, ℕ, ◌==◌,
  ◌≡◌,
}
use photobridge.Common.Status.{Error, ok}
use photobridge.Model.Task.{
  FileAttemptState, TaskState, attempt_state_eq, task_state_eq, task_type_eq,
}
use photobridge.Runtime.Tables.{text}
use photobridge.Runtime.Store.{Repository}
use photobridge.Runtime.Attempts.{
  finish_body, finish_detail, finish_task, finished_attempt_state, finished_event,
}
use photobridge.Runtime.Success.{IsFence, fenced_ok}
use photobridge.Runtime.Attempts.Released.{
  IsReleased, event_row, moved-IsReleased, release_steps, steps-IsReleased,
}

-- The attempt of a task that succeeded is committed; any other is to be retried.
abbrev pub closing_state : TaskState → FileAttemptState
closing_state next =
    if next == TaskState.succeeded then FileAttemptState.committed else FileAttemptState.retryable

abbrev pub closing_event : TaskState → String
closing_event next = if next == TaskState.succeeded then "SUCCEEDED" else "RETRYABLE"

closing :
    (next : TaskState)
    → (finished_attempt_state next ≡ closing_state next)
      × (finished_event next ≡ closing_event next)
closing TaskState.planned = (refl, refl)
closing TaskState.ready = (refl, refl)
closing TaskState.running = (refl, refl)
closing TaskState.succeeded = (refl, refl)
closing TaskState.retryable = (refl, refl)
closing TaskState.failed = (refl, refl)
closing TaskState.needs_review = (refl, refl)
closing TaskState.inconsistent = (refl, refl)
closing TaskState.skipped = (refl, refl)

-- A successful FinishTask ran under the batch's epoch or the plan's current one. It released the one
-- running task that the attempt owned into the given state, closed the attempt's one row as
-- committed where that state is SUCCEEDED and else as retryable, logged the event of that name, and
-- changed nothing else.
pub finish_task-IsReleased :
    (plan task : Bytes) (epoch : ℕ) (attempt : Bytes) (next : TaskState) (error : Option Error)
    (s s' : Repository)
    → finish_task plan task epoch attempt next error s ≡ (ok tt, s')
    → IsFence s.batch plan epoch s.tables
      × IsReleased plan task epoch attempt next error
          (closing_state next)
          (event_row plan task (closing_event next) epoch attempt (text (finish_detail error)))
          s.tables
          s'.tables
unfolding finish_task finish_body release_steps
finish_task-IsReleased plan task epoch attempt next error s s' h =
    let (b, f) = fenced_ok plan epoch _ (finish_body plan task epoch attempt next error) s h in
    let r =
      steps-IsReleased plan task epoch attempt next error (finished_attempt_state next)
        "task completion claim is stale or has an unexpected state" (finished_event next) epoch
        (text (finish_detail error)) b.before b.ran in
    let result = moved-IsReleased b.same_before b.same_after r in
    let named =
      subst
        (λ e.
          IsReleased plan task epoch attempt next error (finished_attempt_state next)
            (event_row plan task e epoch attempt (text (finish_detail error))) s.tables s'.tables)
        (closing next).1 result in
    (
      f,
      subst
          (λ x.
            IsReleased plan task epoch attempt next error x
              (event_row plan task (closing_event next) epoch attempt (text (finish_detail error)))
              s.tables s'.tables)
          (closing next).0 named,
    )
