-- ===== src/Runtime/Recovery/Effect.antt =====
-- src/app/task_runtime_repository.cpp: what RecoverTask, behind RecoverSucceeded, RecoverRetryable
-- and RecoverInconsistent, has done where it succeeded.
use photobridge.Base.{Bytes, list_eq, nat_eq, option_eq, some, string_eq, ℕ, ◌==◌, ◌≡◌}
use photobridge.Common.Status.{invalid_argument, ok, reject_if}
use photobridge.Model.Task.{attempt_state_eq, task_state_eq, task_type_eq}
use photobridge.Runtime.Tables.{recovered}
use photobridge.Runtime.Store.{Repository}
use photobridge.Runtime.Sql.{check_epoch_attempt, check_ids, current_epoch}
use photobridge.Runtime.Recovery.{Verdict, recover, recover_body, recover_task}
use photobridge.Runtime.Attempts.Released.{
  IsReleased, event_row, moved-IsReleased, release_steps, steps-IsReleased,
}
use photobridge.Runtime.Success.{fence_rest_ok, lift_then, transaction_ok}

-- A successful recovery, under the plan's current epoch, has taken the one running task that the
-- given old epoch and attempt owned, released it with the verdict, closed the old attempt's one row,
-- logged the event under the new epoch, and changed nothing else.
pub recover-IsReleased :
    (plan task : Bytes) (epoch old_epoch : ℕ) (old_attempt : Bytes) (v : Verdict)
    (s s' : Repository)
    → recover plan task epoch old_epoch old_attempt v s ≡ (ok tt, s')
    → (current_epoch plan s.tables ≡ some epoch)
      × IsReleased plan task old_epoch old_attempt v.next v.error v.attempt_state
          (event_row plan task v.event epoch old_attempt (recovered old_epoch old_attempt v.reason))
          s.tables
          s'.tables
unfolding recover recover_task recover_body release_steps
recover-IsReleased plan task epoch old_epoch old_attempt v s s' h =
    let (_, c1, h1) = lift_then (check_ids plan task) _ s h in
    let (_, c2, h2) = lift_then (check_epoch_attempt epoch old_attempt) _ s h1 in
    let (_, c3, h3) = lift_then (check_epoch_attempt old_epoch old_attempt) _ s h2 in
    let (_, c4, h4) =
      lift_then (reject_if (v.reason == "") invalid_argument "recovery reason must not be empty") _
        s h3 in
    let (b, current) =
      fence_rest_ok plan epoch _ (recover_body plan task epoch old_epoch old_attempt v) s
        (transaction_ok _ s h4) in
    (
      current,
      moved-IsReleased b.same_before b.same_after (
          steps-IsReleased plan task old_epoch old_attempt v.next v.error v.attempt_state
            "recovery ownership is stale or task is not running" v.event epoch
            (recovered old_epoch old_attempt v.reason) b.before b.ran),
    )
