-- ===== src/Runtime/Writer.antt =====
-- src/app/task_runtime_repository.cpp: BeginWriteBatch, CommitWriteBatch, RollbackWriteBatch; and
-- src/app/runtime_db_writer.cpp: ExecuteBatch, by which the writer thread runs a batch of queued
-- commands in one transaction. A batch is
-- the list of commands that the thread has taken, and the futures' values are the list of statuses.
pub mod Steps
pub mod Begin
pub mod Batch
use Prim.Native.String
use photobridge.Base.{
  Bool, Bytes, List, Option, String, [], codes, false, if◌then◌else◌, list_eq, nat_eq, none,
  option_eq, some, string_eq, suc, true, ℕ, ◌+◌, ◌==◌, ◌∷◌,
}
use photobridge.Common.Status.{Error, Status, err, fail, internal, ok}
use photobridge.Filesystem.Reconciler.{VerifiedReceipt}
use photobridge.Runtime.Store.{
  M, Repository, begin_immediate, commit, lift, or_rollback, pure, rollback, ◌>>=◌, ◌>>◌,
}
use photobridge.Runtime.Sql.{check_epoch_attempt, check_ids, fence, read_current_epoch}
use photobridge.Runtime.Attempts.{mark_commit_intent, mark_retryable, mark_temp_written}
use photobridge.Runtime.Receipts.{persist_verified_receipt}
use photobridge.Model.Task.{attempt_state_eq, task_state_eq, task_type_eq}

abbrev pub set_batch : Option (Bytes × ℕ) → M (Unit {0})
set_batch b s = (ok tt, record s { batch = b })

abbrev pub has_batch : Option (Bytes × ℕ) → Bool
has_batch none = false
has_batch (some b) = true

-- The transaction of a batch is begun, and left open.
unfoldable pub begin_batch : Bytes → ℕ → M (Unit {0})
begin_batch plan epoch = do
  lift (check_ids plan (codes "batch"))
  lift (check_epoch_attempt epoch (codes "batch"))
  begin_immediate
  or_rollback (
      read_current_epoch plan
      >>= fence epoch "stale executor epoch cannot start a runtime write batch" (pure tt))
  set_batch (some (plan, epoch))

-- BeginWriteBatch
unfoldable pub begin_write_batch : Bytes → ℕ → M (Unit {0})
unfolding begin_batch
begin_write_batch plan epoch s =
    if has_batch s.batch
    then (fail internal "runtime write batch is already active", s)
    else begin_batch plan epoch s

abbrev pub unbatch : Status × Repository → Status × Repository
unbatch (r, s) = (r, record s { batch = none })

-- CommitWriteBatch
unfoldable pub commit_write_batch : M (Unit {0})
commit_write_batch s =
    if has_batch s.batch
    then unbatch (or_rollback commit s)
    else (fail internal "runtime write batch is not active", s)

-- RollbackWriteBatch; sqlite3_get_autocommit tells whether a transaction is open, and a ROLLBACK
-- where none is open changes nothing.
unfoldable pub rollback_write_batch : M (Unit {0})
rollback_write_batch s = if has_batch s.batch then unbatch (ok tt, rollback s) else (ok tt, s)

-- RuntimeDbWriter::Command, without the promises
pub data Command : Type 0 where
  claim : Bytes → ℕ → Command
  commit_intent_command temp_written_command : Bytes → Bytes → ℕ → Bytes → Command
  receipt_command : Bytes → VerifiedReceipt → Command
  retryable_command : Bytes → Bytes → ℕ → Bytes → Status → Command

-- ExecuteBatchedOperation
unfoldable pub execute_batched_operation : Command → M (Unit {0})
execute_batched_operation (claim plan epoch) =
    lift (fail internal "claim command cannot join a runtime write batch")
execute_batched_operation (commit_intent_command plan task epoch attempt) =
    mark_commit_intent plan task epoch attempt
execute_batched_operation (temp_written_command plan task epoch attempt) =
    mark_temp_written plan task epoch attempt
execute_batched_operation (receipt_command plan r) = persist_verified_receipt plan r
execute_batched_operation (retryable_command plan task epoch attempt status) =
    mark_retryable plan task epoch attempt status

-- batch_identity
abbrev pub batch_identity : Command → Bytes × ℕ
batch_identity (claim plan epoch) = (plan, epoch)
batch_identity (commit_intent_command plan task epoch attempt) = (plan, epoch)
batch_identity (temp_written_command plan task epoch attempt) = (plan, epoch)
batch_identity (receipt_command plan r) = (plan, r.owner_epoch)
batch_identity (retryable_command plan task epoch attempt status) = (plan, epoch)

-- The same status for every command.
abbrev pub complete_all : Status → List Command → List Status
complete_all r [] = []
complete_all r (c ∷ cs) = r ∷ complete_all r cs

-- One command counted in the index of the first failure.
abbrev pub count_one : Option (ℕ × Error) × Repository → Option (ℕ × Error) × Repository
count_one (none, s) = (none, s)
count_one (some (i, e), s) = (some (suc i, e), s)

abbrev pub go_on :
    (Repository → Option (ℕ × Error) × Repository)
    → Status × Repository
    → Option (ℕ × Error) × Repository
go_on rest (err e, s) = (some (0, e), s)
go_on rest (ok u, s) = count_one (rest s)

-- The loop over the commands, which stops at the first error: its index and what it was.
unfoldable pub execute_operations : List Command → Repository → Option (ℕ × Error) × Repository
execute_operations [] s = (none, s)
execute_operations (c ∷ cs) s = go_on (execute_operations cs) (execute_batched_operation c s)

abbrev rollback_error : Error → Error
rollback_error e = record {
  code = internal;
  message = String.◌++◌ "runtime DB batch rolled back: " e.message;
}

-- The statuses from the index `k` on, where the command at `position` had the error.
abbrev pub failed_from : ℕ → ℕ → Error → List Command → List Status
failed_from k position e [] = []
failed_from k position e (c ∷ cs) =
    (if k == position then err e else err (rollback_error e)) ∷ failed_from (k + 1) position e cs

unfoldable pub finish_batch :
    List Command → Option (ℕ × Error) × Repository → List Status × Repository
finish_batch cs (some (position, e), s) = (failed_from 0 position e cs, (rollback_write_batch s).1)
finish_batch cs (none, s) = (complete_all (commit_write_batch s).0 cs, (commit_write_batch s).1)

unfoldable pub execute_begun : List Command → Status × Repository → List Status × Repository
execute_begun cs (err e, s) = (complete_all (err e) cs, s)
execute_begun cs (ok u, s) = finish_batch cs (execute_operations cs s)

-- ExecuteBatch, on the commands of a batch, of which there is at least one
unfoldable pub execute_batch : Command → List Command → Repository → List Status × Repository
unfolding execute_begun
execute_batch c cs s =
    let (plan, epoch) = batch_identity c in execute_begun (c ∷ cs) (begin_write_batch plan epoch s)
