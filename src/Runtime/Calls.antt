-- ===== src/Runtime/Calls.antt =====
-- The repository as a machine: one constructor for each method of TaskRuntimeRepository in
-- src/app/task_runtime_repository.cpp that writes, and any history of calls.
pub mod Atomicity
pub mod Transitions
pub mod Ownership
pub mod Evidence
pub mod Fencing
pub mod Graph
use photobridge.Base.{Bytes, List, Option, String, [], none, refl, ℕ, ◌∷◌, ◌≡◌}
use photobridge.Common.Status.{Status}
use photobridge.Model.Task.{TaskSpec, is_valid_transition}
use photobridge.Filesystem.Reconciler.{VerifiedReceipt}
use photobridge.Runtime.Tables.{Tables}
use photobridge.Runtime.Store.{M, Repository, pure, ◌>>=◌}
use photobridge.Runtime.Tasks.{acquire_next_execution_epoch, add_task, set_ready}
use photobridge.Runtime.Claim.{claim_next_ready}
use photobridge.Runtime.Dependencies.{add_dependency}
use photobridge.Runtime.Attempts.{
  mark_commit_intent, mark_retryable, mark_succeeded, mark_temp_written,
}
use photobridge.Runtime.Recovery.{
  inconsistent_verdict, recover_inconsistent, recover_retryable, recover_succeeded,
  retryable_verdict, succeeded_verdict,
}
use photobridge.Runtime.Receipts.{persist_verified_receipt}
use photobridge.Runtime.Laws.Transactions.{Atomic-void}
use photobridge.Runtime.Laws.{
  Atomic, Atomic-acquire, Atomic-add_dependency, Atomic-add_task, Atomic-claim,
  Atomic-mark_commit_intent, Atomic-mark_retryable, Atomic-mark_succeeded, Atomic-mark_temp_written,
  Atomic-persist, Atomic-recover, Atomic-set_ready, Law,
}

pub data Call : Type 0 where
  acquires : Bytes → Call
  adds : Bytes → TaskSpec → Call
  readies : Bytes → Bytes → Call
  depends : Bytes → Bytes → Bytes → Call
  claims : Bytes → ℕ → Option Bytes → Call
  intends writes_temp succeeds : Bytes → Bytes → ℕ → Bytes → Call
  retries : Bytes → Bytes → ℕ → Bytes → Status → Call
  persists : Bytes → VerifiedReceipt → Call
  recovers_succeeded recovers_retryable recovers_inconsistent :
      Bytes → Bytes → ℕ → ℕ → Bytes → String → Call

abbrev pub void : {A : Type 0} → M A → M (Unit {0})
void m = m >>= λ _. pure tt

unfoldable pub run : Call → M (Unit {0})
run (acquires plan) = void (acquire_next_execution_epoch plan)
run (adds plan task) = add_task plan task
run (readies plan task) = set_ready plan task
run (depends plan task depends_on) = add_dependency plan task depends_on
run (claims plan epoch supplied) = void (claim_next_ready plan epoch supplied)
run (intends plan task epoch attempt) = mark_commit_intent plan task epoch attempt
run (writes_temp plan task epoch attempt) = mark_temp_written plan task epoch attempt
run (succeeds plan task epoch attempt) = mark_succeeded plan task epoch attempt
run (retries plan task epoch attempt status) = mark_retryable plan task epoch attempt status
run (persists plan receipt) = persist_verified_receipt plan receipt
run (recovers_succeeded plan task epoch old_epoch old reason) =
    recover_succeeded plan task epoch old_epoch old reason
run (recovers_retryable plan task epoch old_epoch old reason) =
    recover_retryable plan task epoch old_epoch old reason
run (recovers_inconsistent plan task epoch old_epoch old reason) =
    recover_inconsistent plan task epoch old_epoch old reason

-- The state after a list of calls, whether they succeed or not.
unfoldable pub history : Repository → List Call → Repository
history s [] = s
history s (c ∷ cs) = history (run c s).1 cs

module _ {R : Tables → Tables → Type 0} (law : Law R) where
  pub Atomic-run : (c : Call) → Atomic R (run c)
  unfolding run recover_succeeded recover_retryable recover_inconsistent is_valid_transition
  Atomic-run (acquires plan) = Atomic-void law _ (Atomic-acquire law plan)
  Atomic-run (adds plan task) = Atomic-add_task law plan task
  Atomic-run (readies plan task) = Atomic-set_ready law plan task
  Atomic-run (depends plan task depends_on) = Atomic-add_dependency law plan task depends_on
  Atomic-run (claims plan epoch supplied) = Atomic-void law _ (Atomic-claim law plan epoch supplied)
  Atomic-run (intends plan task epoch attempt) =
      Atomic-mark_commit_intent law plan task epoch attempt
  Atomic-run (writes_temp plan task epoch attempt) =
      Atomic-mark_temp_written law plan task epoch attempt
  Atomic-run (succeeds plan task epoch attempt) = Atomic-mark_succeeded law plan task epoch attempt
  Atomic-run (retries plan task epoch attempt status) =
      Atomic-mark_retryable law plan task epoch attempt status
  Atomic-run (persists plan receipt) = Atomic-persist law plan receipt
  Atomic-run (recovers_succeeded plan task epoch old_epoch old reason) =
      Atomic-recover law plan task epoch old_epoch old (succeeded_verdict reason) refl
  Atomic-run (recovers_retryable plan task epoch old_epoch old reason) =
      Atomic-recover law plan task epoch old_epoch old (retryable_verdict reason) refl
  Atomic-run (recovers_inconsistent plan task epoch old_epoch old reason) =
      Atomic-recover law plan task epoch old_epoch old (inconsistent_verdict reason) refl

  -- A relation that every statement keeps holds between the ends of every history.
  pub history-related :
      (s : Repository) (cs : List Call)
      → s.saved ≡ none
      → s.batch ≡ none
      → R s.tables (history s cs).tables
  unfolding history
  history-related s [] v b = law.same s.tables
  history-related s (c ∷ cs) v b =
      let h = (Atomic-run c).at s v b in
      law.chain s.tables (run c s).1.tables (history (run c s).1 cs).tables h.related
        (history-related (run c s).1 cs h.closed h.unbatched)
