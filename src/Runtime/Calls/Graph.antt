-- ===== src/Runtime/Calls/Graph.antt =====
-- src/app/task_runtime_repository.cpp: the task graph of a plan along a history of calls.
use photobridge.Base.{Bool-cases, Bytes, List, arith, exists, inl, inr, none, subst, sym, ℕ, ◌≡◌}
use photobridge.Common.Status.{ok}
use photobridge.Filesystem.Reconciler.{VerifiedReceipt}
use photobridge.Runtime.Tables.{Tables, is_receipt}
use photobridge.Runtime.Store.{Repository}
use photobridge.Runtime.Sql.{add_event, update_attempts, update_epoch}
use photobridge.Runtime.Tasks.{update_ready}
use photobridge.Runtime.Claim.{insert_attempt, update_claim}
use photobridge.Runtime.Attempts.{update_released}
use photobridge.Runtime.Receipts.{insert_receipt}
use photobridge.Runtime.Laws.{Law}
use photobridge.Runtime.Dependencies.Acyclic.{IsAcyclic, insert_dependency-IsAcyclic}
use photobridge.Runtime.Calls.{Call, history, history-related}

StaysAcyclic : Tables → Tables → Type 0
StaysAcyclic t u = IsAcyclic t.dependencies → IsAcyclic u.dependencies

same_graph : (t u : Tables) → u.dependencies ≡ t.dependencies → StaysAcyclic t u
unfolding StaysAcyclic
same_graph t u e h = subst IsAcyclic (sym e) h

received_graph :
    (plan : Bytes) (r : VerifiedReceipt) (t u : Tables) (n : ℕ)
    → insert_receipt plan r t ≡ ok (n, u)
    → StaysAcyclic t u
unfolding insert_receipt
received_graph plan r t u n h =
    elim (Bool-cases (exists (is_receipt plan r.task_id r.attempt_id) t.receipts)) [
      | inl e ↦ same_graph t u (ground arith)
      | inr e ↦ same_graph t u (ground arith)
    ]

started_graph :
    (attempt plan task : Bytes) (epoch now : ℕ) (t u : Tables) (a : Unit {0})
    → insert_attempt attempt plan task epoch now t ≡ ok (a, u)
    → StaysAcyclic t u
unfolding insert_attempt
started_graph attempt plan task epoch now t u a h = same_graph t u (ground arith)

acyclicity : Law StaysAcyclic
unfolding StaysAcyclic update_epoch update_ready update_claim update_released update_attempts
    add_event
acyclicity = record {
  same = λ t h. h;
  chain = λ t u v h k x. k (h x);
  epoch = λ plan n t h. h;
  added = λ plan task t u a h. same_graph t u (ground arith);
  readied = λ plan task t h. h;
  claimed = λ plan task epoch attempt t h. h;
  released = λ plan task epoch attempt next error t v h. h;
  started =
      λ attempt plan task epoch now t u a h. started_graph attempt plan task epoch now t u a h;
  progressed = λ plan task attempt epoch now state outcome error finish t h. h;
  logged = λ e t u a h. same_graph t u (ground arith);
  received = λ plan r t u n h. received_graph plan r t u n h;
  depended =
      λ plan task depends_on t u n w h. insert_dependency-IsAcyclic plan task depends_on t u n w h;
}

-- If no task depends on itself, directly or through others of its plan, then so it is after any
-- calls, successful or not, from a state outside every transaction and write batch.
pub history-IsAcyclic :
    (s : Repository) (cs : List Call)
    → s.saved ≡ none
    → s.batch ≡ none
    → IsAcyclic s.tables.dependencies
    → IsAcyclic (history s cs).tables.dependencies
unfolding StaysAcyclic
history-IsAcyclic s cs v b = history-related acyclicity s cs v b
