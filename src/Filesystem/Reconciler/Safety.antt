-- ===== src/Filesystem/Reconciler/Safety.antt =====
-- src/filesystem/reconciler.cpp: what must have been observed for each action to be decided.
use photobridge.Base.{
  Bool, Option, String, ap, arith, exists, false, if◌then◌else◌, inl, inr, list_beq_iff, list_eq,
  nat_eq, none, option_eq, refl, some, string_eq, true, ℕ, ◌↔◌, ◌≡◌, ◌≢◌, ◌⊎◌,
}
use photobridge.Common.Status.{bind_ok, ok}
use photobridge.Common.Digest.{Digest}
use photobridge.Model.Task.{
  TaskRuntime, TaskSpec, TaskState, attempt_state_eq, task_index_iff, task_state_eq, task_type_eq,
}
use photobridge.Filesystem.Reconciler.{
  CommitIntent, ObservedFileState, ReconcileAction, ReconcileDecision, VerifiedReceipt, adopt_final,
  adopt_final_and_cleanup_temp, decide, decide_observed, decide_on_receipt, decide_with_receipt,
  decide_without_receipt, decision, inconsistent_action, matches, resume_commit_from_temp,
  retry_task, reverify_committed, target_conflict, validate_intent, validate_receipt,
}

-- A file that is there, with the size and the digest that the receipt vouches for.
abbrev pub Proven : Bool → ℕ → Option Digest → VerifiedReceipt → Type 0
Proven exists size digest r =
    (exists ≡ true) × (size ≡ r.content_size) × (digest ≡ some r.target_digest)

pub matches_iff :
    (exists : Bool) (size : ℕ) (digest : Option Digest) (r : VerifiedReceipt)
    → (matches exists size digest r ≡ true) ↔ Proven exists size digest r
unfolding matches
matches_iff exists size none r = ((λ h. cc), (λ h. cc))
matches_iff exists size (some d) r = (
  (λ h. (ground arith, ground arith, ap some ((list_beq_iff d r.target_digest).0 (ground arith)))),
  (λ h. ground (arith, list_beq_iff d r.target_digest)),
)

-- What each action rests on.
abbrev pub Justified :
    ReconcileAction → TaskRuntime → Option VerifiedReceipt → ObservedFileState → Type 0
Justified retry_task runtime receipt o = (o.source_changed ≡ false) × (o.final_exists ≡ false)
Justified resume_commit_from_temp runtime none o = ⊥
Justified resume_commit_from_temp runtime (some r) o =
    (o.source_changed ≡ false)
    × (o.final_exists ≡ false)
    × Proven o.temp_exists o.temp_size o.temp_digest r
Justified adopt_final runtime none o = ⊥
Justified adopt_final runtime (some r) o =
    (o.source_changed ≡ false)
    × (runtime.state ≢ TaskState.succeeded)
    × Proven o.final_exists o.final_size o.final_digest r
Justified adopt_final_and_cleanup_temp runtime none o = ⊥
Justified adopt_final_and_cleanup_temp runtime (some r) o =
    (o.source_changed ≡ false)
    × (runtime.state ≢ TaskState.succeeded)
    × Proven o.final_exists o.final_size o.final_digest r
    × Proven o.temp_exists o.temp_size o.temp_digest r
Justified reverify_committed runtime none o = ⊥
Justified reverify_committed runtime (some r) o =
    (o.source_changed ≡ false)
    × (runtime.state ≡ TaskState.succeeded)
    × Proven o.final_exists o.final_size o.final_digest r
Justified target_conflict runtime none o = (o.source_changed ≡ false) × (o.final_exists ≡ true)
Justified target_conflict runtime (some r) o =
    (o.source_changed ≡ false)
    × (o.final_exists ≡ true)
    × (¬ Proven o.final_exists o.final_size o.final_digest r)
Justified inconsistent_action runtime none o = o.source_changed ≡ true
Justified inconsistent_action runtime (some r) o =
    (o.source_changed ≡ true) ⊎ (o.final_exists ≡ false)

module _ (runtime : TaskRuntime) (r : VerifiedReceipt) (o : ObservedFileState) where
  abbrev final_law :
      (matches o.final_exists o.final_size o.final_digest r ≡ true)
      ↔ Proven o.final_exists o.final_size o.final_digest r
  final_law = matches_iff o.final_exists o.final_size o.final_digest r

  abbrev temp_law :
      (matches o.temp_exists o.temp_size o.temp_digest r ≡ true)
      ↔ Proven o.temp_exists o.temp_size o.temp_digest r
  temp_law = matches_iff o.temp_exists o.temp_size o.temp_digest r

  receipt-Justified :
      (a : ReconcileAction) (reason : String)
      → o.source_changed ≡ false
      → decide_with_receipt runtime r o ≡ ok (record { action = a; reason = reason })
      → Justified a runtime (some r) o
  unfolding decide_with_receipt
  receipt-Justified retry_task reason c h = (c, ground arith)
  receipt-Justified resume_commit_from_temp reason c h =
      (c, ground arith, temp_law.0 (ground arith))
  receipt-Justified adopt_final reason c h = (
    c,
    (λ e. ground (arith, (task_index_iff runtime.state TaskState.succeeded).1 e)),
    final_law.0 (ground arith),
  )
  receipt-Justified adopt_final_and_cleanup_temp reason c h = (
    c,
    (λ e. ground (arith, (task_index_iff runtime.state TaskState.succeeded).1 e)),
    final_law.0 (ground arith),
    temp_law.0 (ground arith),
  )
  receipt-Justified reverify_committed reason c h = (
    c,
    (task_index_iff runtime.state TaskState.succeeded).0 (ground arith),
    final_law.0 (ground arith),
  )
  receipt-Justified target_conflict reason c h =
      (c, ground arith, λ p. ground (arith, final_law.1 p))
  receipt-Justified inconsistent_action reason c h = inr (ground arith)

no_receipt-Justified :
    (runtime : TaskRuntime) (o : ObservedFileState) (a : ReconcileAction) (reason : String)
    → o.source_changed ≡ false
    → decide_without_receipt o ≡ ok (record { action = a; reason = reason })
    → Justified a runtime none o
unfolding decide_without_receipt
no_receipt-Justified runtime o retry_task reason c h = (c, ground arith)
no_receipt-Justified runtime o target_conflict reason c h = (c, ground arith)
no_receipt-Justified runtime o _ reason c h = ground arith

changed-Justified :
    (runtime : TaskRuntime) (receipt : Option VerifiedReceipt) (o : ObservedFileState)
    (a : ReconcileAction) (reason text : String)
    → o.source_changed ≡ true
    → decision inconsistent_action text ≡ ok (record { action = a; reason = reason })
    → Justified a runtime receipt o
changed-Justified runtime none o inconsistent_action reason text c h = c
changed-Justified runtime (some r) o inconsistent_action reason text c h = inl c
changed-Justified runtime receipt o _ reason text c h = cc

on_receipt-Justified :
    (runtime : TaskRuntime) (receipt : Option VerifiedReceipt) (o : ObservedFileState)
    (a : ReconcileAction) (reason : String)
    → o.source_changed ≡ false
    → decide_on_receipt runtime receipt o ≡ ok (record { action = a; reason = reason })
    → Justified a runtime receipt o
on_receipt-Justified runtime none o a reason c h = no_receipt-Justified runtime o a reason c h
on_receipt-Justified runtime (some r) o a reason c h = receipt-Justified runtime r o a reason c h

-- The decision, with the value of `source_changed` named.
split-Justified :
    (changed : Bool) (runtime : TaskRuntime) (receipt : Option VerifiedReceipt)
    (o : ObservedFileState) (a : ReconcileAction) (reason text : String)
    → o.source_changed ≡ changed
    → (if changed then decision inconsistent_action text else decide_on_receipt runtime receipt o)
      ≡ ok (record { action = a; reason = reason })
    → Justified a runtime receipt o
split-Justified true runtime receipt o a reason text c h =
    changed-Justified runtime receipt o a reason text c h
split-Justified false runtime receipt o a reason text c h =
    on_receipt-Justified runtime receipt o a reason c h

observed-Justified :
    (runtime : TaskRuntime) (receipt : Option VerifiedReceipt) (o : ObservedFileState)
    (a : ReconcileAction) (reason : String)
    → decide_observed runtime receipt o ≡ ok (record { action = a; reason = reason })
    → Justified a runtime receipt o
unfolding decide_observed
observed-Justified runtime receipt o a reason h =
    split-Justified o.source_changed runtime receipt o a reason _ refl h

-- The receipt names the task, attempt, epoch and paths of the intent.
abbrev pub IsReceiptOf : CommitIntent → Option VerifiedReceipt → Type 0
IsReceiptOf intent none = Unit {0}
IsReceiptOf intent (some r) =
    (r.task_id ≡ intent.task_id)
    × (r.attempt_id ≡ intent.attempt_id)
    × (r.owner_epoch ≡ intent.owner_epoch)
    × (r.temp_path ≡ intent.temp_path)
    × (r.final_path ≡ intent.final_path)

intent_fields :
    (spec : TaskSpec) (runtime : TaskRuntime) (intent : CommitIntent) {u : Unit {0}}
    → validate_intent spec runtime intent ≡ ok u
    → (intent.task_id ≡ spec.id) × (intent.final_path ≡ spec.target_path.raw_bytes)
unfolding validate_intent
intent_fields spec runtime intent h = (
  (list_beq_iff intent.task_id spec.id).0 (ground arith),
  (list_beq_iff intent.final_path spec.target_path.raw_bytes).0 (ground arith),
)

pub receipt_fields :
    (intent : CommitIntent) (receipt : Option VerifiedReceipt) {u : Unit {0}}
    → validate_receipt intent receipt ≡ ok u
    → IsReceiptOf intent receipt
unfolding validate_receipt
receipt_fields intent none h = tt
receipt_fields intent (some r) h = (
  (list_beq_iff r.task_id intent.task_id).0 (ground arith),
  (list_beq_iff r.attempt_id intent.attempt_id).0 (ground arith),
  ground arith,
  (list_beq_iff r.temp_path intent.temp_path).0 (ground arith),
  (list_beq_iff r.final_path intent.final_path).0 (ground arith),
)

-- Every decision is justified by what was observed: a file is adopted, published or verified again
-- only where its size and digest are those of the receipt, nothing is retried or published where
-- the final path is taken, and no decision but `inconsistent_action` is made on a changed source.
-- Moreover the intent is that of the task and its frozen target path, and the receipt, if there is
-- one, is that of the intent.
pub decide-Justified :
    (spec : TaskSpec) (runtime : TaskRuntime) (intent : CommitIntent)
    (receipt : Option VerifiedReceipt) (o : ObservedFileState) (d : ReconcileDecision)
    → decide spec runtime intent receipt o ≡ ok d
    → Justified d.action runtime receipt o
      × (intent.task_id ≡ spec.id)
      × (intent.final_path ≡ spec.target_path.raw_bytes)
      × IsReceiptOf intent receipt
unfolding decide
decide-Justified spec runtime intent receipt o d h =
    let (_, vi, h1) = bind_ok (validate_intent spec runtime intent) _ h in
    let (_, vr, h2) = bind_ok (validate_receipt intent receipt) _ h1 in
    (
      observed-Justified runtime receipt o d.action d.reason h2,
      (intent_fields spec runtime intent vi).0,
      (intent_fields spec runtime intent vi).1,
      receipt_fields intent receipt vr,
    )
