-- ===== src/Filesystem/Reconciler/Validity.antt =====
-- src/filesystem/reconciler.cpp: which intents and receipts Decide accepts.
use photobridge.Base.{
  Bool-cases, Bytes, Option, ap, arith, false, inl, inr, is_empty, list_beq_iff, list_eq,
  nat_beq_iff, nat_eq, none, option_eq, refl, some, string_eq, ℕ, ◌!=◌, ◌&&◌, ◌==◌, ◌↔◌, ◌≡◌, ◌⊎◌,
}
use photobridge.Common.Status.{bind_ok, ok, reject_if}
use photobridge.Model.Task.{
  TaskRuntime, TaskSpec, attempt_state_eq, migrate_file, task_state_eq, task_type_eq,
  type_index_iff, validate_task_runtime, validate_task_spec,
}
use photobridge.Filesystem.Reconciler.{
  CommitIntent, VerifiedReceipt, differs, validate_intent, validate_receipt,
}
use photobridge.Filesystem.Reconciler.Safety.{IsReceiptOf, receipt_fields}

-- The intent is one of a file migration, of the task, its attempt, its epoch and its target path.
pub record IsIntentOf (spec : TaskSpec) (runtime : TaskRuntime) (intent : CommitIntent)
    : Type 0 where
  pub migrates : spec.kind ≡ migrate_file
  pub spec_valid : validate_task_spec spec ≡ ok tt
  pub runtime_valid : validate_task_runtime runtime ≡ ok tt
  pub task_named : is_empty intent.task_id ≡ false
  pub attempt_named : is_empty intent.attempt_id ≡ false
  pub temp_named : is_empty intent.temp_path ≡ false
  pub final_named : is_empty intent.final_path ≡ false
  pub of_spec : intent.task_id ≡ spec.id
  pub of_runtime : intent.task_id ≡ runtime.id
  pub of_attempt : (runtime.attempt_id ≡ none) ⊎ (runtime.attempt_id ≡ some intent.attempt_id)
  pub of_epoch : (runtime.owner_epoch ≡ 0) ⊎ (runtime.owner_epoch ≡ intent.owner_epoch)
  pub frozen : intent.final_path ≡ spec.target_path.raw_bytes

same_bytes : (a b : Bytes) → a ≡ b → (a != b) ≡ false
same_bytes a b e = rw ((list_beq_iff a b).1 e) refl

attempt_sound : (o : Option Bytes) (b : Bytes) → differs o b ≡ false → (o ≡ none) ⊎ (o ≡ some b)
attempt_sound none b h = inl refl
attempt_sound (some a) b h = inr (ap some ((list_beq_iff a b).0 (ground arith)))

attempt_complete : (o : Option Bytes) (b : Bytes) → (o ≡ none) ⊎ (o ≡ some b) → differs o b ≡ false
attempt_complete none b h = refl
attempt_complete (some a) b (inl e) = cc
attempt_complete (some a) b (inr e) = same_bytes a b (let same : a ≡ b = cc in same)

epoch_sound : (m n : ℕ) → (m != 0 && m != n) ≡ false → (m ≡ 0) ⊎ (m ≡ n)
epoch_sound m n h = elim (Bool-cases (m == 0)) [
  | inl e ↦ inl ((nat_beq_iff m 0).0 e)
  | inr e ↦ inr ((nat_beq_iff m n).0 (ground arith))
]

epoch_complete : (m n : ℕ) → (m ≡ 0) ⊎ (m ≡ n) → (m != 0 && m != n) ≡ false
epoch_complete m n (inl e) = rw ((nat_beq_iff m 0).1 e) refl
epoch_complete m n (inr e) = elim (Bool-cases (m == 0)) [
  | inl z ↦ rw z refl
  | inr z ↦ rw (z, (nat_beq_iff m n).1 e) refl
]

module _ (spec : TaskSpec) (runtime : TaskRuntime) (intent : CommitIntent) where
  intent_sound : validate_intent spec runtime intent ≡ ok tt → IsIntentOf spec runtime intent
  unfolding validate_intent
  intent_sound h =
      let (_, v1, h1) = bind_ok (reject_if (spec.kind != migrate_file) _ _) _ h in
      let (_, v2, h2) = bind_ok (validate_task_spec spec) _ h1 in
      let (_, v3, h3) = bind_ok (validate_task_runtime runtime) _ h2 in
      record {
        migrates = (type_index_iff spec.kind migrate_file).0 (ground arith);
        spec_valid = v2;
        runtime_valid = v3;
        task_named = ground arith;
        attempt_named = ground arith;
        temp_named = ground arith;
        final_named = ground arith;
        of_spec = (list_beq_iff intent.task_id spec.id).0 (ground arith);
        of_runtime = (list_beq_iff intent.task_id runtime.id).0 (ground arith);
        of_attempt = attempt_sound runtime.attempt_id intent.attempt_id (ground arith);
        of_epoch = epoch_sound runtime.owner_epoch intent.owner_epoch (ground arith);
        frozen = (list_beq_iff intent.final_path spec.target_path.raw_bytes).0 (ground arith);
      }

  intent_complete : IsIntentOf spec runtime intent → validate_intent spec runtime intent ≡ ok tt
  unfolding validate_intent
  intent_complete i =
      rw
        (
          (type_index_iff spec.kind migrate_file).1 i.migrates,
          i.spec_valid,
          i.runtime_valid,
          i.task_named,
          i.attempt_named,
          i.temp_named,
          i.final_named,
          (list_beq_iff intent.task_id spec.id).1 i.of_spec,
          (list_beq_iff intent.task_id runtime.id).1 i.of_runtime,
          attempt_complete runtime.attempt_id intent.attempt_id i.of_attempt,
          epoch_complete runtime.owner_epoch intent.owner_epoch i.of_epoch,
          (list_beq_iff intent.final_path spec.target_path.raw_bytes).1 i.frozen,
        )
        refl

  pub validate_intent_iff :
      (validate_intent spec runtime intent ≡ ok tt) ↔ IsIntentOf spec runtime intent
  validate_intent_iff = (intent_sound, intent_complete)

receipt_complete :
    (intent : CommitIntent) (receipt : Option VerifiedReceipt)
    → IsReceiptOf intent receipt
    → validate_receipt intent receipt ≡ ok tt
unfolding validate_receipt
receipt_complete intent none h = refl
receipt_complete intent (some r) (t, a, e, p, q) =
    rw
      (
        (list_beq_iff r.task_id intent.task_id).1 t,
        (list_beq_iff r.attempt_id intent.attempt_id).1 a,
        (nat_beq_iff r.owner_epoch intent.owner_epoch).1 e,
        (list_beq_iff r.temp_path intent.temp_path).1 p,
        (list_beq_iff r.final_path intent.final_path).1 q,
      )
      refl

pub validate_receipt_iff :
    (intent : CommitIntent) (receipt : Option VerifiedReceipt)
    → (validate_receipt intent receipt ≡ ok tt) ↔ IsReceiptOf intent receipt
validate_receipt_iff intent receipt =
    (receipt_fields intent receipt, receipt_complete intent receipt)
