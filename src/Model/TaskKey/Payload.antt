-- ===== src/Model/TaskKey/Payload.antt =====
-- src/model/task.cpp: what the payload of a key tells of the task.
use photobridge.Base.{
  Bytes, Option, [], ap, arith, codes, if◌then◌else◌, list_beq, list_eq, nat_eq, none, option_eq,
  refl, some, string_eq, sym, ◌++◌, ◌==◌, ◌↔◌, ◌∙◌, ◌≡◌,
}
use photobridge.Model.Task.{
  TaskSpec, TaskType, attempt_state_eq, migrate_file, task_state_eq, task_type_eq, verify_asset,
  write_asset_manifest, write_relation_index, write_report,
}
use photobridge.Model.CanonicalPlan.{length_prefixed}
use photobridge.Model.CanonicalPlan.Encoding.{
  IsCode, IsText, both-IsCode, fixed-IsCode, length_prefixed-IsCode,
}
use photobridge.Model.TaskKey.{optional_bytes, task_key_payload, type_name}

abbrev type_of : Bytes → TaskType
type_of s =
    if s == codes "MIGRATE_FILE"
    then migrate_file
    else if s == codes "WRITE_ASSET_MANIFEST"
    then write_asset_manifest
    else if s == codes "WRITE_RELATION_INDEX"
    then write_relation_index
    else if s == codes "VERIFY_ASSET"
    then verify_asset
    else write_report

type_of-type_name : (k : TaskType) → type_of (type_name k) ≡ k
unfolding list_beq
type_of-type_name migrate_file = refl
type_of-type_name write_asset_manifest = refl
type_of-type_name write_relation_index = refl
type_of-type_name verify_asset = refl
type_of-type_name write_report = refl

type_name-injective : (k l : TaskType) → type_name k ≡ type_name l → k ≡ l
type_name-injective k l e = sym (type_of-type_name k) ∙ ap type_of e ∙ type_of-type_name l

type_name-IsText : (k : TaskType) → IsText (type_name k)
type_name-IsText migrate_file = omega arith
type_name-IsText write_asset_manifest = omega arith
type_name-IsText write_relation_index = omega arith
type_name-IsText verify_asset = omega arith
type_name-IsText write_report = omega arith

abbrev IsSource : Option Bytes → Type 0
IsSource none = Unit {0}
IsSource (some s) = IsText s

-- The sizes of the texts are 64-bit numbers.
pub record IsWideTask (t : TaskSpec) : Type 0 where
  pub wide_asset : IsText t.asset_id
  pub wide_path : IsText t.target_path.raw_bytes
  pub wide_source : IsSource t.source_asset_id

-- The tasks are the same to the planner.
pub record IsSameTask (t u : TaskSpec) : Type 0 where
  pub same_asset : t.asset_id ≡ u.asset_id
  pub same_kind : t.kind ≡ u.kind
  pub same_target : t.target_path.raw_bytes ≡ u.target_path.raw_bytes
  pub same_source : t.source_asset_id ≡ u.source_asset_id

optional_bytes-IsCode : IsCode IsSource optional_bytes
unfolding optional_bytes
optional_bytes-IsCode = record { read = read_optional }
  where
    read_optional :
        (a b : Option Bytes) (r s : Bytes)
        → IsSource a
        → IsSource b
        → optional_bytes a ++ r ≡ optional_bytes b ++ s
        → (a ≡ b) × (r ≡ s)
    read_optional none none r s h k e = (refl, cc)
    read_optional none (some m) r s h k e = cc
    read_optional (some m) none r s h k e = cc
    read_optional (some m) (some n) r s h k e =
        let tails : length_prefixed m ++ r ≡ length_prefixed n ++ s = cc in
        let (p, q) = length_prefixed-IsCode.read m n r s h k tails in (ap some p, q)

abbrev key_parts : TaskSpec → Bytes × (Bytes × (Bytes × (Bytes × Option Bytes)))
key_parts t = (
  codes "PB_TASK_V1",
  (t.asset_id, (type_name t.kind, (t.target_path.raw_bytes, t.source_asset_id))),
)

parts-same :
    (t u : TaskSpec)
    → IsWideTask t
    → IsWideTask u
    → task_key_payload t ≡ task_key_payload u
    → key_parts t ≡ key_parts u
unfolding task_key_payload
parts-same t u h k e =
    let text = length_prefixed-IsCode in
    let code =
      both-IsCode (fixed-IsCode 10)
        (both-IsCode text (both-IsCode text (both-IsCode text optional_bytes-IsCode))) in
    (code.read (key_parts t) (key_parts u) [] []
      (refl, (h.wide_asset, (type_name-IsText t.kind, (h.wide_path, h.wide_source))))
      (refl, (k.wide_asset, (type_name-IsText u.kind, (k.wide_path, k.wide_source))))
      (ap (λ s. s ++ []) e)).0

-- The payload tells every part of the task that it is made of, and depends on nothing else.
pub task_key_payload_iff :
    (t u : TaskSpec)
    → IsWideTask t
    → IsWideTask u
    → (task_key_payload t ≡ task_key_payload u) ↔ IsSameTask t u
unfolding task_key_payload
task_key_payload_iff t u h k = (
  (λ e.
      let same = parts-same t u h k e in
      record {
        same_asset = ap (λ p. p.1.0) same;
        same_kind = type_name-injective t.kind u.kind (ap (λ p. p.1.1.0) same);
        same_target = ap (λ p. p.1.1.1.0) same;
        same_source = ap (λ p. p.1.1.1.1) same;
      }),
  (λ s. rw (s.same_asset, s.same_kind, s.same_target, s.same_source) refl),
)
