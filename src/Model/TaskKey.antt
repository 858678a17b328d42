-- ===== src/Model/TaskKey.antt =====
-- src/model/task.cpp: the key of a task, by which a plan has a task once. The hash function is a
-- parameter: BLAKE3 of a text, as its 32 bytes. `AppendUint64` and `AppendLengthPrefixed` of the
-- file are the same as those of src/model/canonical_plan.cpp.
pub mod Payload
pub mod Identity
use photobridge.Base.{Bool, Bytes, Option, [], codes, false, is_empty, none, some, ◌++◌, ◌||◌, ◌∷◌}
use photobridge.Common.Status.{Result, invalid_argument, ok, reject_if, ◌>>◌}
use photobridge.Common.Digest.{Digest, to_hex}
use photobridge.Model.Task.{
  TaskSpec, TaskType, migrate_file, verify_asset, write_asset_manifest, write_relation_index,
  write_report,
}
use photobridge.Model.CanonicalPlan.{length_prefixed}

-- TaskTypeName
abbrev pub type_name : TaskType → Bytes
type_name migrate_file = codes "MIGRATE_FILE"
type_name write_asset_manifest = codes "WRITE_ASSET_MANIFEST"
type_name write_relation_index = codes "WRITE_RELATION_INDEX"
type_name verify_asset = codes "VERIFY_ASSET"
type_name write_report = codes "WRITE_REPORT"

-- AppendOptionalString
unfoldable pub optional_bytes : Option Bytes → Bytes
optional_bytes none = 0 ∷ []
optional_bytes (some s) = 1 ∷ length_prefixed s

-- The payload that `TaskKeyFor` hashes.
unfoldable pub task_key_payload : TaskSpec → Bytes
task_key_payload t =
    codes "PB_TASK_V1"
    ++ (length_prefixed t.asset_id
        ++ (length_prefixed (type_name t.kind)
            ++ (length_prefixed t.target_path.raw_bytes ++ optional_bytes t.source_asset_id)))

abbrev pub is_empty_source : Option Bytes → Bool
is_empty_source none = false
is_empty_source (some s) = is_empty s

-- TaskKeyFor; every `TaskType` is known, so that check of the source never fails here.
unfoldable pub task_key_for : (Bytes → Digest) → TaskSpec → Result Bytes
task_key_for blake3 t = do
  reject_if (is_empty t.asset_id || is_empty t.target_path.raw_bytes) invalid_argument
      "task key requires an asset id and target path"
  reject_if (is_empty_source t.source_asset_id) invalid_argument
      "task key source asset id must not be empty"
  ok (codes "task-" ++ to_hex (blake3 (task_key_payload t)))
