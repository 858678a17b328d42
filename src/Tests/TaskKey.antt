-- ===== src/Tests/TaskKey.antt =====
-- Two tasks that copy one file, under a small hash function.
use photobridge.Base.{
  All, Bytes, String, [], arith, codes, length, none, refl, some, suc, zero, ℕ, ◌%◌, ◌++◌, ◌<◌, ◌↔◌,
  ◌∷◌, ◌≡◌,
}
use photobridge.Common.Status.{ok}
use photobridge.Common.Digest.{Digest, IsDigest, to_hex}
use photobridge.Model.Task.{TaskSpec, migrate_file}
use photobridge.Model.TaskKey.{task_key_for, task_key_payload}
use photobridge.Model.TaskKey.Payload.{IsSameTask, IsWideTask}
use photobridge.Model.TaskKey.Identity.{task_key_for_iff}
use photobridge.Tests.Data.{frozen_target}

abbrev zeros : ℕ → Bytes
zeros zero = []
zeros (suc n) = 0 ∷ zeros n

zeros_small : (n : ℕ) → All (λ b. b < 256) (zeros n)
zeros_small zero = tt
zeros_small (suc n) = (omega arith, zeros_small n)

-- The number of bytes, reduced to one, and zeros.
abbrev length_hash : Bytes → Digest
length_hash p = (length p % 256) ∷ zeros 31

length_hash-IsDigest : (p : Bytes) → IsDigest (length_hash p)
length_hash-IsDigest p = (refl, (omega arith, zeros_small 31))

abbrev copy_task : String → TaskSpec
copy_task task_id = record {
  id = codes task_id;
  task_key = [];
  kind = migrate_file;
  asset_id = codes "asset";
  source_asset_id = some (codes "path-61");
  target_path = frozen_target;
  estimated_bytes = 5;
  expected_digest = none;
}

copy_task-IsWideTask : (task_id : String) → IsWideTask (copy_task task_id)
copy_task-IsWideTask task_id = record {
  wide_asset = omega arith;
  wide_path = omega arith;
  wide_source = omega arith;
}

copy_key :
    (task_id : String)
    → task_key_for length_hash (copy_task task_id)
      ≡ ok (codes "task-" ++ to_hex (length_hash (task_key_payload (copy_task "first"))))
unfolding task_key_for task_key_payload
copy_key task_id = refl

task_key_for_iff_example :
    (codes "task-" ++ to_hex (length_hash (task_key_payload (copy_task "first")))
      ≡ codes "task-" ++ to_hex (length_hash (task_key_payload (copy_task "first"))))
    ↔ IsSameTask (copy_task "first") (copy_task "second")
unfolding task_key_payload
task_key_for_iff_example =
    task_key_for_iff length_hash length_hash-IsDigest (copy_task "first") (copy_task "second")
      (copy_task-IsWideTask "first") (copy_task-IsWideTask "second") (λ _. refl) (copy_key "first")
      (copy_key "second")
