-- ===== src/Model/TaskKey/Identity.antt =====
-- src/model/task.cpp: tasks with the same key.
use photobridge.Base.{Bytes, ap, codes, is_empty, sym, ◌++◌, ◌||◌, ◌↔◌, ◌∙◌, ◌≡◌}
use photobridge.Common.Status.{bind_ok, ok, ok_injective, reject_if}
use photobridge.Common.Digest.{Digest, IsDigest, from_hex, from_hex-to_hex, to_hex}
use photobridge.Model.Task.{TaskSpec}
use photobridge.Model.TaskKey.{is_empty_source, task_key_for, task_key_payload}
use photobridge.Model.TaskKey.Payload.{IsSameTask, IsWideTask, task_key_payload_iff}

-- A key that is made is the prefix and the digest of the payload.
task_key_for-ok :
    (blake3 : Bytes → Digest) (t : TaskSpec) {k : Bytes}
    → task_key_for blake3 t ≡ ok k
    → codes "task-" ++ to_hex (blake3 (task_key_payload t)) ≡ k
unfolding task_key_for
task_key_for-ok blake3 t h =
    let (_, _, h1) =
      bind_ok (reject_if (is_empty t.asset_id || is_empty t.target_path.raw_bytes) _ _) _ h in
    let (_, _, h2) = bind_ok (reject_if (is_empty_source t.source_asset_id) _ _) _ h1 in
    ok_injective h2

printed_same :
    (d e : Digest)
    → IsDigest d
    → IsDigest e
    → codes "task-" ++ to_hex d ≡ codes "task-" ++ to_hex e
    → d ≡ e
printed_same d e h k q =
    let hex : to_hex d ≡ to_hex e = cc in
    ok_injective (sym (from_hex-to_hex d h) ∙ ap from_hex hex ∙ from_hex-to_hex e k)

-- Two tasks whose texts have sizes of 64 bits, and of whose payloads the hash function tells
-- different ones apart, get the same key exactly if they have the same asset, type, target path and
-- source.
pub task_key_for_iff :
    (blake3 : Bytes → Digest)
    → ((p : Bytes) → IsDigest (blake3 p))
    → (t u : TaskSpec) {k l : Bytes} → IsWideTask t
    → IsWideTask u
    → (blake3 (task_key_payload t) ≡ blake3 (task_key_payload u)
        → task_key_payload t ≡ task_key_payload u)
    → task_key_for blake3 t ≡ ok k
    → task_key_for blake3 u ≡ ok l
    → (k ≡ l) ↔ IsSameTask t u
task_key_for_iff blake3 whole t u wide_t wide_u apart made_t made_u =
    let kt = task_key_for-ok blake3 t made_t in
    let ku = task_key_for-ok blake3 u made_u in
    let payloads = task_key_payload_iff t u wide_t wide_u in
    (
      (λ e. payloads.0 (
          apart (
            printed_same (blake3 (task_key_payload t)) (blake3 (task_key_payload u)) (whole _)
              (whole _) (kt ∙ e ∙ sym ku)))),
      (λ s. sym kt ∙ ap (λ p. codes "task-" ++ to_hex (blake3 p)) (payloads.1 s) ∙ ku),
    )
