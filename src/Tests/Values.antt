-- ===== src/Tests/Values.antt =====
-- Digests, identities, paths and decisions at concrete inputs.
use photobridge.Base.{
  All, [], arith, codes, false, has_nul, list_beq, list_eq, map, nat_eq, option_eq, refl, some,
  string_eq, suc, zero, ℕ, ◌<◌, ◌∷◌, ◌≡◌,
}
use photobridge.Common.Status.{Error, err, invalid_argument, ok}
use photobridge.Common.Digest.{
  IsDigest, from_hex, from_hex-print, from_hex-to_hex, lower_hex, to_hex,
}
use photobridge.Model.FileIdentity.{identity_eq}
use photobridge.Model.RelativePath.{
  check_component, is_dot_component, parse, parse_loop, split_component,
}
use photobridge.Model.RelativePath.Components.{IsComponent, join, parse-components}
use photobridge.Model.RelativePath.Exactness.{parse-join, parse-refuses}
use photobridge.Model.Task.{
  attempt_state_eq, task_state_eq, task_type_eq, validate_task_runtime, validate_task_spec,
}
use photobridge.Runtime.Identity.{decode_identity, encode_identity}
use photobridge.Runtime.Identity.RoundTrip.{IsIdentity, decode_identity-encode_identity}
use photobridge.Filesystem.Reconciler.{
  ReconcileDecision, decide, decide_observed, decide_with_receipt, matches, resume_commit_from_temp,
  validate_intent, validate_receipt,
}
use photobridge.Filesystem.Reconciler.Safety.{IsReceiptOf, Justified, decide-Justified}
use photobridge.Tests.Data.{
  file_digest, file_identity, first_id, frozen_target, intent, observed, receipt, repeat,
  running_task, spec,
}

All-repeat : (n b : ℕ) → b < 256 → All (λ c. c < 256) (repeat n b)
All-repeat zero b h = tt
All-repeat (suc n) b h = (h, All-repeat n b h)

pub file_digest-IsDigest : IsDigest file_digest
file_digest-IsDigest = (refl, All-repeat 32 7 (omega arith))

from_hex-to_hex_example : from_hex (to_hex file_digest) ≡ ok file_digest
from_hex-to_hex_example = from_hex-to_hex file_digest file_digest-IsDigest

from_hex-print_example :
    IsDigest file_digest × (to_hex file_digest ≡ map lower_hex (to_hex file_digest))
from_hex-print_example = from_hex-print (to_hex file_digest) file_digest from_hex-to_hex_example

pub file_identity-IsIdentity : IsIdentity file_identity
file_identity-IsIdentity =
    (omega arith, omega arith, omega arith, omega arith, omega arith, omega arith)

decode_identity-encode_identity_example :
    decode_identity (encode_identity file_identity) ≡ ok file_identity
decode_identity-encode_identity_example =
    decode_identity-encode_identity file_identity file_identity-IsIdentity

parse_target : parse (codes "a/b") ≡ ok frozen_target
unfolding parse parse_loop split_component check_component is_dot_component list_beq
parse_target = refl

parse-components_example :
    (frozen_target.raw_bytes ≡ codes "a/b")
    × (has_nul (codes "a/b") ≡ false)
    × All IsComponent frozen_target.components
    × (join frozen_target.components ≡ codes "a/b")
parse-components_example = parse-components (codes "a/b") frozen_target parse_target

components_good : All IsComponent (codes "a" ∷ codes "b" ∷ [])
unfolding is_dot_component list_beq
components_good = ((refl, refl, refl), ((refl, refl, refl), tt))

parse-join_example :
    parse (join (codes "a" ∷ codes "b" ∷ []))
    ≡ ok (record {
      raw_bytes = join (codes "a" ∷ codes "b" ∷ []);
      components = codes "a" ∷ codes "b" ∷ [];
    })
parse-join_example = parse-join (codes "a") (codes "b" ∷ []) components_good refl

abbrev dot_error : Error
dot_error = record {
  code = invalid_argument;
  message = "relative path must not contain dot components";
}

parse_dots : parse (codes "a/..") ≡ err dot_error
unfolding parse parse_loop split_component check_component is_dot_component list_beq
parse_dots = refl

parse-refuses_example : dot_error.code ≡ invalid_argument
parse-refuses_example = parse-refuses (codes "a/..") dot_error parse_dots

abbrev resume : ReconcileDecision
resume = record {
  action = resume_commit_from_temp;
  reason = "matching temp can be re-synced and published under a new epoch";
}

decide-resume : decide (spec first_id) running_task intent (some receipt) observed ≡ ok resume
unfolding decide validate_intent validate_receipt decide_observed decide_with_receipt matches
    validate_task_spec validate_task_runtime list_beq
decide-resume = refl

decide-Justified_example :
    Justified resume.action running_task (some receipt) observed
    × (intent.task_id ≡ first_id)
    × (intent.final_path ≡ codes "a/b")
    × IsReceiptOf intent (some receipt)
decide-Justified_example =
    decide-Justified (spec first_id) running_task intent (some receipt) observed resume
      decide-resume
