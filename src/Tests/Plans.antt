-- ===== src/Tests/Plans.antt =====
-- A plan, its payload, and the texts of a frozen plan.
use mathlib.Core.List.{Perm}
use photobridge.Base.{
  All, Bool, List, String, [], all, arith, codes, decimal, length, list_beq, list_eq, ltb, nat_eq,
  option_eq, refl, string_eq, true, ◌&&◌, ◌∷◌, ◌≡◌,
}
use photobridge.Base.Order.{insert_by, sort_by}
use photobridge.Base.Ascending.{Ascending}
use photobridge.Common.Status.{ok}
use photobridge.Model.RelativePath.{
  check_component, is_dot_component, parse, parse_loop, split_component,
}
use photobridge.Model.Capability.{
  Capability, check_entries, check_entry, is_known_support_level, kind_index, level_index,
  local_directory_capabilities_v1, validate_capabilities,
}
use photobridge.Model.PathMapper.{validate_policy}
use photobridge.Model.CanonicalPlan.{
  MinimalPlanAsset, MinimalPlanInput, asset_less, build, canonical_plan_payload, check_asset,
  check_assets, has_adjacent, logical_id, validate_plan_input,
}
use photobridge.Model.CanonicalPlan.Encoding.{IsText}
use photobridge.Model.CanonicalPlan.Payload.{
  IsWideAsset, IsWideCapability, IsWidePlan, canonical_plan_payload-injective,
}
use photobridge.Model.CanonicalPlan.Build.{IsInput, build-IsCanonical}
use photobridge.Model.PlanArtifact.{
  base64_decode, base64_encode, byte_at, read_digits, required_uint64,
}
use photobridge.Model.PlanArtifact.Base64.{base64_decode-base64_encode}
use photobridge.Model.PlanArtifact.Integers.{required_uint64-decimal}
use photobridge.Tests.Data.{file_digest, file_identity, frozen_target}
use photobridge.Tests.Planning.{frozen_parsed, photo_policy}

-- The digits of a number above 64 bits that the check for overflow does not find.
overflow_missed : required_uint64 (codes "30000000000000000000") ≡ ok 11553255926290448384
unfolding required_uint64 read_digits
overflow_missed = refl

required_uint64-decimal_example :
    required_uint64 (decimal 18446744073709551615) ≡ ok 18446744073709551615
required_uint64-decimal_example = required_uint64-decimal 18446744073709551615 (omega arith)

base64_printed : base64_encode (codes "photo") ≡ codes "cGhvdG8="
unfolding base64_encode byte_at
base64_printed = refl

base64_decode-base64_encode_example :
    base64_decode (base64_encode (codes "photo")) ≡ ok (codes "photo")
base64_decode-base64_encode_example =
    base64_decode-base64_encode (codes "photo")
      (omega arith, (omega arith, (omega arith, (omega arith, (omega arith, tt)))))

abbrev plan_asset : String → MinimalPlanAsset
plan_asset id = record {
  logical_asset_id = codes id;
  source_asset_id = codes id;
  source_path = frozen_target;
  target_path = frozen_target;
  source_identity = file_identity;
}

abbrev unsorted_plan : MinimalPlanInput
unsorted_plan = record {
  source_manifest_id = codes "m1";
  source_manifest_digest = file_digest;
  target_root = codes "/target";
  capabilities = local_directory_capabilities_v1;
  policy = photo_policy;
  assets = plan_asset "l2" ∷ plan_asset "l1" ∷ [];
}

abbrev sorted_plan : MinimalPlanInput
sorted_plan = record unsorted_plan { assets = plan_asset "l1" ∷ plan_asset "l2" ∷ [] }

plan_built : build unsorted_plan ≡ ok sorted_plan
unfolding build validate_plan_input validate_capabilities local_directory_capabilities_v1
    check_entries check_entry is_known_support_level validate_policy parse parse_loop
    split_component check_component is_dot_component check_assets check_asset has_adjacent sort_by
    insert_by asset_less list_beq
plan_built = refl

build-IsCanonical_example :
    IsInput unsorted_plan
    × (sorted_plan ≡ record unsorted_plan { assets = sorted_plan.assets })
    × Perm sorted_plan.assets unsorted_plan.assets
    × Ascending logical_id sorted_plan.assets
build-IsCanonical_example = build-IsCanonical unsorted_plan sorted_plan plan_built

plan_asset-IsWideAsset : (id : String) → IsText (codes id) → IsWideAsset (plan_asset id)
plan_asset-IsWideAsset id h = record {
  wide_logical = h;
  wide_source = h;
  wide_source_path = omega arith;
  wide_target_path = omega arith;
  wide_identity = record {
    wide_device = omega arith;
    wide_inode = omega arith;
    wide_size = omega arith;
    wide_mtime = omega arith;
    wide_ctime = omega arith;
    wide_mount = omega arith;
  };
  source_parsed = frozen_parsed;
  target_parsed = frozen_parsed;
}

abbrev is_wide_entry : Capability → Bool
is_wide_entry c =
    ltb (kind_index c.kind) 100
    && ltb (level_index c.level) 100
    && ltb (length c.representation) 100
    && ltb (length c.reason) 100

entries_wide : (cs : List Capability) → all is_wide_entry cs ≡ true → All IsWideCapability cs
entries_wide [] h = tt
entries_wide (c ∷ cs) h = (
  record {
    wide_kind = ground arith;
    wide_level = ground arith;
    wide_representation = ground arith;
    wide_reason = ground arith;
  },
  entries_wide cs (ground arith),
)

sorted_plan-IsWidePlan : IsWidePlan sorted_plan
unfolding local_directory_capabilities_v1
sorted_plan-IsWidePlan = record {
  wide_manifest = omega arith;
  whole_digest = refl;
  wide_root = omega arith;
  wide_version = omega arith;
  wide_policy = record {
    wide_prefix = omega arith;
    wide_components = omega arith;
    wide_path = omega arith;
  };
  wide_entries = (omega arith, entries_wide local_directory_capabilities_v1.entries refl);
  wide_assets = (
    omega arith,
    (plan_asset-IsWideAsset "l1" (omega arith), (plan_asset-IsWideAsset "l2" (omega arith), tt)),
  );
}

abbrev planned_again : MinimalPlanInput
planned_again = record unsorted_plan { assets = sort_by asset_less unsorted_plan.assets }

planned_again-IsWidePlan : IsWidePlan planned_again
unfolding asset_less sort_by insert_by list_beq
planned_again-IsWidePlan = sorted_plan-IsWidePlan

same_payload : canonical_plan_payload planned_again ≡ canonical_plan_payload sorted_plan
unfolding asset_less sort_by insert_by list_beq
same_payload = refl

canonical_plan_payload-injective_example : planned_again ≡ sorted_plan
canonical_plan_payload-injective_example =
    canonical_plan_payload-injective planned_again sorted_plan planned_again-IsWidePlan
      sorted_plan-IsWidePlan same_payload
