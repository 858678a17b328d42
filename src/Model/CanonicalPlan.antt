-- ===== src/Model/CanonicalPlan.antt =====
-- src/model/canonical_plan.cpp and include/photobridge/model/canonical_plan.h: the plan of a
-- migration, and the bytes that its semantic digest is taken of. A plan that is built is its
-- validated input with the assets in order.
pub mod Encoding
pub mod Payload
pub mod Build
use photobridge.Base.{
  Bool, Bytes, List, Option, [], codes, false, has_nul, if◌then◌else◌, is_empty, length, list_eq,
  map, nat_eq, none, option_eq, some, string_eq, suc, text_less, true, zero, ℕ, ◌!=◌, ◌%◌, ◌++◌,
  ◌/◌, ◌==◌, ◌||◌, ◌∷◌,
}
use photobridge.Base.Order.{sort_by}
use photobridge.Common.Status.{Result, Status, invalid_argument, ok, reject_if, ◌>>◌}
use photobridge.Common.Digest.{Digest}
use photobridge.Model.RelativePath.{RelativePath}
use photobridge.Model.FileIdentity.{FileIdentity, identity_eq}
use photobridge.Model.Capability.{
  Capability, TargetCapabilities, kind_index, level_index, validate_capabilities,
}
use photobridge.Model.PathMapper.{MigrationPolicy, validate_policy}

pub record MinimalPlanAsset : Type 0 where
  pub logical_asset_id : Bytes
  pub source_asset_id : Bytes
  pub source_path : RelativePath
  pub target_path : RelativePath
  pub source_identity : FileIdentity

pub record MinimalPlanInput : Type 0 where
  pub source_manifest_id : Bytes
  pub source_manifest_digest : Digest
  pub target_root : Bytes
  pub capabilities : TargetCapabilities
  pub policy : MigrationPolicy
  pub assets : List MinimalPlanAsset

-- The `n` low bytes of a number, the lowest first.
unfoldable pub low_bytes : ℕ → ℕ → Bytes
low_bytes zero v = []
low_bytes (suc n) v = v % 256 ∷ low_bytes n (v / 256)

-- AppendUint64: what it appends
abbrev pub uint64_bytes : ℕ → Bytes
uint64_bytes v = low_bytes 8 v

-- AppendLengthPrefixed
unfoldable pub length_prefixed : Bytes → Bytes
length_prefixed s = uint64_bytes (length s) ++ s

-- AppendBool
unfoldable pub bool_bytes : Bool → Bytes
bool_bytes true = 1 ∷ []
bool_bytes false = 0 ∷ []

abbrev pub mount_bytes : Option ℕ → Bytes
mount_bytes none = bool_bytes false
mount_bytes (some m) = bool_bytes true ++ uint64_bytes m

-- AppendFileIdentity
unfoldable pub identity_bytes : FileIdentity → Bytes
identity_bytes i =
    uint64_bytes i.device
    ++ (uint64_bytes i.inode
        ++ (uint64_bytes i.size
            ++ (uint64_bytes i.mtime_ns ++ (uint64_bytes i.ctime_ns ++ mount_bytes i.mount_id))))

unfoldable pub capability_bytes : Capability → Bytes
capability_bytes c =
    uint64_bytes (kind_index c.kind)
    ++ (uint64_bytes (level_index c.level)
        ++ (length_prefixed c.representation ++ length_prefixed c.reason))

unfoldable pub asset_bytes : MinimalPlanAsset → Bytes
asset_bytes a =
    length_prefixed a.logical_asset_id
    ++ (length_prefixed a.source_asset_id
        ++ (length_prefixed a.source_path.raw_bytes
            ++ (length_prefixed a.target_path.raw_bytes ++ identity_bytes a.source_identity)))

-- What a loop appends for the elements of a vector.
unfoldable pub each_bytes {ℓ} : {A : Type ℓ} → (A → Bytes) → List A → Bytes
each_bytes f [] = []
each_bytes f (a ∷ as') = f a ++ each_bytes f as'

-- The size of a vector and then its elements.
unfoldable pub vector_bytes {ℓ} : {A : Type ℓ} → (A → Bytes) → List A → Bytes
vector_bytes f xs = uint64_bytes (length xs) ++ each_bytes f xs

unfoldable pub policy_bytes : MigrationPolicy → Bytes
policy_bytes p =
    length_prefixed p.target_prefix
    ++ (bool_bytes p.preserve_source_directories
        ++ (uint64_bytes p.max_component_bytes ++ uint64_bytes p.max_path_bytes))

abbrev pub format_version : ℕ
format_version = 1

-- CanonicalPlanPayload
unfoldable pub canonical_plan_payload : MinimalPlanInput → Bytes
canonical_plan_payload p =
    length_prefixed (codes "PB_CANONICAL_MINIMAL_PLAN_V1")
    ++ (uint64_bytes format_version
        ++ (length_prefixed p.source_manifest_id
            ++ (p.source_manifest_digest
                ++ (length_prefixed p.target_root
                    ++ (length_prefixed p.capabilities.version
                        ++ (policy_bytes p.policy
                            ++ (vector_bytes capability_bytes p.capabilities.entries
                                ++ vector_bytes asset_bytes p.assets)))))))

-- The checks on one asset in the loop of ValidatePlanInput.
unfoldable pub check_asset : MinimalPlanAsset → Status
check_asset a = do
  reject_if (is_empty a.logical_asset_id || is_empty a.source_asset_id) invalid_argument
      "minimal plan asset ids must not be empty"
  reject_if (is_empty a.source_path.raw_bytes || is_empty a.target_path.raw_bytes) invalid_argument
      "minimal plan asset paths must not be empty"

unfoldable pub check_assets : List MinimalPlanAsset → Status
check_assets [] = ok tt
check_assets (a ∷ assets) = check_asset a >> check_assets assets

-- std::adjacent_find(…) != end
unfoldable pub has_adjacent : List Bytes → Bool
has_adjacent [] = false
has_adjacent (x ∷ []) = false
has_adjacent (x ∷ y ∷ ys) = x == y || has_adjacent (y ∷ ys)

abbrev pub logical_id : MinimalPlanAsset → Bytes
logical_id a = a.logical_asset_id

abbrev pub source_id : MinimalPlanAsset → Bytes
source_id a = a.source_asset_id

-- ValidatePlanInput
unfoldable pub validate_plan_input : MinimalPlanInput → Status
validate_plan_input p = do
  reject_if (is_empty p.source_manifest_id) invalid_argument
      "minimal plan source manifest id must not be empty"
  reject_if (has_nul p.source_manifest_id) invalid_argument
      "minimal plan source manifest id must not contain NUL"
  reject_if (is_empty p.target_root) invalid_argument "minimal plan target root must not be empty"
  reject_if (has_nul p.target_root) invalid_argument "minimal plan target root must not contain NUL"
  validate_capabilities p.capabilities
  validate_policy p.policy
  check_assets p.assets
  reject_if (has_adjacent (sort_by text_less (map logical_id p.assets))) invalid_argument
      "minimal plan logical asset ids must be unique"
  reject_if (has_adjacent (sort_by text_less (map source_id p.assets))) invalid_argument
      "minimal plan source asset ids must be unique"

-- The order of the constructor's sort.
unfoldable pub asset_less : MinimalPlanAsset → MinimalPlanAsset → Bool
asset_less lhs rhs =
    if lhs.logical_asset_id != rhs.logical_asset_id
    then text_less lhs.logical_asset_id rhs.logical_asset_id
    else text_less lhs.source_asset_id rhs.source_asset_id

-- CanonicalMinimalPlan::Build
unfoldable pub build : MinimalPlanInput → Result MinimalPlanInput
build p = do validate_plan_input p; ok (record p { assets = sort_by asset_less p.assets })
