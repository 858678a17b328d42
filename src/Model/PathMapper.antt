-- ===== src/Model/PathMapper.antt =====
-- src/model/path_mapper.cpp and include/photobridge/model/path_mapper.h: where the files of a plan
-- go. The map from a path to the asset that has it is an association list.
pub mod Target
pub mod Placement
pub mod Collisions
use photobridge.Base.{
  Bool, Bytes, List, Option, [], contains_byte, false, if◌then◌else◌, is_empty, leb, length,
  list_eq, ltb, nat_eq, none, not, option_eq, some, string_eq, text_less, true, ℕ, ◌&&◌, ◌++◌, ◌+◌,
  ◌==◌, ◌||◌, ◌∷◌,
}
use photobridge.Base.Order.{sort_by}
use photobridge.Common.Status.{
  Result, Status, already_exists, fail, invalid_argument, ok, reject_if, ◌>>=◌, ◌>>◌,
}
use photobridge.Model.RelativePath.{RelativePath, parse, slash}
use photobridge.Model.Capability.{
  TargetCapabilities, byte_exact_contents, find_capability, full, has_level, nested_directories,
  regular_files, require, unicode_normalization, validate_capabilities,
}
use photobridge.Model.LogicalAsset.{LogicalAsset}

pub record MigrationPolicy : Type 0 where
  pub target_prefix : Bytes
  pub preserve_source_directories : Bool
  pub max_component_bytes : ℕ
  pub max_path_bytes : ℕ

pub record PathMapping : Type 0 where
  pub logical_asset_id : Bytes
  pub target_path : RelativePath

unfoldable pub is_non_ascii : Bytes → Bool
is_non_ascii [] = false
is_non_ascii (b ∷ s) = leb 0x80 b || is_non_ascii s

-- std::tolower in the C locale
abbrev pub to_lower : ℕ → ℕ
to_lower b = if leb b'A' b && leb b b'Z' then b + 32 else b

-- AsciiCaseFoldKey
unfoldable pub ascii_case_fold_key : Bytes → Bytes
ascii_case_fold_key [] = []
ascii_case_fold_key (b ∷ s) = (if ltb b 0x80 then to_lower b else b) ∷ ascii_case_fold_key s

-- components().back(), which the source calls on a parsed path only
unfoldable pub last_component : List Bytes → Bytes
last_component [] = []
last_component (c ∷ []) = c
last_component (c ∷ d ∷ cs) = last_component (d ∷ cs)

abbrev pub prefix_bytes : Bytes → Bytes
prefix_bytes prefix = if is_empty prefix then [] else prefix ++ slash ∷ []

unfoldable pub build_target_path : RelativePath → MigrationPolicy → Result RelativePath
build_target_path source_path policy = parse (
    prefix_bytes policy.target_prefix
    ++ (if policy.preserve_source_directories
        then source_path.raw_bytes
        else last_component source_path.components))

unfoldable pub check_lengths : ℕ → List Bytes → Status
check_lengths limit [] = ok tt
check_lengths limit (c ∷ cs) =
    reject_if (ltb limit (length c)) invalid_argument
      "mapped target path component exceeds the configured byte limit"
    >> check_lengths limit cs

unfoldable pub validate_target_path : RelativePath → MigrationPolicy → Status
validate_target_path target_path policy = do
  reject_if (ltb policy.max_path_bytes (length target_path.raw_bytes)) invalid_argument
      "mapped target path exceeds the configured byte limit"
  check_lengths policy.max_component_bytes target_path.components

-- MigrationPolicy::Validate
unfoldable pub validate_policy : MigrationPolicy → Status
validate_policy policy = do
  reject_if (policy.max_component_bytes == 0 || policy.max_path_bytes == 0) invalid_argument
      "target path limits must be greater than zero"
  if is_empty policy.target_prefix then ok tt else (parse policy.target_prefix >>= λ _. ok tt)

abbrev pub no_members : List Bytes → Bool
no_members [] = true
no_members (m ∷ ms) = false

abbrev pub present : Option RelativePath → Result RelativePath
present none = fail invalid_argument "L0 logical asset is missing its source path"
present (some p) = ok p

abbrev pub needs_directories : MigrationPolicy → RelativePath → Bool
needs_directories policy source_path =
    policy.preserve_source_directories
    || ltb 1 (length source_path.components)
    || contains_byte slash policy.target_prefix

unfoldable pub require_directories : TargetCapabilities → MigrationPolicy → RelativePath → Status
require_directories capabilities policy source_path =
    if needs_directories policy source_path
    then require capabilities nested_directories full
    else ok tt

unfoldable pub check_normalization : TargetCapabilities → RelativePath → Status
check_normalization capabilities target_path =
    reject_if
      (is_non_ascii target_path.raw_bytes
        && not (has_level full (find_capability unicode_normalization capabilities.entries)))
      invalid_argument "Unicode normalization semantics are unverifiable for this target"

-- The part of `Map` after the asset's source path is known.
unfoldable pub map_path : RelativePath → TargetCapabilities → MigrationPolicy → Result RelativePath
map_path source_path capabilities policy = do
  require capabilities regular_files full
  require capabilities byte_exact_contents full
  require_directories capabilities policy source_path
  target_path ← build_target_path source_path policy
  validate_target_path target_path policy
  check_normalization capabilities target_path
  ok target_path

-- TargetPathMapper::Map
unfoldable pub map_asset : LogicalAsset → TargetCapabilities → MigrationPolicy → Result PathMapping
map_asset asset capabilities policy = do
  validate_policy policy
  validate_capabilities capabilities
  reject_if (is_empty asset.id || no_members asset.members) invalid_argument
      "logical asset identity and members must not be empty"
  source_path ← present asset.source_path
  target_path ← map_path source_path capabilities policy
  ok (record { logical_asset_id = asset.id; target_path = target_path })

unfoldable pub map_each :
    List LogicalAsset → TargetCapabilities → MigrationPolicy → Result (List PathMapping)
map_each [] capabilities policy = ok []
map_each (asset ∷ assets) capabilities policy = do
  mapping ← map_asset asset capabilities policy
  mappings ← map_each assets capabilities policy
  ok (mapping ∷ mappings)

abbrev pub by_id : PathMapping → PathMapping → Bool
by_id lhs rhs = text_less lhs.logical_asset_id rhs.logical_asset_id

-- The loop over neighbours in the sorted mappings.
unfoldable pub check_ids_unique : List PathMapping → Status
check_ids_unique [] = ok tt
check_ids_unique (m ∷ []) = ok tt
check_ids_unique (m ∷ n ∷ ms) =
    reject_if (m.logical_asset_id == n.logical_asset_id) invalid_argument
      "logical asset ids must be unique in a path mapping"
    >> check_ids_unique (n ∷ ms)

abbrev pub PathMap : Type 0
PathMap = List (Bytes × Bytes)

abbrev pub has_key : Bytes → PathMap → Bool
has_key key [] = false
has_key key ((k, id) ∷ paths) = k == key || has_key key paths

-- One round of the loop: `emplace` into both maps, neither of which may hold the key.
unfoldable pub check_collision : PathMap → PathMap → PathMapping → Status
check_collision exact_paths folded_paths m = do
  reject_if (has_key m.target_path.raw_bytes exact_paths) already_exists
      "multiple logical assets map to the same target path"
  reject_if (has_key (ascii_case_fold_key m.target_path.raw_bytes) folded_paths) already_exists
      "multiple logical assets collide under ASCII case folding"

unfoldable pub check_collisions : PathMap → PathMap → List PathMapping → Status
check_collisions exact_paths folded_paths [] = ok tt
check_collisions exact_paths folded_paths (m ∷ ms) =
    check_collision exact_paths folded_paths m
    >> check_collisions ((m.target_path.raw_bytes, m.logical_asset_id) ∷ exact_paths)
        ((ascii_case_fold_key m.target_path.raw_bytes, m.logical_asset_id) ∷ folded_paths) ms

-- TargetPathMapper::MapAll
unfoldable pub map_all :
    List LogicalAsset → TargetCapabilities → MigrationPolicy → Result (List PathMapping)
map_all assets capabilities policy = do
  mappings ← map_each assets capabilities policy
  let sorted = sort_by by_id mappings
  check_ids_unique sorted
  check_collisions [] [] sorted
  ok sorted
