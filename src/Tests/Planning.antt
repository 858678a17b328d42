-- ===== src/Tests/Planning.antt =====
-- The planning of paths and the comparison of file states, on a few files.
use mathlib.Core.List.{Perm}
use photobridge.Base.{
  All, List, String, [], codes, exists, false, is_empty, list_beq, list_eq, nat_eq, none,
  option_beq, option_eq, refl, some, string_eq, true, ℕ, ◌↔◌, ◌∷◌, ◌≡◌,
}
use photobridge.Base.Order.{insert_by, sort_by}
use photobridge.Base.OrderedMap.{map_emplace, map_find}
use photobridge.Common.Status.{already_exists, fail, ok}
use photobridge.Model.RelativePath.{
  check_component, is_dot_component, parse, parse_loop, split_component,
}
use photobridge.Model.Capability.{
  check_entries, check_entry, find_capability, is_known_support_level,
  local_directory_capabilities_v1, no_entries, require, validate_capabilities,
}
use photobridge.Model.Capability.Canonical.{Ascends, IsEntry, validate_capabilities_iff}
use photobridge.Model.LogicalAsset.{LogicalAsset}
use photobridge.Model.PathMapper.{
  MigrationPolicy, PathMapping, ascii_case_fold_key, build_target_path, by_id, check_collision,
  check_collisions, check_ids_unique, check_lengths, check_normalization, is_non_ascii, map_all,
  map_asset, map_each, map_path, require_directories, validate_policy, validate_target_path,
}
use photobridge.Model.PathMapper.Target.{IsWithin, map_asset-IsWithin}
use photobridge.Model.PathMapper.Placement.{IsPlaced, map_asset-IsPlaced}
use photobridge.Model.PathMapper.Collisions.{IsPlan, map_all_iff}
use photobridge.Model.DiffEngine.{
  DiffFileState, added, added_entries, changed, compare_state, diff_file_states, emplace_states,
  entry, entry_less, expected_entries, removed,
}
use photobridge.Model.DiffEngine.Lookup.{diff_file_states_iff, first_state, is_entry, kind_between}
use photobridge.Model.DiffEngine.Report.{IsAscending, diff_file_states-IsAscending}
use photobridge.Tests.Data.{frozen_target}

local_v1_valid : validate_capabilities local_directory_capabilities_v1 ≡ ok tt
unfolding validate_capabilities local_directory_capabilities_v1 check_entries check_entry
    is_known_support_level
local_v1_valid = refl

validate_capabilities_iff_example :
    (validate_capabilities local_directory_capabilities_v1 ≡ ok tt) ↔ (
      (is_empty local_directory_capabilities_v1.version ≡ false)
      × (no_entries local_directory_capabilities_v1.entries ≡ false)
      × All IsEntry local_directory_capabilities_v1.entries
      × Ascends local_directory_capabilities_v1.entries)
validate_capabilities_iff_example = validate_capabilities_iff local_directory_capabilities_v1

abbrev pub photo_policy : MigrationPolicy
photo_policy = record {
  target_prefix = codes "x";
  preserve_source_directories = true;
  max_component_bytes = 255;
  max_path_bytes = 4096;
}

abbrev album_asset : LogicalAsset
album_asset = record {
  id = codes "l1";
  members = codes "path-1" ∷ [];
  source_path = some frozen_target;
}

abbrev upper_asset : LogicalAsset
upper_asset = record {
  id = codes "l2";
  members = codes "path-2" ∷ [];
  source_path = some (record { raw_bytes = codes "A/b"; components = codes "A" ∷ codes "b" ∷ [] });
}

abbrev album_mapping : PathMapping
album_mapping = record {
  logical_asset_id = codes "l1";
  target_path = record {
    raw_bytes = codes "x/a/b";
    components = codes "x" ∷ codes "a" ∷ codes "b" ∷ [];
  };
}

album_mapped : map_asset album_asset local_directory_capabilities_v1 photo_policy ≡ ok album_mapping
unfolding map_asset validate_policy validate_capabilities local_directory_capabilities_v1
    check_entries check_entry is_known_support_level map_path require find_capability
    require_directories build_target_path parse parse_loop split_component check_component
    is_dot_component validate_target_path check_lengths check_normalization is_non_ascii list_beq
album_mapped = refl

map_asset-IsWithin_example :
    (album_mapping.logical_asset_id ≡ codes "l1")
    × IsWithin photo_policy local_directory_capabilities_v1 album_mapping.target_path
map_asset-IsWithin_example =
    map_asset-IsWithin album_asset local_directory_capabilities_v1 photo_policy album_mapping
      album_mapped

pub frozen_parsed : parse (codes "a/b") ≡ ok frozen_target
unfolding parse parse_loop split_component check_component is_dot_component list_beq
frozen_parsed = refl

map_asset-IsPlaced_example :
    IsPlaced photo_policy (codes "a" ∷ codes "b" ∷ []) album_mapping.target_path.components
map_asset-IsPlaced_example =
    map_asset-IsPlaced album_asset local_directory_capabilities_v1 photo_policy frozen_target
      (codes "a/b") album_mapping refl frozen_parsed album_mapped

-- Two assets that differ in the case of a letter.
case_collision :
    map_all (upper_asset ∷ album_asset ∷ []) local_directory_capabilities_v1 photo_policy
    ≡ fail already_exists "multiple logical assets collide under ASCII case folding"
unfolding map_all map_each map_asset validate_policy validate_capabilities
    local_directory_capabilities_v1 check_entries check_entry is_known_support_level map_path
    require find_capability require_directories build_target_path parse parse_loop split_component
    check_component is_dot_component validate_target_path check_lengths check_normalization
    is_non_ascii sort_by insert_by check_ids_unique check_collisions check_collision
    ascii_case_fold_key list_beq
case_collision = refl

map_all_iff_example :
    (map_all (album_asset ∷ []) local_directory_capabilities_v1 photo_policy
      ≡ ok (album_mapping ∷ []))
    ↔ ((mapped : List PathMapping) × (map_each
            (album_asset ∷ [])
            local_directory_capabilities_v1
            photo_policy
          ≡ ok mapped)
        × (album_mapping ∷ [] ≡ sort_by by_id mapped)
        × Perm (album_mapping ∷ []) mapped
        × IsPlan (album_mapping ∷ []))
map_all_iff_example =
    map_all_iff (album_asset ∷ []) local_directory_capabilities_v1 photo_policy (album_mapping ∷ [])

abbrev file : String → ℕ → DiffFileState
file path size = record { path = codes path; size = size; digest = none }

-- b is gone, c has grown, d is new.
abbrev wanted : List DiffFileState
wanted = file "c" 1 ∷ file "b" 2 ∷ file "a" 3 ∷ []

abbrev present_files : List DiffFileState
present_files = file "d" 4 ∷ file "c" 5 ∷ file "a" 3 ∷ []

three_differences :
    diff_file_states wanted present_files
    ≡ entry (codes "b") removed ∷ entry (codes "c") changed ∷ entry (codes "d") added ∷ []
unfolding diff_file_states emplace_states map_emplace expected_entries compare_state map_find
    added_entries entry_less sort_by insert_by list_beq option_beq
three_differences = refl

diff_file_states_iff_example :
    (exists (is_entry (codes "c") changed) (diff_file_states wanted present_files) ≡ true) ↔ (
      kind_between (first_state (codes "c") wanted) (first_state (codes "c") present_files)
      ≡ some changed)
diff_file_states_iff_example = diff_file_states_iff wanted present_files (codes "c") changed

diff_file_states-IsAscending_example : IsAscending (diff_file_states wanted present_files)
diff_file_states-IsAscending_example = diff_file_states-IsAscending wanted present_files
