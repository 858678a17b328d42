-- ===== src/Model/Capability.antt =====
-- src/model/capability.cpp: what a target directory promises.
pub mod Canonical
use photobridge.Base.{
  Bool, Bytes, List, Option, String, [], codes, false, if◌then◌else◌, is_empty, leb, list_eq,
  nat_eq, none, not, option_eq, some, string_eq, true, ℕ, ◌&&◌, ◌+◌, ◌==◌, ◌||◌, ◌∷◌,
}
use photobridge.Common.Status.{Status, invalid_argument, ok, reject_if, ◌>>◌}

-- The last constructor of either enum stands for a value that no enumerator has.
pub data SupportLevel : Type 0 where
  full partial transformed manifest_only unsupported unverifiable : SupportLevel
  other_level : ℕ → SupportLevel

pub data CapabilityKind : Type 0 where
  regular_files nested_directories byte_exact_contents atomic_no_replace_publish : CapabilityKind
  durable_file_and_directory_sync symlinks case_fold_semantics : CapabilityKind
  unicode_normalization : CapabilityKind
  other_kind : ℕ → CapabilityKind

pub record Capability : Type 0 where
  pub kind : CapabilityKind
  pub level : SupportLevel
  pub representation : Bytes
  pub reason : Bytes

pub record TargetCapabilities : Type 0 where
  pub version : Bytes
  pub entries : List Capability

-- static_cast<std::size_t>
abbrev pub level_index : SupportLevel → ℕ
level_index full = 0
level_index partial = 1
level_index transformed = 2
level_index manifest_only = 3
level_index unsupported = 4
level_index unverifiable = 5
level_index (other_level n) = 6 + n

abbrev pub kind_index : CapabilityKind → ℕ
kind_index regular_files = 0
kind_index nested_directories = 1
kind_index byte_exact_contents = 2
kind_index atomic_no_replace_publish = 3
kind_index durable_file_and_directory_sync = 4
kind_index symlinks = 5
kind_index case_fold_semantics = 6
kind_index unicode_normalization = 7
kind_index (other_kind n) = 8 + n

abbrev pub capability_kind_count : ℕ
capability_kind_count = 8

unfoldable pub is_known_support_level : SupportLevel → Bool
is_known_support_level level = leb (level_index level) (level_index unverifiable)

-- TargetCapabilities::Find
unfoldable pub find_capability : CapabilityKind → List Capability → Option Capability
find_capability kind [] = none
find_capability kind (entry ∷ entries) =
    let rest = find_capability kind entries in
    if kind_index entry.kind == kind_index kind then some entry else rest

abbrev pub has_level : SupportLevel → Option Capability → Bool
has_level level none = false
has_level level (some c) = level_index c.level == level_index level

-- TargetCapabilities::Require. The source's message ends with the kind and the level.
unfoldable pub require : TargetCapabilities → CapabilityKind → SupportLevel → Status
require capabilities kind level =
    reject_if (not (has_level level (find_capability kind capabilities.entries))) invalid_argument
      "target capability does not provide required"

-- The checks on one entry in the loop of `Validate`; `seen` is the vector of flags.
unfoldable pub check_entry : (ℕ → Bool) → ℕ → Bool → Capability → Status
check_entry seen previous_kind first entry = do
  reject_if (leb capability_kind_count (kind_index entry.kind)) invalid_argument
      "target capability contains an unknown kind"
  reject_if (not (is_known_support_level entry.level)) invalid_argument
      "target capability contains an unknown support level"
  reject_if (seen (kind_index entry.kind)) invalid_argument "target capability kinds must be unique"
  reject_if (not first && leb (kind_index entry.kind) previous_kind) invalid_argument
      "target capability entries must be in canonical order"
  reject_if (is_empty entry.representation || is_empty entry.reason) invalid_argument
      "target capability representation and reason must not be empty"

-- seen[kind] = true
abbrev pub mark : ℕ → (ℕ → Bool) → ℕ → Bool
mark kind seen k = k == kind || seen k

unfoldable pub check_entries : (ℕ → Bool) → ℕ → Bool → List Capability → Status
check_entries seen previous_kind first [] = ok tt
check_entries seen previous_kind first (entry ∷ entries) =
    check_entry seen previous_kind first entry
    >> check_entries (mark (kind_index entry.kind) seen) (kind_index entry.kind) false entries

abbrev pub no_entries : List Capability → Bool
no_entries [] = true
no_entries (entry ∷ entries) = false

-- TargetCapabilities::Validate
unfoldable pub validate_capabilities : TargetCapabilities → Status
validate_capabilities capabilities = do
  reject_if (is_empty capabilities.version) invalid_argument
      "target capability version must not be empty"
  reject_if (no_entries capabilities.entries) invalid_argument
      "target capabilities must contain at least one entry"
  check_entries (λ k. false) 0 true capabilities.entries

abbrev capability : CapabilityKind → SupportLevel → String → String → Capability
capability kind level representation reason = record {
  kind = kind;
  level = level;
  representation = codes representation;
  reason = codes reason;
}

-- LocalDirectoryCapabilitiesV1
unfoldable pub local_directory_capabilities_v1 : TargetCapabilities
local_directory_capabilities_v1 = record {
  version = codes "directory-v1";
  entries =
      capability regular_files full "regular-file" "L0 publishes assets as regular files"
      ∷ capability nested_directories full "hierarchical-directory"
          "relative target paths may contain nested directories"
      ∷ capability byte_exact_contents full "byte-exact"
          "the target stores copied bytes without media transformation"
      ∷ capability atomic_no_replace_publish full "same-directory-rename-no-replace"
          "publication uses a temporary file and atomic no-replace rename"
      ∷ capability durable_file_and_directory_sync full "fdatasync-and-directory-fsync"
          "the commit protocol can request file and directory durability"
      ∷ capability symlinks unsupported "regular-files-only"
          "L0 does not create or adopt symlink target semantics"
      ∷ capability case_fold_semantics unverifiable "filesystem-dependent"
          "case folding must be probed or rejected by the path planner"
      ∷ capability unicode_normalization unverifiable "filesystem-dependent"
          "Unicode normalization must not be assumed by the target contract"
      ∷ [];
}
