-- ===== src/Model/Metadata/Resolver.antt =====
-- src/model/metadata_resolver.cpp and src/model/resolution_record.cpp: the choice among candidates.
use photobridge.Base.{
  Bool, Bytes, List, Option, String, [], codes, exists, false, has_value, if◌then◌else◌, is_empty,
  list_eq, ltb, nat_eq, none, not, option_eq, some, string_eq, suc, text_less, true, ℕ, ◌!=◌, ◌&&◌,
  ◌==◌, ◌||◌, ◌∷◌,
}
use photobridge.Base.Order.{sort_by}
use photobridge.Base.Lexicographic.{then_by}
use photobridge.Common.Status.{Result, Status, invalid_argument, ok, reject_if, ◌>>◌}
use photobridge.Model.Metadata.{
  MetadataCandidate, MetadataField, MetadataRule, MetadataRuleset, MetadataSource, MetadataValue,
  bools_equal, field_index, is_rule_compatible, is_value_compatible, validate_metadata_ruleset,
  values_equal,
}

-- RuleRank
unfoldable pub rule_rank : List MetadataRule → Bytes → ℕ
rule_rank [] rule_id = 0
rule_rank (r ∷ rules) rule_id =
    let later = rule_rank rules rule_id in if r.id == rule_id then 0 else suc later

pub record ResolutionRecord (D : Type 0) : Type 0 where
  pub field : MetadataField
  pub selected_value : Option (MetadataValue D)
  pub selected_source : Option MetadataSource
  pub rule_id : Bytes
  pub rule_version : Bytes
  pub candidates : List (MetadataCandidate D)
  pub conflict : Bool
  pub reason : String

abbrev pub conflict_reason : Bool → String
conflict_reason true = "multiple distinct values; canonical tie-break selected the first candidate"
conflict_reason false = "single canonical value"

abbrev pub is_empty_text : String → Bool
is_empty_text s = is_empty (codes s)

module _ {D : Type 0} where
  abbrev pub rank_of : MetadataRuleset → MetadataCandidate D → ℕ
  rank_of rule_set c = rule_rank rule_set.chain c.extraction_rule

  -- CandidateLess
  unfoldable pub candidate_less : MetadataRuleset → MetadataCandidate D → MetadataCandidate D → Bool
  candidate_less rule_set = then_by (rank_of rule_set) ltb (
      then_by (λ c. c.asset_id) text_less
        (then_by (λ c. c.extraction_rule) text_less λ a b. text_less a.evidence b.evidence))

  -- The check of one candidate in `Resolve`.
  unfoldable pub is_candidate_valid : MetadataField → MetadataRuleset → MetadataCandidate D → Bool
  is_candidate_valid field rule_set c = not (
      field_index c.field != field_index field
      || is_empty c.asset_id
      || not (is_rule_compatible rule_set c.field c.source c.extraction_rule)
      || not (is_value_compatible c.field c.value))

  unfoldable pub check_candidates :
      MetadataField → MetadataRuleset → List (MetadataCandidate D) → Status
  check_candidates field rule_set [] = ok tt
  check_candidates field rule_set (c ∷ cs) =
      reject_if (not (is_candidate_valid field rule_set c)) invalid_argument
        "metadata candidate is not valid for the requested ruleset"
      >> check_candidates field rule_set cs

  abbrev pub differs_from : (D → D → Bool) → MetadataCandidate D → MetadataCandidate D → Bool
  differs_from double_equal selected c = not (values_equal double_equal c.value selected.value)

  -- The record that is made of the sorted candidates.
  unfoldable pub select_first_candidate :
      (D → D → Bool)
      → MetadataField
      → MetadataRuleset
      → List (MetadataCandidate D)
      → ResolutionRecord D
  select_first_candidate double_equal field rule_set [] = record {
    field = field;
    selected_value = none;
    selected_source = none;
    rule_id = [];
    rule_version = rule_set.version;
    candidates = [];
    conflict = false;
    reason = "no candidates";
  }
  select_first_candidate double_equal field rule_set (selected ∷ cs) =
      let conflict = exists (differs_from double_equal selected) (selected ∷ cs) in
      record {
        field = field;
        selected_value = some selected.value;
        selected_source = some selected.source;
        rule_id = selected.extraction_rule;
        rule_version = rule_set.version;
        candidates = selected ∷ cs;
        conflict = conflict;
        reason = conflict_reason conflict;
      }

  -- MetadataResolver::Resolve
  unfoldable pub resolve :
      (D → D → Bool)
      → MetadataField
      → List (MetadataCandidate D)
      → MetadataRuleset
      → Result (ResolutionRecord D)
  resolve double_equal field candidates rule_set = do
    validate_metadata_ruleset rule_set
    check_candidates field rule_set candidates
    ok (
        select_first_candidate double_equal field rule_set
          (sort_by (candidate_less rule_set) candidates))

  abbrev pub value_fits : MetadataField → Option (MetadataValue D) → Bool
  value_fits field none = true
  value_fits field (some v) = is_value_compatible field v

  unfoldable pub check_record_candidates : MetadataField → List (MetadataCandidate D) → Status
  check_record_candidates field [] = ok tt
  check_record_candidates field (c ∷ cs) =
      reject_if
        (is_empty c.asset_id
          || field_index c.field != field_index field
          || is_empty c.extraction_rule
          || not (is_value_compatible c.field c.value))
        invalid_argument "resolution candidate is invalid for the record"
      >> check_record_candidates field cs

  -- ValidateResolutionRecord
  unfoldable pub validate_resolution_record : ResolutionRecord D → Status
  validate_resolution_record r = do
    reject_if (not (bools_equal (has_value r.selected_value) (has_value r.selected_source)))
        invalid_argument "resolution selected value and source must be provided together"
    reject_if (not (value_fits r.field r.selected_value)) invalid_argument
        "resolution selected value is incompatible with its field"
    reject_if (has_value r.selected_value && (is_empty r.rule_id || is_empty r.rule_version))
        invalid_argument "resolution selection must identify its rule and version"
    reject_if (r.conflict && is_empty_text r.reason) invalid_argument
        "conflicted resolution must include a reason"
    check_record_candidates r.field r.candidates
