-- ===== src/Model/Provenance.antt =====
-- src/model/provenance.cpp: what became of each candidate of a resolution.
pub mod Selection
use photobridge.Base.{
  Bool, Bytes, List, Option, String, [], false, list_eq, nat_eq, none, not, option_eq, some,
  string_eq, text_less, true, ◌&&◌, ◌==◌, ◌||◌, ◌∷◌,
}
use photobridge.Base.Order.{sort_by}
use photobridge.Base.Lexicographic.{then_by}
use photobridge.Common.Status.{Result, ok, ◌>>◌}
use photobridge.Model.Metadata.{
  MetadataCandidate, MetadataField, MetadataSource, MetadataValue, source_index, values_equal,
}
use photobridge.Model.Metadata.Resolver.{ResolutionRecord, validate_resolution_record}

pub data ProvenanceOutcome : Type 0 where
  selected rejected : ProvenanceOutcome

pub record ProvenanceRecord (D : Type 0) : Type 0 where
  pub field : MetadataField
  pub asset_id : Bytes
  pub value : MetadataValue D
  pub source : MetadataSource
  pub rule_id : Bytes
  pub rule_version : Bytes
  pub evidence : Bytes
  pub outcome : ProvenanceOutcome
  pub reason : String

abbrev pub outcome_of : Bool → ProvenanceOutcome
outcome_of true = selected
outcome_of false = rejected

abbrev pub outcome_reason : Bool → Bool → String
outcome_reason true conflict = "selected by canonical resolver order"
outcome_reason false true = "rejected by conflict tie-break"
outcome_reason false false = "not selected"

abbrev pub has_source : Option MetadataSource → MetadataSource → Bool
has_source none source = false
has_source (some s) source = source_index source == source_index s

-- The comparator of the sort.
unfoldable pub provenance_less : {D : Type 0} → MetadataCandidate D → MetadataCandidate D → Bool
provenance_less =
    then_by (λ c. c.asset_id) text_less
      (then_by (λ c. c.extraction_rule) text_less λ a b. text_less a.evidence b.evidence)

module _ {D : Type 0} (double_equal : D → D → Bool) where
  abbrev pub has_selected_value : Option (MetadataValue D) → MetadataValue D → Bool
  has_selected_value none value = false
  has_selected_value (some v) value = values_equal double_equal value v

  -- The condition for a candidate to be the selected one, but for `selected_written`.
  unfoldable pub is_choice : ResolutionRecord D → MetadataCandidate D → Bool
  is_choice resolution c =
      has_source resolution.selected_source c.source
      && c.extraction_rule == resolution.rule_id
      && has_selected_value resolution.selected_value c.value

  abbrev pub provenance_record :
      ResolutionRecord D → MetadataCandidate D → Bool → ProvenanceRecord D
  provenance_record resolution c is_selected = record {
    field = c.field;
    asset_id = c.asset_id;
    value = c.value;
    source = c.source;
    rule_id = c.extraction_rule;
    rule_version = resolution.rule_version;
    evidence = c.evidence;
    outcome = outcome_of is_selected;
    reason = outcome_reason is_selected resolution.conflict;
  }

  -- The loop over the sorted candidates.
  unfoldable pub write_provenance :
      ResolutionRecord D → Bool → List (MetadataCandidate D) → List (ProvenanceRecord D)
  write_provenance resolution selected_written [] = []
  write_provenance resolution selected_written (c ∷ cs) =
      let is_selected = not selected_written && is_choice resolution c in
      provenance_record resolution c is_selected
      ∷ write_provenance resolution (selected_written || is_selected) cs

  -- BuildProvenance
  unfoldable pub build_provenance : ResolutionRecord D → Result (List (ProvenanceRecord D))
  build_provenance resolution = do
    validate_resolution_record resolution
    ok (write_provenance resolution false (sort_by provenance_less resolution.candidates))
