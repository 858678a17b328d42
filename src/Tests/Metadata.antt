-- ===== src/Tests/Metadata.antt =====
-- Two candidates for a title, and a time.
use photobridge.Base.{
  List, String, [], codes, list_beq, list_eq, nat_beq, nat_eq, option_eq, refl, some, string_eq,
  true, ℕ, ◌↔◌, ◌∷◌, ◌≡◌,
}
use photobridge.Base.Order.{insert_by, sort_by}
use photobridge.Base.Integers.{negsuc, pos}
use photobridge.Common.Status.{ok}
use photobridge.Model.Metadata.{
  MetadataCandidate, TimeCandidate, check_rules, count_rules, google_takeout_json,
  google_takeout_metadata_ruleset, is_rule_compatible, is_value_compatible, local_time,
  second_precision, string_value, title, validate_metadata_ruleset, validate_time_candidate,
  values_equal,
}
use photobridge.Model.Metadata.Resolver.{
  ResolutionRecord, candidate_less, check_candidates, is_candidate_valid, resolve, rule_rank,
  select_first_candidate, validate_resolution_record,
}
use photobridge.Model.Metadata.Resolution.{IsResolved, resolve-IsResolved}
use photobridge.Model.Metadata.Validity.{resolve_valid}
use photobridge.Model.Metadata.Values.{values_equal_iff}
use photobridge.Model.Provenance.{ProvenanceRecord, build_provenance}
use photobridge.Model.Provenance.Selection.{IsProvenance, resolve-build_provenance}

abbrev title_from : String → String → MetadataCandidate ℕ
title_from asset text = record {
  asset_id = codes asset;
  field = title;
  value = string_value (codes text);
  source = google_takeout_json;
  extraction_rule = codes "takeout.json.title.v1";
  evidence = codes "photo.json";
}

abbrev two_titles : List (MetadataCandidate ℕ)
two_titles = title_from "asset-b" "Sea" ∷ title_from "asset-a" "Beach" ∷ []

abbrev beach_title : ResolutionRecord ℕ
beach_title =
    select_first_candidate nat_beq title google_takeout_metadata_ruleset
      (title_from "asset-a" "Beach" ∷ title_from "asset-b" "Sea" ∷ [])

titles_resolved : resolve nat_beq title two_titles google_takeout_metadata_ruleset ≡ ok beach_title
unfolding resolve validate_metadata_ruleset check_rules count_rules google_takeout_metadata_ruleset
    check_candidates is_candidate_valid is_rule_compatible is_value_compatible candidate_less
    rule_rank sort_by insert_by list_beq
titles_resolved = refl

titles_in_conflict : beach_title.conflict ≡ true
unfolding select_first_candidate values_equal list_beq
titles_in_conflict = refl

resolve-IsResolved_example :
    IsResolved nat_beq title two_titles google_takeout_metadata_ruleset beach_title
resolve-IsResolved_example =
    resolve-IsResolved nat_beq title two_titles google_takeout_metadata_ruleset titles_resolved

resolve_valid_example : validate_resolution_record beach_title ≡ ok tt
resolve_valid_example =
    resolve_valid title google_takeout_metadata_ruleset nat_beq two_titles titles_resolved

abbrev taken_at : TimeCandidate
taken_at = record {
  time = local_time record {
    year = pos 2024;
    month = pos 2;
    day = pos 29;
    hour = pos 23;
    minute = pos 59;
    second = pos 59;
    nanosecond = pos 0;
  };
  utc_offset_minutes = some (negsuc 299);
  precision = second_precision;
  source = google_takeout_json;
  raw_value = codes "1709269199";
}

time_accepted : validate_time_candidate taken_at ≡ ok tt
unfolding validate_time_candidate
time_accepted = refl

values_equal_iff_example :
    (values_equal nat_beq (title_from "asset-a" "Beach").value (title_from "asset-b" "Sea").value
      ≡ true)
    ↔ ((title_from "asset-a" "Beach").value ≡ (title_from "asset-b" "Sea").value)
values_equal_iff_example =
    values_equal_iff nat_beq (title_from "asset-a" "Beach").value (title_from "asset-b" "Sea").value
      tt

resolve-build_provenance_example :
    (ps : List (ProvenanceRecord ℕ)) × (build_provenance nat_beq beach_title ≡ ok ps)
    × IsProvenance two_titles beach_title ps
resolve-build_provenance_example =
    resolve-build_provenance nat_beq title google_takeout_metadata_ruleset two_titles
      titles_resolved
