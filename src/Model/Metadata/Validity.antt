-- ===== src/Model/Metadata/Validity.antt =====
-- src/model/metadata_resolver.cpp and src/model/resolution_record.cpp: the records that the resolver
-- makes are valid.
use photobridge.Base.{
  All, All-map, Bool, Bool-cases, Bytes, List, [], all, ap, arith, exists, false, if◌then◌else◌,
  inl, inr, is_empty, list_beq_iff, list_eq, nat_eq, option_eq, refl, string_eq, subst, sym, true,
  ℕ, ◌!=◌, ◌==◌, ◌||◌, ◌∙◌, ◌∷◌, ◌≡◌,
}
use photobridge.Common.Status.{bind_ok, ok, reject_if, ◌>>◌}
use photobridge.Model.Metadata.{
  MetadataCandidate, MetadataField, MetadataRule, MetadataRuleset, MetadataValue, check_rules,
  description, favorite, field_index, is_rule_compatible, is_value_compatible, no_rules,
  other_field, taken_time, title, validate_metadata_ruleset, value_kind,
}
use photobridge.Base.Order.{All-sort_by}
use photobridge.Model.Metadata.Resolver.{
  ResolutionRecord, candidate_less, check_record_candidates, differs_from, is_candidate_valid,
  resolve, select_first_candidate, validate_resolution_record,
}
use photobridge.Model.Metadata.Resolution.{resolve-ok}

abbrev HasId : MetadataRule → Type 0
HasId r = is_empty r.id ≡ false

check_rules-All :
    (chain rules : List MetadataRule) → check_rules chain rules ≡ ok tt → All HasId rules
unfolding check_rules
check_rules-All chain [] h = tt
check_rules-All chain (r ∷ rules) h =
    let (_, both, k') = bind_ok (reject_if (is_empty r.id) _ _ >> _) _ h in
    let (_, g, _) = bind_ok (reject_if (is_empty r.id) _ _) _ both in
    (ground arith, check_rules-All chain rules k')

pub validate_metadata_ruleset-HasId :
    (rule_set : MetadataRuleset)
    → validate_metadata_ruleset rule_set ≡ ok tt
    → (is_empty rule_set.version ≡ false) × All HasId rule_set.chain
unfolding validate_metadata_ruleset
validate_metadata_ruleset-HasId rule_set h =
    let (_, g, k) =
      bind_ok (reject_if (is_empty rule_set.version || no_rules rule_set.chain) _ _) _ h in
    (ground arith, check_rules-All rule_set.chain rule_set.chain k)

-- An id that some rule of the list has is not empty, as no rule's is.
found-HasId :
    (id : Bytes) (test : MetadataRule → Bool) (rules : List MetadataRule)
    → ((r : MetadataRule) → test r ≡ true → (r.id == id) ≡ true)
    → All HasId rules
    → exists test rules ≡ true
    → is_empty id ≡ false
found-HasId id test [] t h e = cc
found-HasId id test (r ∷ rules) t (h, hs) e = elim (Bool-cases (test r)) [
  | inl q ↦ subst (λ i. is_empty i ≡ false) ((list_beq_iff r.id id).0 (t r q)) h
  | inr q ↦ found-HasId id test rules t hs (rw q at e)
]

-- The compatibility of a value depends on the field's index.
abbrev pub kind_fits : ℕ → ℕ → Bool
kind_fits n k =
    if n == 0 || n == 1 then k == 0 else if n == 2 then k == 3 else if n == 3 then k == 4 else false

pub is_value_compatible-index :
    {D : Type 0} (f : MetadataField) (v : MetadataValue D)
    → is_value_compatible f v ≡ kind_fits (field_index f) (value_kind v)
unfolding is_value_compatible
is_value_compatible-index title v = refl
is_value_compatible-index description v = refl
is_value_compatible-index favorite v = refl
is_value_compatible-index taken_time v = refl
is_value_compatible-index (other_field n) v = ground arith

is_value_compatible-same :
    {D : Type 0} (f g : MetadataField) (v : MetadataValue D)
    → field_index f ≡ field_index g
    → is_value_compatible f v ≡ is_value_compatible g v
is_value_compatible-same f g v q =
    is_value_compatible-index f v
    ∙ ap (λ n. kind_fits n (value_kind v)) q
    ∙ sym (is_value_compatible-index g v)

-- What the resolver's check of a candidate says, for the rules of a valid rule set.
pub record IsSound {D : Type 0} (field : MetadataField) (c : MetadataCandidate D) : Type 0 where
  pub field_same : field_index c.field ≡ field_index field
  pub asset_given : is_empty c.asset_id ≡ false
  pub rule_given : is_empty c.extraction_rule ≡ false
  pub value_fits_field : is_value_compatible c.field c.value ≡ true

module _ {D : Type 0} (field : MetadataField) (rule_set : MetadataRuleset) where
  candidate-IsSound :
      (c : MetadataCandidate D)
      → All HasId rule_set.chain
      → is_candidate_valid field rule_set c ≡ true
      → IsSound field c
  unfolding is_candidate_valid is_rule_compatible
  candidate-IsSound c ids h =
      let compatible : is_rule_compatible rule_set c.field c.source c.extraction_rule ≡ true =
        ground arith in
      record {
        field_same = ground arith;
        asset_given = ground arith;
        rule_given =
            found-HasId c.extraction_rule _ rule_set.chain (λ r k. ground arith) ids compatible;
        value_fits_field = ground arith;
      }

  check_record_candidates-ok :
      (cs : List (MetadataCandidate D))
      → All (IsSound field) cs
      → check_record_candidates field cs ≡ ok tt
  unfolding check_record_candidates
  check_record_candidates-ok [] h = refl
  check_record_candidates-ok (c ∷ cs) (h, hs) =
      let rest = check_record_candidates-ok cs hs in
      let s = h.field_same in
      let same : (field_index c.field != field_index field) ≡ false = ground arith in
      rw (h.asset_given, same, h.rule_given, h.value_fits_field) rest

  -- The record made of sound candidates is valid.
  select_first_candidate-valid :
      (double_equal : D → D → Bool) (cs : List (MetadataCandidate D))
      → is_empty rule_set.version ≡ false
      → All (IsSound field) cs
      → validate_resolution_record (select_first_candidate double_equal field rule_set cs) ≡ ok tt
  unfolding validate_resolution_record select_first_candidate
  select_first_candidate-valid double_equal [] v h = check_record_candidates-ok [] tt
  select_first_candidate-valid double_equal (c ∷ cs) v (h, hs) =
      let rest = check_record_candidates-ok (c ∷ cs) (h, hs) in
      let fits : is_value_compatible field c.value ≡ true =
        sym (is_value_compatible-same c.field field c.value h.field_same) ∙ h.value_fits_field in
      elim (Bool-cases (exists (differs_from double_equal c) (c ∷ cs))) [
        | inl e ↦ rw (fits, h.rule_given, v, e) rest
        | inr e ↦ rw (fits, h.rule_given, v, e) rest
      ]

  -- Every candidate of a resolution that succeeds is sound.
  pub resolve-IsSound :
      (double_equal : D → D → Bool) (candidates : List (MetadataCandidate D))
      {r : ResolutionRecord D}
      → resolve double_equal field candidates rule_set ≡ ok r
      → All (IsSound field) candidates
  resolve-IsSound double_equal candidates h =
      let (valid, all, _) = resolve-ok double_equal field candidates rule_set h in
      let (_, ids) = validate_metadata_ruleset-HasId rule_set valid in
      All-map candidates (λ c k. candidate-IsSound c ids k) all

  -- Every record that the resolver returns is one that `ValidateResolutionRecord` accepts.
  pub resolve_valid :
      (double_equal : D → D → Bool) (candidates : List (MetadataCandidate D))
      {r : ResolutionRecord D}
      → resolve double_equal field candidates rule_set ≡ ok r
      → validate_resolution_record r ≡ ok tt
  resolve_valid double_equal candidates h =
      let (valid, _, q) = resolve-ok double_equal field candidates rule_set h in
      let (v, _) = validate_metadata_ruleset-HasId rule_set valid in
      let sound = resolve-IsSound double_equal candidates h in
      subst (λ r. validate_resolution_record r ≡ ok tt) q
        (select_first_candidate-valid double_equal _ v
          (All-sort_by (candidate_less rule_set) (IsSound field) candidates sound))
