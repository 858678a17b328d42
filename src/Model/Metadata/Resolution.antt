-- ===== src/Model/Metadata/Resolution.antt =====
-- src/model/metadata_resolver.cpp: what a resolution chooses.
use photobridge.Base.{
  All, All-map, Bool, List, [], arith, exists, false, inl, inr, none, not, refl, some, subst, sym,
  true, ◌∷◌, ◌≡◌, ◌⊎◌,
}
use mathlib.Core.List.{Perm}
use photobridge.Base.Order.{
  All-sort_by, IsSorted, exists-sort_by, sort_by, sort_by-IsSorted, sort_by-perm,
}
use photobridge.Common.Status.{bind_ok, ok, ok_injective, reject_if}
use photobridge.Model.Metadata.{
  MetadataCandidate, MetadataField, MetadataRuleset, is_rule_compatible, validate_metadata_ruleset,
}
use photobridge.Model.Metadata.Resolver.{
  ResolutionRecord, candidate_less, check_candidates, differs_from, is_candidate_valid, resolve,
  select_first_candidate,
}
use photobridge.Model.Metadata.Ranking.{
  IsFirstRule, IsLeast, candidate_less-IsOrder, candidate_less-parts, first_rule,
}

module _ {D : Type 0} (double_equal : D → D → Bool) (field : MetadataField)
    (candidates : List (MetadataCandidate D)) (rule_set : MetadataRuleset) where
  -- The selected candidate is of the first rule of the chain that any candidate is of, and of those
  -- of its rule it has the least asset and then the least evidence. The record has its value, source
  -- and rule. It is a conflict exactly if some candidate's value differs.
  pub record IsSelected (selected : MetadataCandidate D) (rest : List (MetadataCandidate D))
      (r : ResolutionRecord D) : Type 0 where
    pub sorted : r.candidates ≡ selected ∷ rest
    pub first : IsFirstRule rule_set.chain selected rest
    pub least : All (IsLeast selected) rest
    pub value_eq : r.selected_value ≡ some selected.value
    pub source_eq : r.selected_source ≡ some selected.source
    pub rule_eq : r.rule_id ≡ selected.extraction_rule
    pub conflict_eq : r.conflict ≡ exists (differs_from double_equal selected) candidates

  pub record IsUnresolved (r : ResolutionRecord D) : Type 0 where
    pub none_given : r.candidates ≡ []
    pub no_value : r.selected_value ≡ none
    pub no_source : r.selected_source ≡ none
    pub no_conflict : r.conflict ≡ false

  pub record IsResolved (r : ResolutionRecord D) : Type 0 where
    pub field_eq : r.field ≡ field
    pub version_eq : r.rule_version ≡ rule_set.version
    pub same_candidates : Perm r.candidates candidates
    pub all_valid : All (λ c. is_candidate_valid field rule_set c ≡ true) candidates
    pub choice :
        IsUnresolved r
        ⊎ ((selected : MetadataCandidate D) × (rest : List (MetadataCandidate D)) × IsSelected
              selected rest r)

pub check_candidates-All :
    {D : Type 0} (field : MetadataField) (rule_set : MetadataRuleset)
    (cs : List (MetadataCandidate D))
    → check_candidates field rule_set cs ≡ ok tt
    → All (λ c. is_candidate_valid field rule_set c ≡ true) cs
unfolding check_candidates
check_candidates-All field rule_set [] h = tt
check_candidates-All field rule_set (c ∷ cs) h =
    let (_, g, k) = bind_ok (reject_if (not (is_candidate_valid field rule_set c)) _ _) _ h in
    (ground arith, check_candidates-All field rule_set cs k)

module _ {D : Type 0} (double_equal : D → D → Bool) (field : MetadataField)
    (candidates : List (MetadataCandidate D)) (rule_set : MetadataRuleset) where
  abbrev sorted_candidates : List (MetadataCandidate D)
  sorted_candidates = sort_by (candidate_less rule_set) candidates

  -- The record of a list of valid candidates in order, whose values are those of `candidates`.
  record_choice :
      (cs : List (MetadataCandidate D))
      → IsSorted (candidate_less rule_set) cs
      → All (λ c. is_candidate_valid field rule_set c ≡ true) cs
      → ((p : MetadataCandidate D → Bool) → exists p cs ≡ exists p candidates)
      → let r = select_first_candidate double_equal field rule_set cs in
        IsUnresolved double_equal field candidates rule_set r
        ⊎ ((selected : MetadataCandidate D) × (rest : List (MetadataCandidate D)) × IsSelected
              double_equal field candidates rule_set selected rest r)
  unfolding select_first_candidate is_candidate_valid is_rule_compatible
  record_choice [] s v e =
      inl (record { none_given = refl; no_value = refl; no_source = refl; no_conflict = refl })
  record_choice (c ∷ cs) (s, _) (v, _) e =
      let parts = All-map cs (candidate_less-parts rule_set c) s in
      let compatible : is_rule_compatible rule_set c.field c.source c.extraction_rule ≡ true =
        ground arith in
      inr (
        c,
        cs,
        record {
          sorted = refl;
          first =
              first_rule rule_set.chain c cs _ (λ r k. ground arith) compatible
                (All-map cs (λ d p. p.0) parts);
          least = All-map cs (λ d p. p.1) parts;
          value_eq = refl;
          source_eq = refl;
          rule_eq = refl;
          conflict_eq = e (differs_from double_equal c);
        },
      )

  -- What the record has whichever candidates there are.
  pub select_first_candidate-frame :
      (cs : List (MetadataCandidate D))
      → let r = select_first_candidate double_equal field rule_set cs in
        (r.field ≡ field) × (r.rule_version ≡ rule_set.version) × (r.candidates ≡ cs)
  unfolding select_first_candidate
  select_first_candidate-frame [] = (refl, refl, refl)
  select_first_candidate-frame (c ∷ cs) = (refl, refl, refl)

  -- What a resolution that succeeds has checked and made.
  pub resolve-ok :
      {r : ResolutionRecord D}
      → resolve double_equal field candidates rule_set ≡ ok r
      → (validate_metadata_ruleset rule_set ≡ ok tt)
        × All (λ c. is_candidate_valid field rule_set c ≡ true) candidates
        × (select_first_candidate double_equal field rule_set sorted_candidates ≡ r)
  unfolding resolve
  resolve-ok h =
      let (_, v, h1) = bind_ok (validate_metadata_ruleset rule_set) _ h in
      let (_, c, h2) = bind_ok (check_candidates field rule_set candidates) _ h1 in
      (v, check_candidates-All field rule_set candidates c, ok_injective h2)

  -- A resolution that succeeds has a record of the field and of the rule set's version, whose
  -- candidates are the ones given, in another order, every one of them valid. Without a candidate
  -- nothing is selected. Otherwise the value, source and rule are those of the first candidate of the
  -- record: no other candidate is of a rule that stands before its rule in the chain, and of those of
  -- its rule it has the least asset and, among those of its asset, the least evidence. There is a
  -- conflict exactly if some candidate's value differs from it.
  pub resolve-IsResolved :
      {r : ResolutionRecord D}
      → resolve double_equal field candidates rule_set ≡ ok r
      → IsResolved double_equal field candidates rule_set r
  resolve-IsResolved h =
      let (_, valid, q) = resolve-ok h in
      let (f, v, c) = select_first_candidate-frame sorted_candidates in
      subst (IsResolved double_equal field candidates rule_set) q record {
        field_eq = f;
        version_eq = v;
        same_candidates =
            subst (λ cs. Perm cs candidates) (sym c)
              (sort_by-perm (candidate_less rule_set) candidates);
        all_valid = valid;
        choice =
            record_choice sorted_candidates
              (sort_by-IsSorted (candidate_less rule_set) (candidate_less-IsOrder rule_set)
                candidates)
              (All-sort_by (candidate_less rule_set)
                (λ c. is_candidate_valid field rule_set c ≡ true) candidates valid)
              (λ p. exists-sort_by (candidate_less rule_set) p candidates);
      }
