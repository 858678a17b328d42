-- ===== src/Model/Provenance/Selection.antt =====
-- src/model/provenance.cpp: which candidate is recorded as the selected one.
use mathlib.Core.List.{Perm}
use mathlib.Core.List.Perm
use photobridge.Base.{
  All, All-map, Bool, Bool-cases, List, Option, [], ap, arith, beq_refl, exists, false, inl, inr,
  length, list_beq_iff, list_eq, map, nat_eq, none, not, option_eq, refl, some, string_eq, subst,
  sym, true, ℕ, ◌&&◌, ◌+◌, ◌==◌, ◌||◌, ◌∙◌, ◌∷◌, ◌≡◌,
}
use photobridge.Base.Order.{All-sort_by, exists-sort_by, length-sort_by, sort_by, sort_by-perm}
use photobridge.Common.Status.{ok}
use photobridge.Model.Metadata.{
  MetadataCandidate, MetadataField, MetadataRuleset, MetadataSource, MetadataValue, bool_value,
  double_value, geo_value, int64_value, is_value_compatible, source_index, string_value, time_value,
}
use photobridge.Model.Metadata.Resolver.{
  ResolutionRecord, candidate_less, resolve, select_first_candidate,
}
use photobridge.Model.Metadata.Resolution.{resolve-ok, select_first_candidate-frame}
use photobridge.Model.Metadata.Validity.{
  IsSound, is_value_compatible-index, resolve-IsSound, resolve_valid,
}
use photobridge.Model.Metadata.Values.{IsExact, source_index-injective, values_equal_iff}
use photobridge.Model.Provenance.{
  ProvenanceOutcome, ProvenanceRecord, build_provenance, has_selected_value, has_source, is_choice,
  outcome_of, provenance_less, provenance_record, rejected, selected, write_provenance,
}

abbrev selected_mark : ProvenanceOutcome → ℕ
selected_mark selected = 1
selected_mark rejected = 0

abbrev pub count_selected : {D : Type 0} → List (ProvenanceRecord D) → ℕ
count_selected [] = 0
count_selected (p ∷ ps) = selected_mark p.outcome + count_selected ps

abbrev pub one_if : Bool → ℕ
one_if true = 1
one_if false = 0

module _ {D : Type 0} (double_equal : D → D → Bool) where
  count-write_provenance :
      (r : ResolutionRecord D) (written : Bool) (cs : List (MetadataCandidate D))
      → count_selected (write_provenance double_equal r written cs)
        ≡ one_if (not written && exists (is_choice double_equal r) cs)
  unfolding write_provenance
  count-write_provenance r true [] = refl
  count-write_provenance r false [] = refl
  count-write_provenance r true (c ∷ cs) = omega (arith, count-write_provenance r true cs)
  count-write_provenance r false (c ∷ cs) = elim (Bool-cases (is_choice double_equal r c)) [
    | inl e ↦ rw e (omega (arith, count-write_provenance r true cs))
    | inr e ↦ rw e (omega (arith, count-write_provenance r false cs))
  ]

-- The candidate that a record was made of.
abbrev pub candidate_of : {D : Type 0} → ProvenanceRecord D → MetadataCandidate D
candidate_of p = record {
  asset_id = p.asset_id;
  field = p.field;
  value = p.value;
  source = p.source;
  extraction_rule = p.rule_id;
  evidence = p.evidence;
}

-- The record has the rule, the source and the value that the resolution selected.
pub record IsSelection {D : Type 0} (r : ResolutionRecord D) (p : ProvenanceRecord D) : Type 0 where
  pub rule_same : p.rule_id ≡ r.rule_id
  pub source_same : r.selected_source ≡ some p.source
  pub value_same : r.selected_value ≡ some p.value

-- The records are those of the candidates, in another order, under the resolution's version. One is
-- marked as selected, if there is any, and only one with what the resolution selected.
pub record IsProvenance {D : Type 0} (candidates : List (MetadataCandidate D))
    (r : ResolutionRecord D) (ps : List (ProvenanceRecord D)) : Type 0 where
  pub kept : Perm (map candidate_of ps) candidates
  pub versioned : All (λ p. p.rule_version ≡ r.rule_version) ps
  pub one_selected : count_selected ps ≡ one_if (not (length candidates == 0))
  pub selection : All (λ p. p.outcome ≡ selected → IsSelection r p) ps

source_found : (o : Option MetadataSource) (s : MetadataSource) → has_source o s ≡ true → o ≡ some s
source_found none s h = cc
source_found (some t) s h = ap some (sym (source_index-injective s t (ground arith)))

module _ {D : Type 0} (double_equal : D → D → Bool) where
  value_found :
      (o : Option (MetadataValue D)) (v : MetadataValue D)
      → IsExact v
      → has_selected_value double_equal o v ≡ true
      → o ≡ some v
  value_found none v x h = cc
  value_found (some w) v x h = ap some (sym ((values_equal_iff double_equal v w x).0 h))

  marked-IsSelection :
      (r : ResolutionRecord D) (written : Bool) (c : MetadataCandidate D)
      → IsExact c.value
      → outcome_of (not written && is_choice double_equal r c) ≡ selected
      → IsSelection r
          (provenance_record double_equal r c (not written && is_choice double_equal r c))
  unfolding is_choice
  marked-IsSelection r written c x h =
      let chosen : is_choice double_equal r c ≡ true =
        elim (Bool-cases (not written && is_choice double_equal r c)) [
          | inl e ↦ ground arith
          | inr e ↦ absurd (let h' = rw e at h in cc)
        ] in
      record {
        rule_same = (list_beq_iff c.extraction_rule r.rule_id).0 (ground arith);
        source_same = source_found r.selected_source c.source (ground arith);
        value_same = value_found r.selected_value c.value x (ground arith);
      }

  write-IsSelection :
      (r : ResolutionRecord D) (cs : List (MetadataCandidate D)) (written : Bool)
      → All (λ c. IsExact c.value) cs
      → All
          (λ p. p.outcome ≡ selected → IsSelection r p)
          (write_provenance double_equal r written cs)
  unfolding write_provenance
  write-IsSelection r [] written h = tt
  write-IsSelection r (c ∷ cs) written (x, xs) = (
    marked-IsSelection r written c x,
    write-IsSelection r cs (written || not written && is_choice double_equal r c) xs,
  )

  write-versioned :
      (r : ResolutionRecord D) (cs : List (MetadataCandidate D)) (written : Bool)
      → All (λ p. p.rule_version ≡ r.rule_version) (write_provenance double_equal r written cs)
  unfolding write_provenance
  write-versioned r [] written = tt
  write-versioned r (c ∷ cs) written =
      (refl, write-versioned r cs (written || not written && is_choice double_equal r c))

  write-kept :
      (r : ResolutionRecord D) (cs : List (MetadataCandidate D)) (written : Bool)
      → map candidate_of (write_provenance double_equal r written cs) ≡ cs
  unfolding write_provenance
  write-kept r [] written = refl
  write-kept r (c ∷ cs) written =
      ap (λ xs. c ∷ xs) (write-kept r cs (written || not written && is_choice double_equal r c))

-- No field takes a floating-point number.
compatible-IsExact :
    {D : Type 0} (f : MetadataField) (v : MetadataValue D)
    → is_value_compatible f v ≡ true
    → IsExact v
compatible-IsExact {D} f (double_value d) h =
    let k = is_value_compatible-index f (MetadataValue.double_value d) in ground arith
compatible-IsExact {D} f (geo_value a b) h =
    let k = is_value_compatible-index f (MetadataValue.geo_value a b) in ground arith
compatible-IsExact f (string_value s) h = tt
compatible-IsExact f (int64_value a) h = tt
compatible-IsExact f (bool_value b) h = tt
compatible-IsExact f (time_value t) h = tt

module _ {D : Type 0} (double_equal : D → D → Bool) (field : MetadataField)
    (rule_set : MetadataRuleset) where
  -- The first candidate is the resolver's choice.
  choice_exists :
      (cs : List (MetadataCandidate D))
      → All (IsSound field) cs
      → let r = select_first_candidate double_equal field rule_set cs in
        exists (is_choice double_equal r) r.candidates ≡ not (length cs == 0)
  unfolding select_first_candidate is_choice
  choice_exists [] h = refl
  choice_exists (c ∷ cs) (h, _) =
      let same =
        (values_equal_iff double_equal c.value c.value
            (compatible-IsExact c.field c.value h.value_fits_field)).1
          refl in
      rw (beq_refl (source_index c.source), beq_refl c.extraction_rule, same) (ground arith)

  -- The provenance of the record that is made of sound candidates in order.
  select_first_candidate-IsProvenance :
      (cs : List (MetadataCandidate D))
      → All (IsSound field) cs
      → let r = select_first_candidate double_equal field rule_set cs in
        IsProvenance cs r
          (write_provenance double_equal r false (sort_by provenance_less r.candidates))
  select_first_candidate-IsProvenance cs sound =
      let r = select_first_candidate double_equal field rule_set cs in
      let (_, _, same) = select_first_candidate-frame double_equal field cs rule_set cs in
      let sorted = sort_by provenance_less r.candidates in
      let exact : All (λ c. IsExact c.value) cs =
        All-map cs (λ c h. compatible-IsExact c.field c.value h.value_fits_field) sound in
      record {
        kept =
            subst (λ xs. Perm xs cs) (sym (write-kept double_equal r sorted false))
              (subst (λ xs. Perm sorted xs) same (sort_by-perm provenance_less r.candidates));
        versioned = write-versioned double_equal r sorted false;
        one_selected =
            count-write_provenance double_equal r false sorted
            ∙ ap one_if (
                exists-sort_by provenance_less (is_choice double_equal r) r.candidates
                ∙ choice_exists cs sound);
        selection = write-IsSelection double_equal r sorted false (
            All-sort_by provenance_less (λ c. IsExact c.value) r.candidates
              (subst (All (λ c. IsExact c.value)) (sym same) exact));
      }

  -- The provenance of every resolution that succeeds is built. Its records are those of the given
  -- candidates, in another order, under the resolution's version. Exactly one of them, if there is
  -- any, is marked as selected, and it has the rule, the source and the value of the resolution.
  pub resolve-build_provenance :
      (candidates : List (MetadataCandidate D)) {r : ResolutionRecord D}
      → resolve double_equal field candidates rule_set ≡ ok r
      → (ps : List (ProvenanceRecord D)) × (build_provenance double_equal r ≡ ok ps)
        × IsProvenance candidates r ps
  unfolding build_provenance
  resolve-build_provenance candidates {r} h =
      let valid = resolve_valid field rule_set double_equal candidates h in
      let (_, _, made) = resolve-ok double_equal field candidates rule_set h in
      let cs = sort_by (candidate_less rule_set) candidates in
      let sound =
        All-sort_by (candidate_less rule_set) (IsSound field) candidates
          (resolve-IsSound field rule_set double_equal candidates h) in
      let p =
        subst
          (λ x.
            IsProvenance cs x
              (write_provenance double_equal x false (sort_by provenance_less x.candidates)))
          made (select_first_candidate-IsProvenance cs sound) in
      let size : length cs ≡ length candidates =
        length-sort_by (candidate_less rule_set) candidates in
      (
        write_provenance double_equal r false (sort_by provenance_less r.candidates),
        rw valid refl,
        record {
          kept = Perm.trans p.kept (sort_by-perm (candidate_less rule_set) candidates);
          versioned = p.versioned;
          one_selected = p.one_selected ∙ ap (λ n. one_if (not (n == 0))) size;
          selection = p.selection;
        },
      )
