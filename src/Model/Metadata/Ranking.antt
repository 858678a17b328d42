-- ===== src/Model/Metadata/Ranking.antt =====
-- src/model/metadata_resolver.cpp: what it means that no candidate comes before the selected one.
use photobridge.Base.{
  All, All-both, All-map, Bool, Bool-cases, List, [], ap, arith, exists, false, inl, inr,
  list_beq_iff, list_eq, ltb, nat_eq, option_eq, refl, string_eq, sym, text_less, true, ◌++◌, ◌==◌,
  ◌∷◌, ◌≡◌, ◌≢◌,
}
use photobridge.Base.Order.{IsOrder, IsOrder-on}
use photobridge.Base.Lexicographic.{
  nat_ordered, text_ordered, then_by, then_by_nat-IsOrder, then_by_text-IsOrder,
}
use photobridge.Model.Metadata.{MetadataCandidate, MetadataRule, MetadataRuleset}
use photobridge.Model.Metadata.Resolver.{candidate_less, rank_of, rule_rank}

-- No candidate is of any of the rules.
abbrev pub AreUnused : {D : Type 0} → List MetadataRule → List (MetadataCandidate D) → Type 0
AreUnused rules cs = All (λ c. All (λ (r : MetadataRule). c.extraction_rule ≢ r.id) rules) cs

-- The chain's first rule of which there is a candidate is that of the selected one.
pub record IsFirstRule {D : Type 0} (chain : List MetadataRule) (selected : MetadataCandidate D)
    (rest : List (MetadataCandidate D)) : Type 0 where
  pub earlier : List MetadataRule
  pub rule : MetadataRule
  pub later : List MetadataRule
  pub chain_is : chain ≡ earlier ++ rule ∷ later
  pub rule_is : rule.id ≡ selected.extraction_rule
  pub unused : AreUnused earlier rest

-- Of the candidates of its rule the selected one has the least asset, and of those the least evidence.
abbrev pub IsLeast : {D : Type 0} → MetadataCandidate D → MetadataCandidate D → Type 0
IsLeast selected c =
    c.extraction_rule ≡ selected.extraction_rule
    → (text_less c.asset_id selected.asset_id ≡ false)
      × (c.asset_id ≡ selected.asset_id → text_less c.evidence selected.evidence ≡ false)

abbrev IsRankedAfter :
    {D : Type 0} → List MetadataRule → MetadataCandidate D → MetadataCandidate D → Type 0
IsRankedAfter chain selected c =
    ltb (rule_rank chain c.extraction_rule) (rule_rank chain selected.extraction_rule) ≡ false

module _ {D : Type 0} where
  -- A rule before that of the selected candidate is not that of one ranked after it.
  rank_head :
      (r : MetadataRule) (rules : List MetadataRule) (selected c : MetadataCandidate D)
      → (r.id == selected.extraction_rule) ≡ false
      → IsRankedAfter (r ∷ rules) selected c
      → (c.extraction_rule ≢ r.id) × IsRankedAfter rules selected c
  unfolding rule_rank
  rank_head r rules selected c e h = elim (Bool-cases (r.id == c.extraction_rule)) [
    | inl q ↦ absurd (let h' = rw (e, q) at h in ground arith)
    | inr q ↦ (
      λ same. let p = (list_beq_iff r.id c.extraction_rule).1 (sym same) in cc,
      let h' = rw (e, q) at h in ground arith,
    )
  ]

  pub first_rule :
      (chain : List MetadataRule) (selected : MetadataCandidate D)
      (rest : List (MetadataCandidate D)) (test : MetadataRule → Bool)
      → ((r : MetadataRule) → test r ≡ true → (r.id == selected.extraction_rule) ≡ true)
      → exists test chain ≡ true
      → All (IsRankedAfter chain selected) rest
      → IsFirstRule chain selected rest
  first_rule [] selected rest test t h k = cc
  first_rule (r ∷ rules) selected rest test t h k =
      elim (Bool-cases (r.id == selected.extraction_rule)) [
        | inl e ↦ record {
          earlier = [];
          rule = r;
          later = rules;
          chain_is = refl;
          rule_is = (list_beq_iff r.id selected.extraction_rule).0 e;
          unused = All-map rest (λ c _. tt) k;
        }
        | inr e ↦
            let not_here : test r ≡ false = ground (arith, t r) in
            let heads = All-map rest (λ c h. rank_head r rules selected c e h) k in
            let f =
              first_rule rules selected rest test t (rw not_here at h)
                (All-map rest (λ c p. p.1) heads) in
            record {
              earlier = r ∷ f.earlier;
              rule = f.rule;
              later = f.later;
              chain_is = ap (λ rs. r ∷ rs) f.chain_is;
              rule_is = f.rule_is;
              unused =
                  All-map rest (λ c p. (p.0.0, p.1))
                    (All-both _
                      (λ c. All (λ (q : MetadataRule). c.extraction_rule ≢ q.id) f.earlier) rest
                      heads f.unused);
            }
      ]

  abbrev evidence_less : MetadataCandidate D → MetadataCandidate D → Bool
  evidence_less a b = text_less a.evidence b.evidence

  abbrev named_less : MetadataCandidate D → MetadataCandidate D → Bool
  named_less = then_by (λ c. c.extraction_rule) text_less evidence_less

  abbrev asset_less : MetadataCandidate D → MetadataCandidate D → Bool
  asset_less = then_by (λ c. c.asset_id) text_less named_less

  evidence-IsOrder : IsOrder evidence_less
  evidence-IsOrder = IsOrder-on (λ (c : MetadataCandidate D). c.evidence)

  named-IsOrder : IsOrder named_less
  named-IsOrder = then_by_text-IsOrder evidence_less evidence-IsOrder (λ c. c.extraction_rule)

  asset-IsOrder : IsOrder asset_less
  asset-IsOrder = then_by_text-IsOrder named_less named-IsOrder (λ c. c.asset_id)

  pub candidate_less-IsOrder :
      (rule_set : MetadataRuleset) → IsOrder (candidate_less {D = D} rule_set)
  unfolding candidate_less
  candidate_less-IsOrder rule_set = then_by_nat-IsOrder asset_less asset-IsOrder (rank_of rule_set)

  -- What it says of a candidate that it does not come before another.
  pub candidate_less-parts :
      (rule_set : MetadataRuleset) (selected c : MetadataCandidate D)
      → candidate_less rule_set c selected ≡ false
      → IsRankedAfter rule_set.chain selected c × IsLeast selected c
  unfolding candidate_less
  candidate_less-parts rule_set selected c h =
      let (rank, assets) = nat_ordered asset_less asset-IsOrder (rank_of rule_set) selected c h in
      (
        rank,
        λ same.
            let (asset, names) =
              text_ordered named_less named-IsOrder (λ x. x.asset_id) selected c
                (assets (ap (rule_rank rule_set.chain) same)) in
            (
              asset,
              λ same_asset.
                  (text_ordered evidence_less evidence-IsOrder (λ x. x.extraction_rule) selected c
                      (names same_asset)).1
                    same,
            ),
      )
