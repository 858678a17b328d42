-- ===== src/Model/CanonicalPlan/Payload.antt =====
-- src/model/canonical_plan.cpp: what the payload tells of the plan.
use photobridge.Base.{All, [], ap, append-nil, arith, codes, length, sym, ◌∙◌, ◌≡◌}
use photobridge.Common.Status.{ok, ok_injective}
use photobridge.Model.RelativePath.{RelativePath, parse}
use photobridge.Model.Capability.{Capability, CapabilityKind, SupportLevel, kind_index, level_index}
use photobridge.Model.PathMapper.{MigrationPolicy}
use photobridge.Model.CanonicalPlan.{
  MinimalPlanAsset, MinimalPlanInput, asset_bytes, canonical_plan_payload, capability_bytes,
  format_version, policy_bytes,
}
use photobridge.Model.CanonicalPlan.Encoding.{
  Is64Bit, IsCode, IsText, IsWide, bool_bytes-IsCode, both-IsCode, fixed-IsCode,
  identity_bytes-IsCode, length_prefixed-IsCode, made-IsCode, uint64_bytes-IsCode,
  vector_bytes-IsCode,
}

pub record IsWideCapability (c : Capability) : Type 0 where
  pub wide_kind : Is64Bit (kind_index c.kind)
  pub wide_level : Is64Bit (level_index c.level)
  pub wide_representation : IsText c.representation
  pub wide_reason : IsText c.reason

pub record IsWidePolicy (p : MigrationPolicy) : Type 0 where
  pub wide_prefix : IsText p.target_prefix
  pub wide_components : Is64Bit p.max_component_bytes
  pub wide_path : Is64Bit p.max_path_bytes

-- The paths are ones that Parse made.
pub record IsWideAsset (a : MinimalPlanAsset) : Type 0 where
  pub wide_logical : IsText a.logical_asset_id
  pub wide_source : IsText a.source_asset_id
  pub wide_source_path : IsText a.source_path.raw_bytes
  pub wide_target_path : IsText a.target_path.raw_bytes
  pub wide_identity : IsWide a.source_identity
  pub source_parsed : parse a.source_path.raw_bytes ≡ ok a.source_path
  pub target_parsed : parse a.target_path.raw_bytes ≡ ok a.target_path

-- All sizes and numbers of the plan have 64 bits, and its paths are ones that Parse made.
pub record IsWidePlan (p : MinimalPlanInput) : Type 0 where
  pub wide_manifest : IsText p.source_manifest_id
  pub whole_digest : length p.source_manifest_digest ≡ 32
  pub wide_root : IsText p.target_root
  pub wide_version : IsText p.capabilities.version
  pub wide_policy : IsWidePolicy p.policy
  pub wide_entries :
      Is64Bit (length p.capabilities.entries) × All IsWideCapability p.capabilities.entries
  pub wide_assets : Is64Bit (length p.assets) × All IsWideAsset p.assets

kind_index-injective : (a b : CapabilityKind) → kind_index a ≡ kind_index b → a ≡ b
kind_index-injective a b h = ground arith

level_index-injective : (a b : SupportLevel) → level_index a ≡ level_index b → a ≡ b
level_index-injective a b h = ground arith

capability_bytes-IsCode : IsCode IsWideCapability capability_bytes
unfolding capability_bytes
capability_bytes-IsCode =
    made-IsCode (λ c. (kind_index c.kind, (level_index c.level, (c.representation, c.reason))))
      (λ c h. (h.wide_kind, (h.wide_level, (h.wide_representation, h.wide_reason))))
      (λ c d h k e.
        let kinds = kind_index-injective c.kind d.kind (ap (λ t. t.0) e) in
        let levels = level_index-injective c.level d.level (ap (λ t. t.1.0) e) in
        λ t. record {
          kind = kinds t;
          level = levels t;
          representation = (e t).1.1.0;
          reason = (e t).1.1.1;
        })
      (both-IsCode uint64_bytes-IsCode (
        both-IsCode uint64_bytes-IsCode
          (both-IsCode length_prefixed-IsCode length_prefixed-IsCode)))

policy_bytes-IsCode : IsCode IsWidePolicy policy_bytes
unfolding policy_bytes
policy_bytes-IsCode =
    made-IsCode
      (λ p. (
        p.target_prefix,
        (p.preserve_source_directories, (p.max_component_bytes, p.max_path_bytes)),
      ))
      (λ p h. (h.wide_prefix, (tt, (h.wide_components, h.wide_path))))
      (λ p q h k e. λ t. record {
        target_prefix = (e t).0;
        preserve_source_directories = (e t).1.0;
        max_component_bytes = (e t).1.1.0;
        max_path_bytes = (e t).1.1.1;
      })
      (both-IsCode length_prefixed-IsCode
        (both-IsCode bool_bytes-IsCode (both-IsCode uint64_bytes-IsCode uint64_bytes-IsCode)))

same_path :
    (p q : RelativePath)
    → parse p.raw_bytes ≡ ok p
    → parse q.raw_bytes ≡ ok q
    → p.raw_bytes ≡ q.raw_bytes
    → p ≡ q
same_path p q h k e = ok_injective (sym h ∙ ap parse e ∙ k)

asset_bytes-IsCode : IsCode IsWideAsset asset_bytes
unfolding asset_bytes
asset_bytes-IsCode =
    let text = length_prefixed-IsCode in
    made-IsCode
      (λ a. (
        a.logical_asset_id,
        (
          a.source_asset_id,
          (a.source_path.raw_bytes, (a.target_path.raw_bytes, a.source_identity)),
        ),
      ))
      (λ a h. (
        h.wide_logical,
        (h.wide_source, (h.wide_source_path, (h.wide_target_path, h.wide_identity))),
      ))
      (λ a b h k e.
        let sources =
          same_path a.source_path b.source_path h.source_parsed k.source_parsed
            (ap (λ t. t.1.1.0) e) in
        let targets =
          same_path a.target_path b.target_path h.target_parsed k.target_parsed
            (ap (λ t. t.1.1.1.0) e) in
        λ t. record {
          logical_asset_id = (e t).0;
          source_asset_id = (e t).1.0;
          source_path = sources t;
          target_path = targets t;
          source_identity = (e t).1.1.1.1;
        })
      (both-IsCode text
        (both-IsCode text (both-IsCode text (both-IsCode text identity_bytes-IsCode))))

canonical_plan_payload-IsCode : IsCode IsWidePlan canonical_plan_payload
unfolding canonical_plan_payload
canonical_plan_payload-IsCode =
    let text = length_prefixed-IsCode in
    let word = uint64_bytes-IsCode in
    made-IsCode
      (λ p. (
        codes "PB_CANONICAL_MINIMAL_PLAN_V1",
        (
          format_version,
          (
            p.source_manifest_id,
            (
              p.source_manifest_digest,
              (
                p.target_root,
                (p.capabilities.version, (p.policy, (p.capabilities.entries, p.assets))),
              ),
            ),
          ),
        ),
      ))
      (λ p h. (
        omega arith,
        (
          omega arith,
          (
            h.wide_manifest,
            (
              h.whole_digest,
              (h.wide_root, (h.wide_version, (h.wide_policy, (h.wide_entries, h.wide_assets)))),
            ),
          ),
        ),
      ))
      (λ p q h k e. λ t. record {
        source_manifest_id = (e t).1.1.0;
        source_manifest_digest = (e t).1.1.1.0;
        target_root = (e t).1.1.1.1.0;
        capabilities = record { version = (e t).1.1.1.1.1.0; entries = (e t).1.1.1.1.1.1.1.0 };
        policy = (e t).1.1.1.1.1.1.0;
        assets = (e t).1.1.1.1.1.1.1.1;
      })
      (both-IsCode text (
        both-IsCode word (
          both-IsCode text (
            both-IsCode (fixed-IsCode 32) (
              both-IsCode text (
                both-IsCode text (
                  both-IsCode policy_bytes-IsCode (
                    both-IsCode (vector_bytes-IsCode capability_bytes-IsCode)
                      (vector_bytes-IsCode asset_bytes-IsCode)))))))))

-- Two plans with the same payload are the same, where all their sizes and numbers have 64 bits,
-- the digests of their manifests 32 bytes, and their paths are ones that Parse made.
pub canonical_plan_payload-injective :
    (p q : MinimalPlanInput)
    → IsWidePlan p
    → IsWidePlan q
    → canonical_plan_payload p ≡ canonical_plan_payload q
    → p ≡ q
canonical_plan_payload-injective p q h k e =
    (canonical_plan_payload-IsCode.read p q [] [] h k (append-nil _ ∙ e ∙ sym (append-nil _))).0
