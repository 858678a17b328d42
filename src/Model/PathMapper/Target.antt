-- ===== src/Model/PathMapper/Target.antt =====
-- src/model/path_mapper.cpp: the path that `Map` gives to one asset.
use photobridge.Base.{
  All, Bytes, List, Option, [], ap, arith, is_empty, length, ltb, none, some, subst, sym, true, ℕ,
  ◌||◌, ◌∙◌, ◌∷◌, ◌≡◌, ◌≤◌,
}
use photobridge.Common.Status.{Result, bind_ok, ok, ok_injective, reject_if}
use photobridge.Model.RelativePath.{RelativePath}
use photobridge.Model.RelativePath.Components.{IsComponent, join, parse-components}
use photobridge.Model.Capability.{
  TargetCapabilities, byte_exact_contents, find_capability, full, has_level, regular_files, require,
  unicode_normalization, validate_capabilities,
}
use photobridge.Model.LogicalAsset.{LogicalAsset}
use photobridge.Model.PathMapper.{
  MigrationPolicy, PathMapping, build_target_path, check_lengths, check_normalization, is_non_ascii,
  map_asset, map_path, no_members, present, require_directories, validate_policy,
  validate_target_path,
}

-- Within the limits of the policy, and with a name that the target is known to keep.
pub record IsWithin (policy : MigrationPolicy) (capabilities : TargetCapabilities)
    (p : RelativePath) : Type 0 where
  pub path_fits : length p.raw_bytes ≤ policy.max_path_bytes
  pub components_fit : All (λ c. length c ≤ policy.max_component_bytes) p.components
  pub components_good : All IsComponent p.components
  pub bytes_joined : join p.components ≡ p.raw_bytes
  pub name_kept :
      is_non_ascii p.raw_bytes ≡ true
      → has_level full (find_capability unicode_normalization capabilities.entries) ≡ true

check_lengths-All :
    (limit : ℕ) (cs : List Bytes) → check_lengths limit cs ≡ ok tt → All (λ c. length c ≤ limit) cs
unfolding check_lengths
check_lengths-All limit [] h = tt
check_lengths-All limit (c ∷ cs) h =
    let (_, v, k) = bind_ok (reject_if (ltb limit (length c)) _ _) _ h in
    (ground arith, check_lengths-All limit cs k)

validate_target_path-ok :
    (p : RelativePath) (policy : MigrationPolicy) (u : Unit {0})
    → validate_target_path p policy ≡ ok u
    → (length p.raw_bytes ≤ policy.max_path_bytes)
      × All (λ c. length c ≤ policy.max_component_bytes) p.components
unfolding validate_target_path
validate_target_path-ok p policy u h =
    let (_, v, k) = bind_ok (reject_if (ltb policy.max_path_bytes (length p.raw_bytes)) _ _) _ h in
    (ground arith, check_lengths-All policy.max_component_bytes p.components k)

-- The steps of a `map_path` that succeeded.
pub map_path-steps :
    (source : RelativePath) (capabilities : TargetCapabilities) (policy : MigrationPolicy)
    (p : RelativePath)
    → map_path source capabilities policy ≡ ok p
    → (build_target_path source policy ≡ ok p)
      × (validate_target_path p policy ≡ ok tt)
      × (check_normalization capabilities p ≡ ok tt)
unfolding map_path
map_path-steps source capabilities policy p h =
    let (_, v1, h1) = bind_ok (require capabilities regular_files full) _ h in
    let (_, v2, h2) = bind_ok (require capabilities byte_exact_contents full) _ h1 in
    let (_, v3, h3) = bind_ok (require_directories capabilities policy source) _ h2 in
    let (q, v4, h4) = bind_ok (build_target_path source policy) _ h3 in
    let (_, v5, h5) = bind_ok (validate_target_path q policy) _ h4 in
    let (_, v6, h6) = bind_ok (check_normalization capabilities q) _ h5 in
    subst
      (λ r.
        (build_target_path source policy ≡ ok r)
        × (validate_target_path r policy ≡ ok tt)
        × (check_normalization capabilities r ≡ ok tt))
      (ok_injective h6) (v4, v5, v6)

-- The steps of a `Map` that succeeded.
pub map_asset-steps :
    (asset : LogicalAsset) (capabilities : TargetCapabilities) (policy : MigrationPolicy)
    (m : PathMapping)
    → map_asset asset capabilities policy ≡ ok m
    → (source : RelativePath) × (asset.source_path ≡ some source)
      × (validate_policy policy ≡ ok tt)
      × (map_path source capabilities policy ≡ ok m.target_path)
      × (m.logical_asset_id ≡ asset.id)
unfolding map_asset
map_asset-steps asset capabilities policy m h =
    let (_, v1, h1) = bind_ok (validate_policy policy) _ h in
    let (_, v2, h2) = bind_ok (validate_capabilities capabilities) _ h1 in
    let (_, v3, h3) =
      bind_ok (reject_if (is_empty asset.id || no_members asset.members) _ _) _ h2 in
    let (source, v4, h4) = bind_ok (present asset.source_path) _ h3 in
    let (target, v5, h5) = bind_ok (map_path source capabilities policy) _ h4 in
    (
      source,
      present-some asset.source_path source v4,
      v1,
      v5 ∙ ap (λ (n : PathMapping). Result.ok n.target_path) (ok_injective h5),
      sym (ap (λ (n : PathMapping). n.logical_asset_id) (ok_injective h5)),
    )
  where
    present-some : (o : Option RelativePath) (p : RelativePath) → present o ≡ ok p → o ≡ some p
    present-some none p e = cc
    present-some (some q) p e = ap some (ok_injective e)

-- A mapped asset keeps its identity, and its target path is a relative path within the policy's
-- limits, with bytes above 127 only where the target keeps Unicode names as they are.
pub map_asset-IsWithin :
    (asset : LogicalAsset) (capabilities : TargetCapabilities) (policy : MigrationPolicy)
    (m : PathMapping)
    → map_asset asset capabilities policy ≡ ok m
    → (m.logical_asset_id ≡ asset.id) × IsWithin policy capabilities m.target_path
unfolding build_target_path check_normalization
map_asset-IsWithin asset capabilities policy m h =
    let (source, _, _, mapped, same) = map_asset-steps asset capabilities policy m h in
    let (built, fits, kept) = map_path-steps source capabilities policy m.target_path mapped in
    let (raw, _, good, joined) = parse-components _ m.target_path built in
    let (fit, fits') = validate_target_path-ok m.target_path policy tt fits in
    (
      same,
      record {
        path_fits = fit;
        components_fit = fits';
        components_good = good;
        bytes_joined = joined ∙ sym raw;
        name_kept = λ n. ground arith;
      },
    )
