-- ===== src/Model/PathMapper/Placement.antt =====
-- src/model/path_mapper.cpp: the components of the path that `Map` gives to one asset.
use photobridge.Base.{
  All, All-append, Bool-cases, Bytes, List, List-cases, [], ap, append_assoc, ap₂, arith, false,
  has_nul, if◌then◌else◌, inl, inr, is_empty, list_eq, nat_eq, option_eq, refl, some, string_eq,
  subst, sym, true, ◌++◌, ◌==◌, ◌||◌, ◌∙◌, ◌∷◌, ◌≡◌, ◌⊎◌,
}
use photobridge.Common.Status.{bind_ok, ok, ok_injective, reject_if, ◌>>=◌}
use photobridge.Model.RelativePath.{RelativePath, parse, slash}
use photobridge.Model.RelativePath.Components.{IsComponent, join, join_after, parse-components}
use photobridge.Model.RelativePath.Exactness.{parse-join}
use photobridge.Model.Capability.{TargetCapabilities}
use photobridge.Model.LogicalAsset.{LogicalAsset}
use photobridge.Model.PathMapper.{
  MigrationPolicy, PathMapping, build_target_path, last_component, map_asset, map_path,
  validate_policy,
}
use photobridge.Model.PathMapper.Target.{map_asset-steps, map_path-steps}

-- What the policy takes of the source's path.
abbrev pub kept_components : MigrationPolicy → RelativePath → List Bytes
kept_components policy source =
    if policy.preserve_source_directories
    then source.components
    else last_component source.components ∷ []

abbrev kept_bytes : MigrationPolicy → RelativePath → Bytes
kept_bytes policy source =
    if policy.preserve_source_directories
    then source.raw_bytes
    else last_component source.components

-- The components are those of the policy's prefix, if it has one, and then the others.
abbrev pub IsPlaced : MigrationPolicy → List Bytes → List Bytes → Type 0
IsPlaced policy kept target =
    ((is_empty policy.target_prefix ≡ true) × (target ≡ kept))
    ⊎ ((q : RelativePath) × (parse policy.target_prefix ≡ ok q) × (target ≡ q.components ++ kept))

join_after-append :
    (c : Bytes) (cs : List Bytes) (d : Bytes) (ds : List Bytes)
    → join_after c (cs ++ d ∷ ds) ≡ join_after c cs ++ slash ∷ join_after d ds
join_after-append c [] d ds = refl
join_after-append c (e ∷ es) d ds =
    ap (λ (t : Bytes). c ++ slash ∷ t) (join_after-append e es d ds)
    ∙ sym (append_assoc c (slash ∷ join_after e es) (slash ∷ join_after d ds))

All-last_component :
    (c : Bytes) (cs : List Bytes) → All IsComponent (c ∷ cs) → IsComponent (last_component (c ∷ cs))
unfolding last_component
All-last_component c [] (k, ks) = k
All-last_component c (d ∷ ds) (k, ks) = All-last_component d ds ks

-- Bytes that are read as a path are read as the components that they join.
parse_unique :
    (raw : Bytes) (p : RelativePath) (c : Bytes) (cs : List Bytes)
    → parse raw ≡ ok p
    → All IsComponent (c ∷ cs)
    → join (c ∷ cs) ≡ raw
    → p.components ≡ c ∷ cs
parse_unique raw p c cs h ks e =
    let (_, n, _, _) = parse-components raw p h in
    let k = parse-join c cs ks (subst (λ (t : Bytes). has_nul t ≡ false) (sym e) n) in
    ap (λ (q : RelativePath). q.components) (ok_injective (sym h ∙ ap parse (sym e) ∙ k))

-- What is kept of a path: components, at least one, that join to the bytes that are kept.
record Kept (policy : MigrationPolicy) (source : RelativePath) : Type 0 where
  head : Bytes
  rest : List Bytes
  whole : kept_components policy source ≡ head ∷ rest
  good : All IsComponent (head ∷ rest)
  joined : join (head ∷ rest) ≡ kept_bytes policy source

kept_lem :
    (policy : MigrationPolicy) (raw : Bytes) (source : RelativePath)
    → parse raw ≡ ok source
    → Kept policy source
unfolding parse
kept_lem policy raw source h =
    let (same, _, good, joined) = parse-components raw source h in
    elim (List-cases source.components) [
      | inl e ↦ absurd (ground (arith, ap join e))
      | inr (c, cs, e) ↦
          let ks = subst (All IsComponent) e good in
          elim (Bool-cases policy.preserve_source_directories) [
            | inl b ↦ record {
              head = c;
              rest = cs;
              whole = rw b e;
              good = ks;
              joined = rw b (ap join (sym e) ∙ joined ∙ sym same);
            }
            | inr b ↦ record {
              head = last_component source.components;
              rest = [];
              whole = rw b refl;
              good = (
                subst (λ l. IsComponent (last_component l)) (sym e) (All-last_component c cs ks),
                tt,
              );
              joined = rw b refl;
            }
          ]
    ]

placed :
    (policy : MigrationPolicy) (source p : RelativePath)
    → Kept policy source
    → validate_policy policy ≡ ok tt
    → build_target_path source policy ≡ ok p
    → IsPlaced policy (kept_components policy source) p.components
unfolding validate_policy build_target_path
placed policy source p k v h = elim (Bool-cases (is_empty policy.target_prefix)) [
  | inl e ↦ inl (e, parse_unique _ p k.head k.rest h k.good (rw e k.joined) ∙ sym k.whole)
  | inr e ↦
      let (_, _, v1) =
        bind_ok (reject_if (policy.max_component_bytes == 0 || policy.max_path_bytes == 0) _ _) _
          v in
      let v2 : (parse policy.target_prefix >>= λ _. ok tt) ≡ ok tt = rw e at v1 in
      let (q, vq, _) = bind_ok (parse policy.target_prefix) _ v2 in inr (q, vq, prefixed q vq e)
]
  where
    prefixed :
        (q : RelativePath)
        → parse policy.target_prefix ≡ ok q
        → is_empty policy.target_prefix ≡ false
        → p.components ≡ q.components ++ kept_components policy source
    prefixed q vq e =
        let (_, _, good, joined) = parse-components policy.target_prefix q vq in
        elim (List-cases q.components) [
          | inl n ↦ absurd (ground (arith, ap join n))
          | inr (c, cs, n) ↦
              let (g, gs) = subst (All IsComponent) n good in
              let j : join_after c cs ≡ policy.target_prefix = ap join (sym n) ∙ joined in
              parse_unique _ p c (cs ++ k.head ∷ k.rest) h
                (g, All-append IsComponent cs (k.head ∷ k.rest) gs k.good)
                (rw e (
                  join_after-append c cs k.head k.rest
                  ∙ ap₂ (λ (s t : Bytes). s ++ slash ∷ t) j k.joined
                  ∙ sym
                      (append_assoc policy.target_prefix (slash ∷ []) (kept_bytes policy source))))
              ∙ ap (λ (l : List Bytes). c ∷ cs ++ l) (sym k.whole)
              ∙ ap (λ (l : List Bytes). l ++ kept_components policy source) (sym n)
        ]

-- The target path of a mapped asset, whose source path is one that was parsed, has the components
-- of the policy's prefix, if it has one, and then all those of the source path, or the last one
-- alone where the policy does not preserve the source's directories.
pub map_asset-IsPlaced :
    (asset : LogicalAsset) (capabilities : TargetCapabilities) (policy : MigrationPolicy)
    (source : RelativePath) (raw : Bytes) (m : PathMapping)
    → asset.source_path ≡ some source
    → parse raw ≡ ok source
    → map_asset asset capabilities policy ≡ ok m
    → IsPlaced policy (kept_components policy source) m.target_path.components
map_asset-IsPlaced asset capabilities policy source raw m s r h =
    let (source', s', valid, mapped, _) = map_asset-steps asset capabilities policy m h in
    let e : source' ≡ source = cc in
    let mapped' = subst (λ t. map_path t capabilities policy ≡ ok m.target_path) e mapped in
    placed policy source m.target_path (kept_lem policy raw source r) valid
      (map_path-steps source capabilities policy m.target_path mapped').0
