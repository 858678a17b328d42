-- ===== src/Model/CanonicalPlan/Build.antt =====
-- src/model/canonical_plan.cpp: the plans that Build makes.
use mathlib.Core.List.{Perm}
use photobridge.Base.{
  All, All-map, Bool, Bool-cases, Bytes, IsDistinct, List, [], arith, false, has_nul, inl, inr,
  is_empty, list_beq_iff, list_eq, map, nat_eq, option_eq, refl, string_eq, subst, sym, text_less,
  ◌==◌, ◌∷◌, ◌≡◌, ◌≢◌,
}
use photobridge.Base.Order.{
  IsSorted, insert_by, sort_by, sort_by-IsSorted, sort_by-perm, text_less-IsOrder,
  text_less_antisym,
}
use photobridge.Base.Ascending.{Ascending, sort_by-Ascending}
use photobridge.Common.Status.{bind_ok, ok, ok_injective, reject_if}
use photobridge.Model.Capability.{validate_capabilities}
use photobridge.Model.PathMapper.{validate_policy}
use photobridge.Model.CanonicalPlan.{
  MinimalPlanAsset, MinimalPlanInput, asset_less, build, check_asset, check_assets, has_adjacent,
  logical_id, source_id, validate_plan_input,
}

-- In an ascending list without equal neighbours no two texts are the same.
has_adjacent-IsDistinct :
    (xs : List Bytes)
    → IsSorted text_less xs
    → has_adjacent xs ≡ false
    → IsDistinct (λ (x : Bytes). x) xs
unfolding has_adjacent
has_adjacent-IsDistinct [] s h = tt
has_adjacent-IsDistinct (x ∷ []) s h = (tt, tt)
has_adjacent-IsDistinct (x ∷ y ∷ ys) ((o, os), (b, bs)) h =
    let d : x ≢ y = λ e. let q = (list_beq_iff x y).1 e in cc in
    (
      (
        d,
        All-map ys
            (λ z k e.
              d (text_less_antisym x y (subst (λ (i : Bytes). text_less i y ≡ false) (sym e) k) o))
            b,
      ),
      has_adjacent-IsDistinct (y ∷ ys) (b, bs) (ground arith),
    )

module _ {A : Type 0} (key : A → Bytes) where
  All-of_map :
      (x : A) (xs : List A)
      → All (λ (y : Bytes). key x ≢ y) (map key xs)
      → All (λ (y : A). key x ≢ key y) xs
  All-of_map x [] h = tt
  All-of_map x (y ∷ ys) (h, hs) = (h, All-of_map x ys hs)

  IsDistinct-of_map : (xs : List A) → IsDistinct (λ (x : Bytes). x) (map key xs) → IsDistinct key xs
  IsDistinct-of_map [] h = tt
  IsDistinct-of_map (x ∷ xs) (h, hs) = (All-of_map x xs h, IsDistinct-of_map xs hs)

module _ (less : Bytes → Bytes → Bool) where
  All-of_insert_by :
      (P : Bytes → Type 0) (x : Bytes) (xs : List Bytes)
      → All P (insert_by less x xs)
      → P x × All P xs
  unfolding insert_by
  All-of_insert_by P x [] (p, h) = (p, tt)
  All-of_insert_by P x (y ∷ ys) h = elim (Bool-cases (less y x)) [
    | inl e ↦
        let (q, k) : P y × All P (insert_by less x ys) = rw e at h in
        let (p, ps) = All-of_insert_by P x ys k in (p, (q, ps))
    | inr e ↦ rw e at h
  ]

  IsDistinct-of_insert_by :
      (x : Bytes) (xs : List Bytes)
      → IsDistinct (λ (y : Bytes). y) (insert_by less x xs)
      → IsDistinct (λ (y : Bytes). y) (x ∷ xs)
  unfolding insert_by
  IsDistinct-of_insert_by x [] h = h
  IsDistinct-of_insert_by x (y ∷ ys) h = elim (Bool-cases (less y x)) [
    | inl e ↦
        let (d, k) : All (λ (z : Bytes). y ≢ z) (insert_by less x ys)
            × IsDistinct (λ (z : Bytes). z) (insert_by less x ys) =
          rw e at h in
        let (n, ns) = All-of_insert_by (λ z. y ≢ z) x ys d in
        let (m, ms) = IsDistinct-of_insert_by x ys k in (((λ q. n (sym q)), m), (ns, ms))
    | inr e ↦ rw e at h
  ]

  IsDistinct-of_sort_by :
      (xs : List Bytes)
      → IsDistinct (λ (y : Bytes). y) (sort_by less xs)
      → IsDistinct (λ (y : Bytes). y) xs
  unfolding sort_by
  IsDistinct-of_sort_by [] h = tt
  IsDistinct-of_sort_by (x ∷ xs) h =
      let (a, d) = IsDistinct-of_insert_by x (sort_by less xs) h in
      (All-of_sort_by x xs a, IsDistinct-of_sort_by xs d)
    where
      All-of_sort_by :
          (x : Bytes) (xs : List Bytes) → All (λ z. x ≢ z) (sort_by less xs) → All (λ z. x ≢ z) xs
      All-of_sort_by x [] h = tt
      All-of_sort_by x (y ∷ ys) h =
          let (p, ps) = All-of_insert_by (λ z. x ≢ z) y (sort_by less ys) h in
          (p, All-of_sort_by x ys ps)

-- Ids of which the sorted list has no equal neighbours are distinct.
unique_ids :
    (key : MinimalPlanAsset → Bytes) (assets : List MinimalPlanAsset)
    → has_adjacent (sort_by text_less (map key assets)) ≡ false
    → IsDistinct key assets
unique_ids key assets h = IsDistinct-of_map key assets (
    IsDistinct-of_sort_by text_less (map key assets)
      (has_adjacent-IsDistinct _ (sort_by-IsSorted text_less text_less-IsOrder (map key assets)) h))

-- The manifest and the root are named, without NUL; every asset is complete, and no two have one id.
pub record IsInput (p : MinimalPlanInput) : Type 0 where
  pub manifest_named : is_empty p.source_manifest_id ≡ false
  pub manifest_clean : has_nul p.source_manifest_id ≡ false
  pub root_named : is_empty p.target_root ≡ false
  pub root_clean : has_nul p.target_root ≡ false
  pub capabilities_valid : validate_capabilities p.capabilities ≡ ok tt
  pub policy_valid : validate_policy p.policy ≡ ok tt
  pub complete : All (λ a. check_asset a ≡ ok tt) p.assets
  pub logical_distinct : IsDistinct logical_id p.assets
  pub source_distinct : IsDistinct source_id p.assets

check_assets-All :
    (assets : List MinimalPlanAsset)
    → check_assets assets ≡ ok tt
    → All (λ a. check_asset a ≡ ok tt) assets
unfolding check_assets
check_assets-All [] h = tt
check_assets-All (a ∷ assets) h =
    let (_, v, k) = bind_ok (check_asset a) _ h in (v, check_assets-All assets k)

validate_plan_input-ok :
    (p : MinimalPlanInput) (u : Unit {0}) → validate_plan_input p ≡ ok u → IsInput p
unfolding validate_plan_input
validate_plan_input-ok p u h =
    let (_, _, h1) = bind_ok (reject_if (is_empty p.source_manifest_id) _ _) _ h in
    let (_, _, h2) = bind_ok (reject_if (has_nul p.source_manifest_id) _ _) _ h1 in
    let (_, _, h3) = bind_ok (reject_if (is_empty p.target_root) _ _) _ h2 in
    let (_, _, h4) = bind_ok (reject_if (has_nul p.target_root) _ _) _ h3 in
    let (_, vc, h5) = bind_ok (validate_capabilities p.capabilities) _ h4 in
    let (_, vp, h6) = bind_ok (validate_policy p.policy) _ h5 in
    let (_, va, h7) = bind_ok (check_assets p.assets) _ h6 in
    let (_, vl, h8) =
      bind_ok (reject_if (has_adjacent (sort_by text_less (map logical_id p.assets))) _ _) _ h7 in
    record {
      manifest_named = ground arith;
      manifest_clean = ground arith;
      root_named = ground arith;
      root_clean = ground arith;
      capabilities_valid = vc;
      policy_valid = vp;
      complete = check_assets-All p.assets va;
      logical_distinct = unique_ids logical_id p.assets (ground arith);
      source_distinct = unique_ids source_id p.assets (ground arith);
    }

asset_less-id :
    (a b : MinimalPlanAsset)
    → (logical_id a == logical_id b) ≡ false
    → asset_less a b ≡ text_less (logical_id a) (logical_id b)
unfolding asset_less
asset_less-id a b h = rw h refl

-- A plan that is built has the fields of its input, which is valid: manifest id and target root not
-- empty and without NUL, capabilities and policy, every asset complete, and no two assets with one
-- logical or source id; and it has the assets of the input in the strict order of their logical ids.
pub build-IsCanonical :
    (p c : MinimalPlanInput)
    → build p ≡ ok c
    → IsInput p
      × (c ≡ record p { assets = c.assets })
      × Perm c.assets p.assets
      × Ascending logical_id c.assets
unfolding build
build-IsCanonical p c h =
    let (u, v, k) = bind_ok (validate_plan_input p) _ h in
    let input = validate_plan_input-ok p u v in
    subst
      (λ (d : MinimalPlanInput).
        IsInput p
        × (d ≡ record p { assets = d.assets })
        × Perm d.assets p.assets
        × Ascending logical_id d.assets)
      (ok_injective k)
      (
        input,
        refl,
        sort_by-perm asset_less p.assets,
        sort_by-Ascending logical_id asset_less asset_less-id p.assets input.logical_distinct,
      )
