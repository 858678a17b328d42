-- ===== src/Model/PathMapper/Collisions.antt =====
-- src/model/path_mapper.cpp: what `MapAll` accepts.
use mathlib.Core.List.{Perm}
use photobridge.Base.{
  All, All-both, All-map, Bool-cases, Bytes, IsDistinct, List, [], ap, arith, false, inl, inr,
  list_beq_iff, list_eq, nat_eq, option_eq, refl, string_eq, subst, sym, text_less, ◌==◌, ◌↔◌, ◌∷◌,
  ◌≡◌, ◌≢◌,
}
use photobridge.Base.Order.{
  IsOrder-on, IsSorted, sort_by, sort_by-IsSorted, sort_by-perm, text_less_antisym,
}
use photobridge.Common.Status.{bind_ok, ok, ok_injective, reject_if}
use photobridge.Model.Capability.{TargetCapabilities}
use photobridge.Model.LogicalAsset.{LogicalAsset}
use photobridge.Model.PathMapper.{
  MigrationPolicy, PathMap, PathMapping, ascii_case_fold_key, by_id, check_collision,
  check_collisions, check_ids_unique, has_key, map_all, map_each,
}

abbrev pub id_of : PathMapping → Bytes
id_of m = m.logical_asset_id

-- The target path in lower case.
abbrev pub folded : PathMapping → Bytes
folded m = ascii_case_fold_key m.target_path.raw_bytes

-- Behind a mapping with another id, in the order of ids, none has its id.
differs_after :
    (m n : PathMapping) (ms : List PathMapping)
    → id_of m ≢ id_of n
    → by_id n m ≡ false
    → All (λ k. by_id k n ≡ false) ms
    → All (λ k. id_of m ≢ id_of k) ms
differs_after m n ms d o h =
    All-map ms
      (λ k b e. d (
        text_less_antisym (id_of m) (id_of n)
          (subst (λ (i : Bytes). text_less i (id_of n) ≡ false) (sym e) b) o))
      h

check_ids_unique_sound :
    (ms : List PathMapping) → IsSorted by_id ms → check_ids_unique ms ≡ ok tt → IsDistinct id_of ms
unfolding check_ids_unique
check_ids_unique_sound [] s h = tt
check_ids_unique_sound (m ∷ []) s h = (tt, tt)
check_ids_unique_sound (m ∷ n ∷ ms) ((o, os), (b, bs)) h =
    let (_, v, k) = bind_ok (reject_if (m.logical_asset_id == n.logical_asset_id) _ _) _ h in
    let d : id_of m ≢ id_of n = λ e. cc ((list_beq_iff (id_of m) (id_of n)).1 e) in
    ((d, differs_after m n ms d o b), check_ids_unique_sound (n ∷ ms) (b, bs) k)

check_ids_unique_complete :
    (ms : List PathMapping) → IsDistinct id_of ms → check_ids_unique ms ≡ ok tt
unfolding check_ids_unique
check_ids_unique_complete [] d = refl
check_ids_unique_complete (m ∷ []) d = refl
check_ids_unique_complete (m ∷ n ∷ ms) ((d, ds), rest) =
    ground (arith, check_ids_unique_complete (n ∷ ms) rest, list_beq_iff (id_of m) (id_of n))

-- Neither map holds the keys of the mapping.
abbrev IsFree : PathMap → PathMap → PathMapping → Type 0
IsFree exact paths m =
    (has_key m.target_path.raw_bytes exact ≡ false) × (has_key (folded m) paths ≡ false)

not_same :
    (paths : PathMap) (m n : PathMapping)
    → has_key (folded n) ((folded m, m.logical_asset_id) ∷ paths) ≡ false
    → folded m ≢ folded n
not_same paths m n h e = let b = (list_beq_iff (folded m) (folded n)).1 e in ground arith

check_collisions_sound :
    (exact paths : PathMap) (ms : List PathMapping)
    → check_collisions exact paths ms ≡ ok tt
    → All (IsFree exact paths) ms × IsDistinct folded ms
unfolding check_collisions check_collision
check_collisions_sound exact paths [] h = (tt, tt)
check_collisions_sound exact paths (m ∷ ms) h =
    let (_, c, k) = bind_ok (check_collision exact paths m) _ h in
    let (free, distinct) =
      check_collisions_sound ((m.target_path.raw_bytes, m.logical_asset_id) ∷ exact)
        ((folded m, m.logical_asset_id) ∷ paths) ms k in
    (
      ((ground arith, ground arith), All-map ms (λ n (e, f). (ground arith, ground arith)) free),
      (All-map ms (λ n (e, f) same. not_same paths m n f same) free, distinct),
    )

IsFree-after :
    (exact paths : PathMap) (m n : PathMapping)
    → IsFree exact paths n × (folded m ≢ folded n)
    → IsFree
        ((m.target_path.raw_bytes, m.logical_asset_id) ∷ exact)
        ((folded m, m.logical_asset_id) ∷ paths)
        n
IsFree-after exact paths m n ((e, f), d) = (
  elim (Bool-cases (m.target_path.raw_bytes == n.target_path.raw_bytes)) [
    | inl s ↦ absurd (d (ap ascii_case_fold_key ((list_beq_iff m.target_path.raw_bytes _).0 s)))
    | inr s ↦ ground arith
  ],
  elim (Bool-cases (folded m == folded n)) [
    | inl s ↦ absurd (d ((list_beq_iff (folded m) (folded n)).0 s))
    | inr s ↦ ground arith
  ],
)

check_collisions_complete :
    (exact paths : PathMap) (ms : List PathMapping)
    → All (IsFree exact paths) ms
    → IsDistinct folded ms
    → check_collisions exact paths ms ≡ ok tt
unfolding check_collisions check_collision
check_collisions_complete exact paths [] h d = refl
check_collisions_complete exact paths (m ∷ ms) ((e, f), h) (d, ds) =
    rw (e, f)
      (check_collisions_complete ((m.target_path.raw_bytes, m.logical_asset_id) ∷ exact)
        ((folded m, m.logical_asset_id) ∷ paths) ms
        (All-map ms (IsFree-after exact paths m) (All-both _ _ ms h d)) ds)

-- The mapped paths may stand together in one directory tree: no two are of one asset, and no two
-- differ in the case of letters only.
pub record IsPlan (ms : List PathMapping) : Type 0 where
  pub sorted : IsSorted by_id ms
  pub ids_distinct : IsDistinct id_of ms
  pub paths_distinct : IsDistinct folded ms

IsPlan-sorted :
    (mapped : List PathMapping)
    → check_ids_unique (sort_by by_id mapped) ≡ ok tt
    → check_collisions [] [] (sort_by by_id mapped) ≡ ok tt
    → IsPlan (sort_by by_id mapped)
IsPlan-sorted mapped h k =
    let s = sort_by-IsSorted by_id (IsOrder-on id_of) mapped in
    record {
      sorted = s;
      ids_distinct = check_ids_unique_sound _ s h;
      paths_distinct = (check_collisions_sound [] [] _ k).1;
    }

All-IsFree : (ms : List PathMapping) → All (IsFree [] []) ms
All-IsFree [] = tt
All-IsFree (m ∷ ms) = ((refl, refl), All-IsFree ms)

-- `MapAll` gives a list exactly where every asset is mapped, and that is the list of those mappings
-- in the order of ids, if no two of them have one id, or paths that differ at most in the case of
-- ASCII letters.
pub map_all_iff :
    (assets : List LogicalAsset) (capabilities : TargetCapabilities) (policy : MigrationPolicy)
    (ms : List PathMapping)
    → (map_all assets capabilities policy ≡ ok ms) ↔ (
        (mapped : List PathMapping) × (map_each assets capabilities policy ≡ ok mapped)
        × (ms ≡ sort_by by_id mapped)
        × Perm ms mapped
        × IsPlan ms)
unfolding map_all
map_all_iff assets capabilities policy ms = (
  λ h.
      let (mapped, v, h1) = bind_ok (map_each assets capabilities policy) _ h in
      let (_, u, h2) = bind_ok (check_ids_unique (sort_by by_id mapped)) _ h1 in
      let (_, c, h3) = bind_ok (check_collisions [] [] (sort_by by_id mapped)) _ h2 in
      let e : ms ≡ sort_by by_id mapped = sym (ok_injective h3) in
      (
        mapped,
        v,
        e,
        subst (λ l. Perm l mapped) (sym e) (sort_by-perm by_id mapped),
        subst IsPlan (sym e) (IsPlan-sorted mapped u c),
      ),
  λ (mapped, v, e, _, plan).
      let plan' = subst IsPlan e plan in
      rw
        (
          v,
          check_ids_unique_complete (sort_by by_id mapped) plan'.ids_distinct,
          check_collisions_complete [] [] (sort_by by_id mapped) (All-IsFree _)
              plan'.paths_distinct,
        )
        (ap ok (sym e)),
)
