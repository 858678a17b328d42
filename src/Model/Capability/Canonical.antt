-- ===== src/Model/Capability/Canonical.antt =====
-- src/model/capability.cpp: what `Validate` accepts, and what `Find` gives of it.
use photobridge.Base.{
  All, Bool, Bool-cases, List, [], arith, false, is_empty, refl, true, ℕ, ◌<◌, ◌↔◌, ◌∷◌, ◌≡◌, ◌≤◌,
}
use photobridge.Common.Status.{bind_ok, ok, reject_if}
use photobridge.Model.Capability.{
  Capability, TargetCapabilities, capability_kind_count, check_entries, check_entry,
  is_known_support_level, kind_index, mark, no_entries, validate_capabilities,
}

-- An entry of a known kind and level, with its texts.
pub record IsEntry (c : Capability) : Type 0 where
  pub kind_known : kind_index c.kind < capability_kind_count
  pub level_known : is_known_support_level c.level ≡ true
  pub represented : is_empty c.representation ≡ false
  pub reasoned : is_empty c.reason ≡ false

-- Every entry has a smaller kind than all that come after it.
abbrev pub Ascends : List Capability → Type 0
Ascends [] = Unit
Ascends (c ∷ cs) = All (λ (d : Capability). kind_index c.kind < kind_index d.kind) cs × Ascends cs

-- The loop's state: the kinds seen are those up to the last one.
abbrev SeenUpTo : (ℕ → Bool) → ℕ → Bool → Type 0
SeenUpTo seen previous first = (k : ℕ) → seen k ≡ true → (first ≡ false) × (k ≤ previous)

abbrev AllAbove : ℕ → Bool → List Capability → Type 0
AllAbove previous first cs =
    first ≡ false → All (λ (d : Capability). previous < kind_index d.kind) cs

check_entry_iff :
    (seen : ℕ → Bool) (previous : ℕ) (first : Bool) (c : Capability)
    → SeenUpTo seen previous first
    → (check_entry seen previous first c ≡ ok tt)
      ↔ (IsEntry c × (first ≡ false → previous < kind_index c.kind))
unfolding check_entry
check_entry_iff seen previous first c s = (
  λ h. (
    record {
      kind_known = ground arith;
      level_known = ground arith;
      represented = ground arith;
      reasoned = ground arith;
    },
    λ f. ground arith,
  ),
  λ (e, a). ground (
    arith,
    e.kind_known,
    e.level_known,
    e.represented,
    e.reasoned,
    s (kind_index c.kind),
    Bool-cases first,
  ),
)

SeenUpTo-mark :
    (seen : ℕ → Bool) (previous : ℕ) (first : Bool) (k : ℕ)
    → SeenUpTo seen previous first
    → (first ≡ false → previous < k)
    → SeenUpTo (mark k seen) k false
SeenUpTo-mark seen previous first k s a j h = (refl, ground (arith, s j))

All-lt :
    (a b : ℕ) (cs : List Capability)
    → a < b
    → All (λ (d : Capability). b < kind_index d.kind) cs
    → All (λ (d : Capability). a < kind_index d.kind) cs
All-lt a b [] l h = tt
All-lt a b (c ∷ cs) l (h, hs) = (omega arith, All-lt a b cs l hs)

check_entries_sound :
    (seen : ℕ → Bool) (previous : ℕ) (first : Bool) (cs : List Capability)
    → SeenUpTo seen previous first
    → check_entries seen previous first cs ≡ ok tt
    → All IsEntry cs × Ascends cs × AllAbove previous first cs
unfolding check_entries
check_entries_sound seen previous first [] s h = (tt, tt, λ f. tt)
check_entries_sound seen previous first (c ∷ cs) s h =
    let (_, e, k) = bind_ok (check_entry seen previous first c) _ h in
    let (entry, above) = (check_entry_iff seen previous first c s).0 e in
    let (es, ascends, later) =
      check_entries_sound (mark (kind_index c.kind) seen) (kind_index c.kind) false cs
        (SeenUpTo-mark seen previous first (kind_index c.kind) s above) k in
    (
      (entry, es),
      (later refl, ascends),
      λ f. (above f, All-lt previous (kind_index c.kind) cs (above f) (later refl)),
    )

check_entries_complete :
    (seen : ℕ → Bool) (previous : ℕ) (first : Bool) (cs : List Capability)
    → SeenUpTo seen previous first
    → All IsEntry cs
    → Ascends cs
    → AllAbove previous first cs
    → check_entries seen previous first cs ≡ ok tt
unfolding check_entries
check_entries_complete seen previous first [] s es a b = refl
check_entries_complete seen previous first (c ∷ cs) s (e, es) (a, up) b =
    rw ((check_entry_iff seen previous first c s).1 (e, λ f. (b f).0)) (
      check_entries_complete (mark (kind_index c.kind) seen) (kind_index c.kind) false cs
        (SeenUpTo-mark seen previous first (kind_index c.kind) s λ f. (b f).0) es up λ f. a)

-- `Validate` accepts exactly the descriptions with a version and at least one entry, of which every
-- entry is of a known kind and level and has both its texts, in strictly ascending order of kinds.
pub validate_capabilities_iff :
    (c : TargetCapabilities)
    → (validate_capabilities c ≡ ok tt) ↔ (
        (is_empty c.version ≡ false)
        × (no_entries c.entries ≡ false)
        × All IsEntry c.entries
        × Ascends c.entries)
unfolding validate_capabilities
validate_capabilities_iff c = (
  λ h.
      let (_, v, h1) = bind_ok (reject_if (is_empty c.version) _ _) _ h in
      let (_, n, h2) = bind_ok (reject_if (no_entries c.entries) _ _) _ h1 in
      let (es, a, _) = check_entries_sound (λ k. false) 0 true c.entries (λ k s. cc) h2 in
      (ground arith, ground arith, es, a),
  λ (v, n, es, a).
      rw (v, n) (check_entries_complete (λ k. false) 0 true c.entries (λ k s. cc) es a λ f. cc),
)
