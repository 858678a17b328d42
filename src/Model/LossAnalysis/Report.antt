-- ===== src/Model/LossAnalysis/Report.antt =====
-- src/model/loss_analysis.cpp: the losses that are reported.
use photobridge.Base.{
  All, Bool-cases, List, [], ap, arith, beq_refl, false, inl, inr, list_eq, nat_eq, option_eq, refl,
  some, string_eq, subst, sym, ◌<◌, ◌==◌, ◌↔◌, ◌∙◌, ◌∷◌, ◌≡◌, ◌⊎◌,
}
use photobridge.Model.Capability.{
  Capability, CapabilityKind, TargetCapabilities, find_capability, full, kind_index, level_index,
  validate_capabilities,
}
use photobridge.Model.Capability.Canonical.{Ascends, validate_capabilities_iff}
use photobridge.Model.LossAnalysis.{
  CapabilityLoss, LossAnalysis, analyze_capability_loss, loss_of, losses_of,
}
use photobridge.Common.Status.{bind_ok, ok, ok_injective}

-- The loss is one of the list.
abbrev pub IsReported : CapabilityLoss → List CapabilityLoss → Type 0
IsReported l [] = ⊥
IsReported l (x ∷ xs) = (l ≡ x) ⊎ IsReported l xs

-- `Find` gives the capability of the loss, which is not fully supported.
pub record IsLossOf (entries : List Capability) (l : CapabilityLoss) (c : Capability) : Type 0 where
  pub found : find_capability l.kind entries ≡ some c
  pub not_full : (level_index c.level == level_index full) ≡ false
  pub same_loss : l ≡ loss_of c

-- What is found has the kind, and what every entry has.
find-All :
    (P : Capability → Type 0) (kind : CapabilityKind) (cs : List Capability) {c : Capability}
    → All P cs
    → find_capability kind cs ≡ some c
    → P c × (kind_index c.kind ≡ kind_index kind)
unfolding find_capability
find-All P kind [] h e = cc
find-All P kind (d ∷ cs) (h, hs) e = elim (Bool-cases (kind_index d.kind == kind_index kind)) [
  | inl q ↦
      let q' : d ≡ _ = let e' = rw q at e in cc in
      let same : kind_index d.kind ≡ kind_index kind = ground arith in
      (subst P q' h, subst (λ x. kind_index x.kind ≡ kind_index kind) q' same)
  | inr q ↦ find-All P kind cs hs (rw q at e)
]

-- A loss that the later entries have is one of all, as the first has a smaller kind.
further :
    (l : CapabilityLoss) (d : Capability) (cs : List Capability) (c : Capability)
    → All (λ (e : Capability). kind_index d.kind < kind_index e.kind) cs
    → IsLossOf cs l c
    → IsLossOf (d ∷ cs) l c
unfolding find_capability
further l d cs c above t =
    let (lt, same) =
      find-All (λ e. kind_index d.kind < kind_index e.kind) l.kind cs above t.found in
    let other : (kind_index d.kind == kind_index l.kind) ≡ false = ground arith in
    record { found = rw other t.found; not_full = t.not_full; same_loss = t.same_loss }

loss_sound :
    (l : CapabilityLoss) (cs : List Capability)
    → Ascends cs
    → IsReported l (losses_of cs)
    → (c : Capability) × IsLossOf cs l c
unfolding losses_of find_capability
loss_sound l [] a h = absurd h
loss_sound l (d ∷ cs) (above, a) h = elim (Bool-cases (level_index d.level == level_index full)) [
  | inl f ↦ let (c, t) = loss_sound l cs a (rw f at h) in (c, further l d cs c above t)
  | inr f ↦ elim (rw f at h) [
    | inl e ↦ (
      d,
      record { found = rw (e, beq_refl (kind_index d.kind)) refl; not_full = f; same_loss = e },
    )
    | inr k ↦ let (c, t) = loss_sound l cs a k in (c, further l d cs c above t)
  ]
]

loss_complete :
    (l : CapabilityLoss) (cs : List Capability) (c : Capability)
    → IsLossOf cs l c
    → IsReported l (losses_of cs)
unfolding losses_of find_capability
loss_complete l [] c h = absurd (let e = h.found in cc)
loss_complete l (d ∷ cs) c h = elim (Bool-cases (kind_index d.kind == kind_index l.kind)) [
  | inl q ↦
      let same : d ≡ c = let e = h.found in let e' = rw q at e in cc in
      let kept : (level_index d.level == level_index full) ≡ false =
        subst (λ x. (level_index x.level == level_index full) ≡ false) (sym same) h.not_full in
      rw kept (inl (h.same_loss ∙ ap loss_of (sym same)))
  | inr q ↦
      let e = h.found in
      let later : IsLossOf cs l c = record {
        found = rw q at e;
        not_full = h.not_full;
        same_loss = h.same_loss;
      } in
      let rest = loss_complete l cs c later in
      elim (Bool-cases (level_index d.level == level_index full)) [
        | inl f ↦ rw f rest
        | inr f ↦ rw f (inr rest)
      ]
]

-- An analysis that succeeds names the version of the target's description, and reports a loss
-- exactly if Find gives a capability of its kind that is not fully supported, whose level and texts
-- the loss has.
pub analyze_capability_loss_iff :
    (capabilities : TargetCapabilities) {r : LossAnalysis}
    → analyze_capability_loss capabilities ≡ ok r
    → (r.capability_version ≡ capabilities.version)
      × ((l : CapabilityLoss)
          → IsReported l r.losses ↔ ((c : Capability) × IsLossOf capabilities.entries l c))
unfolding analyze_capability_loss
analyze_capability_loss_iff capabilities h =
    let (_, v, k) = bind_ok (validate_capabilities capabilities) _ h in
    let (_, _, _, ascends) = (validate_capabilities_iff capabilities).0 v in
    subst
      (λ r.
        (r.capability_version ≡ capabilities.version)
        × ((l : CapabilityLoss)
            → IsReported l r.losses ↔ ((c : Capability) × IsLossOf capabilities.entries l c)))
      (ok_injective k)
      (
        refl,
        λ l. (
          loss_sound l capabilities.entries ascends,
          λ (c, t). loss_complete l capabilities.entries c t,
        ),
      )
