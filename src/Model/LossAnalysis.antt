-- ===== src/Model/LossAnalysis.antt =====
-- src/model/loss_analysis.cpp: what a target does not fully keep.
pub mod Report
use photobridge.Base.{
  Bytes, List, [], if◌then◌else◌, list_eq, nat_eq, option_eq, string_eq, ◌==◌, ◌∷◌,
}
use photobridge.Common.Status.{Result, ok, ◌>>◌}
use photobridge.Model.Capability.{
  Capability, CapabilityKind, SupportLevel, TargetCapabilities, full, level_index,
  validate_capabilities,
}

pub record CapabilityLoss : Type 0 where
  pub kind : CapabilityKind
  pub level : SupportLevel
  pub representation : Bytes
  pub reason : Bytes

pub record LossAnalysis : Type 0 where
  pub capability_version : Bytes
  pub losses : List CapabilityLoss

abbrev pub loss_of : Capability → CapabilityLoss
loss_of c = record {
  kind = c.kind;
  level = c.level;
  representation = c.representation;
  reason = c.reason;
}

unfoldable pub losses_of : List Capability → List CapabilityLoss
losses_of [] = []
losses_of (c ∷ cs) =
    let rest = losses_of cs in
    if level_index c.level == level_index full then rest else loss_of c ∷ rest

-- AnalyzeCapabilityLoss
unfoldable pub analyze_capability_loss : TargetCapabilities → Result LossAnalysis
analyze_capability_loss capabilities = do
  validate_capabilities capabilities
  ok record { capability_version = capabilities.version; losses = losses_of capabilities.entries }
