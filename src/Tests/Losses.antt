-- ===== src/Tests/Losses.antt =====
-- What the local directory does not fully keep.
use photobridge.Base.{length, refl, ◌↔◌, ◌≡◌}
use photobridge.Common.Status.{ok}
use photobridge.Model.Capability.{
  Capability, check_entries, check_entry, is_known_support_level, local_directory_capabilities_v1,
  validate_capabilities,
}
use photobridge.Model.LossAnalysis.{
  CapabilityLoss, LossAnalysis, analyze_capability_loss, losses_of,
}
use photobridge.Model.LossAnalysis.Report.{IsLossOf, IsReported, analyze_capability_loss_iff}

abbrev directory_losses : LossAnalysis
directory_losses = record {
  capability_version = local_directory_capabilities_v1.version;
  losses = losses_of local_directory_capabilities_v1.entries;
}

three_losses : length directory_losses.losses ≡ 3
unfolding losses_of local_directory_capabilities_v1
three_losses = refl

directory_analyzed : analyze_capability_loss local_directory_capabilities_v1 ≡ ok directory_losses
unfolding analyze_capability_loss validate_capabilities check_entries check_entry
    is_known_support_level local_directory_capabilities_v1
directory_analyzed = refl

analyze_capability_loss_iff_example :
    (directory_losses.capability_version ≡ local_directory_capabilities_v1.version)
    × ((l : CapabilityLoss)
        → IsReported l directory_losses.losses
          ↔ ((c : Capability) × IsLossOf local_directory_capabilities_v1.entries l c))
analyze_capability_loss_iff_example =
    analyze_capability_loss_iff local_directory_capabilities_v1 directory_analyzed
