-- ===== src/Filesystem.antt =====
-- src/filesystem: what the recovery decides.
pub mod Reconciler
