-- ===== src/Common.antt =====
-- include/photobridge/common: the status values and the digest.
pub mod Status
pub mod Digest
