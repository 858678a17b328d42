-- ===== src/Model/FileIdentity.antt =====
-- include/photobridge/model/file_identity.h. The times are the 64-bit patterns of their int64.
use photobridge.Base.{
  Bool, Eq, Option, arith, list_eq, nat_eq, option_beq_iff, option_eq, string_eq, true, ℕ, ◌&&◌,
  ◌==◌, ◌↔◌, ◌≡◌,
}

pub record FileIdentity : Type 0 where
  pub device : ℕ
  pub inode : ℕ
  pub size : ℕ
  pub mtime_ns : ℕ
  pub ctime_ns : ℕ
  pub mount_id : Option ℕ

-- The defaulted comparison: field by field.
unfoldable pub identity_beq : FileIdentity → FileIdentity → Bool
identity_beq a b =
    a.device == b.device
    && a.inode == b.inode
    && a.size == b.size
    && a.mtime_ns == b.mtime_ns
    && a.ctime_ns == b.ctime_ns
    && a.mount_id == b.mount_id

pub identity_beq_iff : (a b : FileIdentity) → (identity_beq a b ≡ true) ↔ (a ≡ b)
unfolding identity_beq
identity_beq_iff a b = (
  (λ h. ground (arith, option_beq_iff a.mount_id b.mount_id)),
  (λ h. rw h (ground (arith, option_beq_iff b.mount_id b.mount_id))),
)

instance abbrev pub identity_eq : Eq FileIdentity
identity_eq = record { beq = identity_beq; beq_iff = identity_beq_iff }
