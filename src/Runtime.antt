-- ===== src/Runtime.antt =====
-- src/app: the runtime tables of a migration, the repository over them and its single writer.
pub mod Tables
pub mod Identity
pub mod Store
pub mod Sql
pub mod Tasks
pub mod Dependencies
pub mod Claim
pub mod Attempts
pub mod Recovery
pub mod Receipts
pub mod Laws
pub mod Success
pub mod Rows
pub mod Writer
pub mod Calls
pub mod Queue
