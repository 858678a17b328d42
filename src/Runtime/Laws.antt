-- ===== src/Runtime/Laws.antt =====
-- src/app/task_runtime_repository.cpp: what its methods keep of the tables, reduced to what its SQL
-- statements keep.
pub mod Rules
pub mod Transactions
pub mod Guarded
mod Methods
pub use Rules.{Law, Sound, Atomic}
pub use Methods.*
pub use Guarded.{Atomic-add_dependency}
