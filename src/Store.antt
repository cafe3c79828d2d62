-- ===== src/Store.antt =====
-- src/nightshift/manager/store.py: the manager's state store, with the SQL of `SqlStoreBase`.
mod Rows
mod Transport
mod Updates
pub mod Pruned
mod Attempts
mod Tasks
mod Apply
pub mod Fields
pub mod Cas
pub mod Recorded
pub mod Overlay
pub mod Standing
pub mod Lifetime
pub mod Live
mod Workers
mod Reads
mod Examples
unfoldable pub use Rows.*
unfoldable pub use Transport.*
unfoldable pub use Updates.*
unfoldable pub use Attempts.*
unfoldable pub use Tasks.*
unfoldable pub use Apply.*
unfoldable pub use Workers.*
unfoldable pub use Reads.*
