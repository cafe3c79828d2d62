-- ===== src/Scheduler.antt =====
-- src/nightshift/manager/scheduler.py: which task a polling worker gets.
mod Workers
mod Heads
mod Unroutable
pub mod Arbitration
pub mod Picked
pub mod Unserved
pub mod Reasons
mod Examples
unfoldable pub use Workers.*
unfoldable pub use Heads.*
unfoldable pub use Unroutable.*
