-- ===== src/Transitions.antt =====
-- src/nightshift/transitions.py: the pure functions that compute transitions.
mod Fields
mod Rungs
mod Failures
mod Landing
mod Recovery
mod Steps
mod StepResults
mod Submit
pub mod Built
pub mod Issued
pub mod Outbox
pub mod Cursor
pub mod Refusals
pub mod Quarantine
pub mod States
pub mod Addressed
mod Examples
unfoldable pub use Fields.*
unfoldable pub use Rungs.*
unfoldable pub use Failures.*
unfoldable pub use Landing.*
unfoldable pub use Recovery.*
unfoldable pub use Steps.*
unfoldable pub use StepResults.*
unfoldable pub use Submit.*
