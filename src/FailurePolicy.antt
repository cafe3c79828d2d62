-- ===== src/FailurePolicy.antt =====
-- src/nightshift/manager/failure_policy.py: which failed task is admitted again.
mod Pick
pub mod Earliest
mod Examples
unfoldable pub use Pick.*
