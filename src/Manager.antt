-- ===== src/Manager.antt =====
-- src/nightshift/manager/api_worker.py, app.py and reconciler.py: the manager's handlers and loops.
mod World
mod Policy
mod Finish
mod Verdict
mod Submit
mod Lease
mod Chain
mod Deadlines
mod Reconcile
mod Holds
mod Quiet
mod Committed
mod Fenced
mod Once
pub mod Chained
pub mod Replay
pub mod Discarded
mod Moved
pub mod Expired
mod Recovered
mod Ladder
pub mod Restarted
mod Spared
pub mod Blocked
pub mod Outage
mod Examples
unfoldable pub use World.*
unfoldable pub use Policy.*
unfoldable pub use Finish.*
unfoldable pub use Verdict.*
unfoldable pub use Submit.*
unfoldable pub use Lease.*
unfoldable pub use Chain.*
unfoldable pub use Deadlines.*
unfoldable pub use Reconcile.*
unfoldable pub use Holds.*
