-- ===== src/Compat.antt =====
-- src/nightshift/lifecycle_compat.py: the migration from a lease and a run to one attempt, and back.
mod Fold
pub mod RoundTrip
mod Examples
unfoldable pub use Fold.*
