-- ===== src/Agent.antt =====
-- src/nightshift/agent/apply.py: the edits that the agent's model writes.
mod Blocks
mod Edits
pub mod Edited
pub mod Refused
pub mod Fenced
mod Occurrences
mod Examples
unfoldable pub use Blocks.*
unfoldable pub use Edits.*
