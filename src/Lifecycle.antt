-- ===== src/Lifecycle.antt =====
-- src/nightshift/lifecycle.py: the lifecycle vocabulary and the values that describe a transition.
mod Vocabulary
mod Report
mod Retry
pub mod Delay
mod Land
mod Effects
mod Examples
unfoldable pub use Vocabulary.*
unfoldable pub use Report.*
unfoldable pub use Retry.*
unfoldable pub use Land.*
unfoldable pub use Effects.*
