-- ===== src/Queues.antt =====
-- src/nightshift/queue_config.py and src/nightshift/task_files.py: the order in which the tasks of a
-- queue run.
pub mod Config
pub mod Frontmatter
pub mod Order
pub mod Scan
pub mod Held
mod Fence
pub mod Ordered
pub mod Runnable
pub mod Saved
pub mod Reordered
mod Examples
