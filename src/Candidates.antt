-- ===== src/Candidates.antt =====
-- src/nightshift/manager/scheduler.py, lines 184-296: what the scheduler reads of the task files.
pub mod Repos
pub mod Resolver
pub mod Build
pub mod Built
mod Examples
