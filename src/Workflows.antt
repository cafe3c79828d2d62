-- ===== src/Workflows.antt =====
-- src/nightshift/workflows.py: the definitions of workflows and how a step routes.
pub mod Step
pub mod Validate
pub mod Paths
pub mod Parse
pub mod Routed
mod Roles
pub mod DefaultPath
pub mod Reachable
pub mod Cycles
pub mod Parsed
mod Examples
