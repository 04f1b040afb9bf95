-- ===== src/Repository.antt =====
-- control-plane/backend/src/osa/control_plane/backend/repositories.py: the persistence behind the
-- control plane, in memory and in SQL. A table is a list of rows; a statement is one step.
pub mod Deployments
pub mod Rows
pub mod Agents
pub mod Storage
pub mod Transitions
pub mod Audit
pub mod Resources
mod Tests
