-- ===== src/Correlation.antt =====
-- bt-daemon/src/correlation.rs: the registry of agent sessions, their processes and open spans.
pub mod State
pub mod Agents
pub mod Sessions
pub mod Index
pub mod Spans
pub mod Resolve
pub mod Snapshot
pub mod Lifecycle
pub mod Assignment
