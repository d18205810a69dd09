-- ===== src/Probe.antt =====
-- internal/cluster/probe.go: the probe loop of a context.
pub mod Hysteresis
pub mod Errors
pub mod Nodes
pub mod Counted
pub mod Workloads
pub mod Signals
pub mod Round
pub mod Verdict
pub mod Carry
pub mod Stalled
pub mod Supervisor
pub mod Shown
pub mod Scope
pub mod Sources
mod Examples
