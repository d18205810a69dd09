-- ===== src/Fleet.antt =====
-- internal/ui/fleethealth.go: what the fleet dashboard makes of the states of all clusters.
pub mod Alerts
pub mod Groups
pub mod Grouped
pub mod Faults
pub mod Counts
pub mod Severity
pub mod Ordered
pub mod Pulse
pub mod Silent
mod Examples
