-- ===== src/Kubeconfig.antt =====
-- internal/kubeconfig and cmd/kubetin/trust.go: which kubeconfig files are read, and how their
-- contexts are named.
pub mod Names
pub mod Unique
pub mod Trust
pub mod Start
pub mod Accept
pub mod Samples
mod Examples
