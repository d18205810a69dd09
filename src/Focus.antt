-- ===== src/Focus.antt =====
-- cmd/kubetin/main.go: the coordinator of the watchers; cmd/kubetin/resource_batch.go: their batches.
pub mod Coordinator
pub mod Settled
pub mod Phases
pub mod Settling
pub mod Ordering
pub mod Batch
pub mod Batched
mod Examples
