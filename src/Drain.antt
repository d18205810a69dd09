-- ===== src/Drain.antt =====
-- internal/cluster/nodeops.go: cordon, and the drain of a node.
pub mod Evict
pub mod Preflight
pub mod Verified
pub mod Node
pub mod Ends
pub mod Stream
mod Examples
