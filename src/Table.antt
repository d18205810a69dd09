-- ===== src/Table.antt =====
-- internal/ui/table_cache.go and internal/ui/pod.go: the order of the pod table and its cache.
pub mod Ascending
pub mod Merge
pub mod Linear
pub mod Rows
pub mod Cache
pub mod Order
pub mod Kept
pub mod Fresh
pub mod Merged
pub mod Undisturbed
pub mod Changed
mod Examples
