-- ===== src/Delivery.antt =====
-- internal/cluster/delivery.go: the queue between an informer and a slow consumer.
pub mod Defs
pub mod Run
pub mod Invariant
pub mod Publish
pub mod Steps
pub mod Loop
pub mod Eventual
pub mod Drains
mod Examples
