-- ===== src/Network.antt =====
-- internal/cluster/networkpoll.go: the network rates of the pods of the cluster in focus.
pub mod Rates
pub mod Poll
pub mod Sums
pub mod Registers
pub mod Baselines
pub mod Coverage
pub mod Rotation
pub mod Jobs
pub mod Fair
mod Examples
