-- ===== src/State.antt =====
-- internal/model/state.go: the store of cluster states.
pub mod Defs
pub mod Registers
mod Examples
