-- ===== src/History.antt =====
-- internal/ui/history.go: the rates of the focused cluster.
pub mod Ring
pub mod Window
mod Examples
