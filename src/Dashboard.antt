-- ===== src/Dashboard.antt =====
-- internal/ui/dashboard_layout.go: the panes of the dashboard.
pub mod Layout
pub mod Tiles
pub mod Sizes
pub mod Scroll
mod Examples
