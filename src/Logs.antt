-- ===== src/Logs.antt =====
-- internal/cluster/logstream.go: the log of one container, across reconnects.
pub mod Cursor
pub mod Lines
pub mod Exact
pub mod Streams
pub mod Run
pub mod Ends
pub mod Output
pub mod Dropped
pub mod Passed
mod Examples
