-- ===== src/Trackers.antt =====
-- The trackers of src-tauri/src/router/ that routing reads.
pub mod ActiveRequests
pub mod Cooldown
pub mod Latency
mod Tests
