-- ===== src/Router.antt =====
-- src-tauri/src/router/: the choice of a channel for a request.
pub mod Weighted
pub mod Strategy
pub mod Select
pub mod Fallback
pub mod Affinity
mod Tests
