-- ===== src/RateLimiter.antt =====
-- src-tauri/src/proxy/rate_limiter.rs: the sliding windows, and the limiters of channels and keys.
pub mod Window
pub mod Channels
pub mod Keys
mod Tests
