-- ===== src/Dispatch.antt =====
-- src-tauri/src/proxy/dispatch.rs and attempt.rs: how a request is served, from the models that may
-- serve it over the attempts on channels to the response.
pub mod Plan
pub mod State
pub mod Select
pub mod Attempt
pub mod Telemetry
pub mod Loop
pub mod Request
mod Tests
