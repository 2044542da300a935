-- ===== src/Serving.antt =====
-- The start-up and the frame of the API: crates/attesta-core/src/config.rs, the middleware of
-- crates/attesta-api/src/limits.rs, the checks of crates/attesta-api/src/routes/mod.rs, crates/attesta-api/src/request_id.rs and the allowlist of
-- crates/attesta-api/src/main.rs.
pub mod Config
pub mod Middleware
pub mod Health
pub mod RequestId
mod Tests
