-- ===== src/RateLimit.antt =====
-- Rate limiting (src/shared/ratelimit and src/platform/ratelimit).
pub mod Store
pub mod Windows
pub mod Policies
mod Examples
