-- ===== src/Jobs.antt =====
-- The Jobs bounded context (src/modules/jobs).
pub mod Job
pub mod Restore
pub mod Lifecycle
pub mod Store
pub mod Writes
pub mod Traces
pub mod History
pub mod Unique
pub mod Failures
pub mod Commands
pub mod Queries
pub mod Expiry
pub mod Listed
pub mod Expired
mod Examples
mod Requests
