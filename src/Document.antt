-- ===== src/Document.antt =====
-- The Document bounded context (src/modules/document).
pub mod Document
pub mod Restore
pub mod Lifecycle
pub mod Outcomes
pub mod Failures
pub mod Store
pub mod Commands
pub mod Queries
pub mod Settled
pub mod Processed
pub mod Redelivery
pub mod Examples
pub mod Requests
