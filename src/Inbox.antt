-- ===== src/Inbox.antt =====
-- The inbox, which delivers events to consumers (src/shared/events/inbox.ts and in-memory-inbox.ts).
pub mod Retry
pub mod Ledger
pub mod Deliveries
pub mod Invariant
pub mod Operations
pub mod Order
mod Examples
