-- ===== src/Shared.antt =====
-- The shared leaves of the backend (src/shared): failures, versions, dates, values and events.
pub mod Errors
pub mod Domain
pub mod Numbers
pub mod Dates
pub mod Text
pub mod Trimmed
pub mod Values
pub mod Ids
pub mod Work
pub mod Effects
pub mod Tables
pub mod Searches
pub mod Transactions
pub mod Pagination
pub mod Pages
pub mod Walk
pub mod Cursors
mod Examples
pub mod Events
