-- ===== src/Organization.antt =====
-- src/modules/organization: organizations, their memberships and their invitations.
pub mod Organization
pub mod Membership
pub mod Invitation
pub mod Lifecycle
pub mod Terms
pub mod Store
pub mod Writers
pub mod Writes
pub mod History
pub mod Failures
pub mod Commands
pub mod Access
pub mod Views
pub mod Granted
mod Examples
mod Requests
