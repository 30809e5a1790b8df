-- ===== src/ApprovalApi.antt =====
-- crates/niuma-api/src/handlers/approval.rs: the handlers of the approval requests.
pub mod Kept
pub mod Settling
pub mod Takeover
pub mod Candidates
mod Answer
mod Events
mod State
mod Requests
mod Decisions
mod Watchers
unfoldable pub use Answer.*
unfoldable pub use Events.*
unfoldable pub use State.*
unfoldable pub use Requests.*
unfoldable pub use Decisions.*
unfoldable pub use Watchers.*
